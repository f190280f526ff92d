-- ===== src/Server/Stranding.antt =====
-- `Disconnect` and then `Accept` of IocpServer_1/EchoServer.h, when one client is left to be accepted.
use iocp_server.Base.{
  ℕ, suc, ◌+◌, ◌^◌, ◌<◌, ◌≡◌, ◌≢◌, refl, arith, inl, inr, true, false, [], ◌∷◌, some, ◌==◌, ltb,
  Bool-cases, ==→eq, ==-false→ne, ltb→lt, add_int, sub_int, leb_int,
}
use iocp_server.Memory.{World, wsa_recv, ◌>>=◌}
use iocp_server.Packet.{Packet}
use iocp_server.Client.{Client, receiving}
use iocp_server.Client.Frames.{All}
use iocp_server.Client.Handling.{log}
use iocp_server.Server.{Server, Outside, accept, accept_found, disconnect, client_finder, top_up}
use iocp_server.Server.Table.{Clients, IsNumbered, lookup, assign}
use iocp_server.Server.Invariant.{IsTable, connected, feedback_accept_lem}
use iocp_server.Server.Disconnecting.{disconnect_connected}

abbrev pub AllConnected : Clients → Type 0
AllConnected cs = All (λ x. x.1.is_connect ≡ true) cs

-- Every client but `b` is connected.
abbrev pub OthersConnected : ℕ → Clients → Type 0
OthersConnected b cs = All (λ x. x.0 ≢ b → x.1.is_connect ≡ true) cs

behind : (k b : ℕ) (cs : Clients) → IsNumbered k cs → b < k → OthersConnected b cs → AllConnected cs
behind k b [] n l h = tt
behind k b ((j, c) ∷ cs) n l h =
    (h.0 (λ e. absurd (omega (arith, n.0, e))), behind (suc k) b cs n.2 (omega arith) h.1)

assign-AllConnected :
    (k b : ℕ) (d : Client) (cs : Clients)
    → IsNumbered k cs
    → d.is_connect ≡ true
    → OthersConnected b cs
    → AllConnected (assign b d cs)
unfolding assign
assign-AllConnected k b d [] n on h = (on, tt)
assign-AllConnected k b d ((j, c) ∷ cs) n on h = elim (Bool-cases (j == b)) [
  | inl here ↦ rw here (on, behind (suc k) b cs n.2 (omega (arith, n.0, ==→eq j b here)) h.1)
  | inr there ↦ elim (Bool-cases (ltb b j)) [
    | inl before ↦
        rw (there, before)
          (
            on,
            (
              h.0 (==-false→ne j b there),
              behind (suc k) b cs n.2 (omega (arith, n.0, ltb→lt b j before)) h.1,
            ),
          )
    | inr after ↦
        rw (there, after)
          (h.0 (==-false→ne j b there), assign-AllConnected (suc k) b d cs n.2 on h.1)
  ]
]

room_counted :
    (max count : ℕ)
    → max ≡ count + 1
    → 0 < count
    → max < 2 ^ 31
    → (leb_int (sub_int max (add_int (sub_int count 1) 1)) 0 ≡ false)
      × (add_int (sub_int count 1) 1 ≡ count)
room_counted max count e pos h =
    let counted : add_int (sub_int count 1) 1 ≡ count = omega arith in
    (rw counted (ground arith), counted)

module _ (o : Outside) where
  -- In a table in order, with every client connected but the one that is left to be accepted, as
  -- `Accept` leaves it: a connected client disconnects, and then the last one is accepted. Both
  -- handlers return, every client is connected then, and no connection is asked for; the server
  -- counts fewer clients than it has, so it prepares no further one.
  pub disconnect-accept :
      (pa pb : Packet) (ca cb : Client) (s : Server) (w : World)
      → IsTable s
      → lookup pa.client_id s.clients ≡ some ca
      → ca.is_connect ≡ true
      → lookup pb.client_id s.clients ≡ some cb
      → OthersConnected pb.client_id s.clients
      → s.current_client_max ≡ s.current_client_count + 1
      → 0 < s.current_client_count
      → s.current_client_max < 2 ^ 31
      → (s' : Server) × ((disconnect o pa s >>= accept o pb) w
          ≡ some (s', log w (wsa_recv (receiving cb.id) ∷ [])))
        × AllConnected s'.clients
        × (s'.current_client_count < s'.current_client_max)
  unfolding accept accept_found client_finder top_up
  disconnect-accept pa pb ca cb s w t fa on fb others e pos h =
      let gone = disconnect_connected o pa ca s w t.numbered fa on in
      let room = room_counted s.current_client_max s.current_client_count e pos h in
      (
        record s {
          clients = assign pb.client_id (connected cb) s.clients;
          current_client_count = add_int (sub_int s.current_client_count 1) 1;
        },
        rw (gone, ◌>>=◌) (rw (fb, accept) (rw (feedback_accept_lem cb w, ◌>>=◌) (rw room.0 refl))),
        assign-AllConnected 0 pb.client_id (connected cb) s.clients t.numbered refl others,
        omega (arith, room.1),
      )
