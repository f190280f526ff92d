-- ===== src/Server/Disconnecting.antt =====
-- What `Disconnect` and a packet for an unknown client do.
use iocp_server.Base.{
  some-injective, ℕ, suc, ◌≡◌, sym, ap, ap₂, true, false, [], ◌∷◌, none, some, arith, sub_int, ◌==◌,
  Bool-cases, inl, inr, ==→eq, le→ltb-false,
}
use iocp_server.Memory.{World, ◌>>=◌}
use iocp_server.Packet.{Packet}
use iocp_server.Client.{Client, try_accept}
use iocp_server.Server.{Server, Outside, accept, send, receive, disconnect, client_finder}
use iocp_server.Server.Table.{Clients, IsNumbered, lookup, lookup_above, assign}

-- Storing the client that is there already changes nothing.
assign_same :
    (k i : ℕ) (c : Client) (cs : Clients)
    → IsNumbered k cs
    → lookup i cs ≡ some c
    → assign i c cs ≡ cs
unfolding assign lookup
assign_same k i c [] n e = cc
assign_same k i c ((j, b) ∷ cs) n e = elim (Bool-cases (j == i)) [
  | inl here ↦
      let found : some b ≡ some c = rw here at e in
      rw here (ap₂ (λ l d. (l, d) ∷ cs) (sym (==→eq j i here)) (sym (some-injective found)))
  | inr there ↦
      let e' : lookup i cs ≡ some c = rw there at e in
      rw (there, le→ltb-false i j (omega (arith, n.0, lookup_above (suc k) i c cs n.2 e')))
        (ap (λ l. (j, b) ∷ l) (assign_same (suc k) i c cs n.2 e'))
]

try_accept_connected :
    (error : ℕ) (c : Client) (w : World)
    → c.is_connect ≡ true
    → try_accept error c w ≡ some ((false, c), w)
unfolding try_accept
try_accept_connected error c w on = rw on

module _ (o : Outside) where
  -- A packet for a client that the table does not have leaves the server and the world alone,
  -- whichever handler gets it.
  pub unknown_client :
      (p : Packet) (s : Server) (w : World)
      → lookup p.client_id s.clients ≡ none
      → (accept o p s w ≡ some (s, w))
        × (send o p s w ≡ some (s, w))
        × (receive o p s w ≡ some (s, w))
        × (disconnect o p s w ≡ some (s, w))
  unfolding accept send receive disconnect client_finder
  unknown_client p s w e = (rw (e, accept), rw (e, send), rw (e, receive), rw (e, disconnect))

  -- `Disconnect` for a connected client of a table that is numbered without gaps asks for no new connection and leaves the client
  -- connected: all that changes is the count of clients, which falls by one.
  pub disconnect_connected :
      (p : Packet) (c : Client) (s : Server) (w : World)
      → IsNumbered 0 s.clients
      → lookup p.client_id s.clients ≡ some c
      → c.is_connect ≡ true
      → disconnect o p s w
        ≡ some (record s { current_client_count = sub_int s.current_client_count 1 }, w)
  unfolding disconnect client_finder
  disconnect_connected p c s w n e on =
      let error = o.socket_error p.client_id in
      let refused : try_accept error c w ≡ some ((false, c), w) =
        try_accept_connected error c w on in
      rw (e, disconnect)
        (rw (refused, ◌>>=◌)
          (ap
            (λ cs. some (
              record s { clients = cs; current_client_count = sub_int s.current_client_count 1 },
              w,
            ))
            (assign_same 0 p.client_id c s.clients n e)))
