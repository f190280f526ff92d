-- ===== src/Pipeline/Serving.antt =====
-- The handlers of IocpServer_1/EchoServer.h as the callbacks of the completion port.
use iocp_server.Base.{
  ◌==◌, Bool-cases, ==→eq, ==-false→ne, some-injective, arith, ℕ, ◌<◌, ◌≤◌, ◌≡◌, refl, sym, ap, ◌∙◌,
  inl, inr, true, false, List, ◌++◌, Option, none, some, length, Option-cases, sub_int,
}
use iocp_server.Memory.{World, M, ◌>>=◌}
use iocp_server.Packet.{Packet}
use iocp_server.Packet.Laws.{le_self}
use iocp_server.Client.{Client}
use iocp_server.Client.Handling.{log}
use iocp_server.Server.{Server, Outside, client_finder, accept, send, receive, disconnect}
use iocp_server.Server.Table.{found-All, assign-All, lookup, assign, lookup-assign_at}
use iocp_server.Server.Accepting.{tried, accept_events, try_accept_lem}
use iocp_server.Iocp.Slots.{shows}
use iocp_server.Iocp.Delivery.{Which, accepts, sends, receives, disconnects}
use iocp_server.Iocp.Routes.{Item}
use iocp_server.Iocp.Contract.{Contract, Served, Serves}
use iocp_server.Client.Frames.{concat}
use iocp_server.Client.Receive.{frames}
use iocp_server.Pipeline.Receiving.{Received, receive-Received}
use iocp_server.Pipeline.Reports.{reported_of}
use iocp_server.Pipeline.Steady.{IsSteady, IsBelow}
use iocp_server.Pipeline.Effects.{
  EffectOf, CallOf, Effect-tried, Effect-assign_ne, EffectOf-unknown, or_false, either_zero,
}
use iocp_server.Pipeline.Offering.{recv_count-accept_events, send_count-accept_events}
use iocp_server.Pipeline.Accepting.{Logged, pure-Logged, accept-Logged}
use iocp_server.Pipeline.AtRest.{IsAtRest, tried-IsAtRest}

pub Logged-Served :
    (C : Contract Server) {k : Which} {f : Packet → Server → M Server} {p : Packet} {s : Server}
    {w : World}
    → (l : Logged (C.Step k (shows w p) s) (f p s) w) → C.Inv l.state
    → Served C k f p s w
Logged-Served C {w = w} l inv = record {
  handles = record {
    state = l.state;
    world = log w l.news;
    runs = l.runs;
    blocks = refl;
    next = le_self w.next;
    received = refl;
  };
  inv = inv;
  news = l.news;
  logged = refl;
  step = l.does;
}

-- What waits in the receive queue has bytes, and no more than a client's queue takes; nothing waits in
-- the send queue.
abbrev pub Fits : Which → Item → Type 0
Fits accepts x = Unit {0}
Fits sends x = ⊥
Fits receives x = (0 < length x.1) × (length x.1 ≤ 980)
Fits disconnects x = Unit {0}

-- What the completion port can rely on.
abbrev pub echo_contract : Contract Server
echo_contract = record { Inv = IsSteady; Fits = Fits; Step = CallOf }

-- The handlers, by their queues.
abbrev pub handler : Outside → Which → Packet → Server → M Server
handler o accepts = accept o
handler o sends = send o
handler o receives = receive o
handler o disconnects = disconnect o

module _ (o : Outside) where
  accept-Serves : Serves echo_contract accepts (accept o)
  accept-Serves owner p s w h fits loose =
      let l = accept-Logged o p (shows w p).1 s w h in Logged-Served echo_contract l l.steady

  -- What is stored back, with an idle client that keeps its identifier.
  pub stored :
      (id : ℕ) (c d : Client) (count : ℕ) (s : Server)
      → IsSteady s
      → lookup id s.clients ≡ some c
      → IsAtRest (id, d)
      → IsSteady (record s { clients = assign id d s.clients; current_client_count = count })
  stored id c d count s h known rest = record {
    at_rest = assign-All IsAtRest id d s.clients h.at_rest rest;
    issued =
        assign-All (IsBelow s.accumulated_client_id) id d s.clients h.issued
          (found-All (IsBelow s.accumulated_client_id) id c s.clients h.issued known);
    in_range = h.in_range;
  }

  disconnect-Logged :
      (p : Packet) (bytes : List ℕ) (s : Server) (w : World)
      → IsSteady s
      → Logged (CallOf disconnects (p.client_id, bytes) s) (disconnect o p s) w
  unfolding disconnect client_finder
  disconnect-Logged p bytes s w h = elim (Option-cases (lookup p.client_id s.clients)) [
    | inl unknown ↦
        rw (unknown, disconnect)
          (pure-Logged (CallOf disconnects (p.client_id, bytes) s) s w h
            (EffectOf-unknown disconnects (p.client_id, bytes) s unknown, omega arith, refl))
    | inr (c, known) ↦
        let id = p.client_id in
        let error = o.socket_error id in
        let rest = found-All IsAtRest id c s.clients h.at_rest known in
        let count = sub_int s.current_client_count 1 in
        rw (known, disconnect)
          (record {
            state = record s {
              clients = assign id (tried error c) s.clients;
              current_client_count = count;
            };
            news = accept_events error c;
            runs = rw (try_accept_lem error c w, ◌>>=◌) refl;
            steady = stored id c (tried error c) count s h known (tried-IsAtRest error id c rest);
            does = (
              (λ j d found. Effect-tried j id error d c s.clients found known),
              omega (arith, recv_count-accept_events error c),
              send_count-accept_events error c,
            );
          })
  ]

  disconnect-Serves : Serves echo_contract disconnects (disconnect o)
  disconnect-Serves owner p s w h fits loose =
      let l = disconnect-Logged p (shows w p).1 s w h in Logged-Served echo_contract l l.steady

  -- The client that the packet is for, and every other one.
  Received-Effect :
      (p : Packet) (bytes : List ℕ) (s : Server) (w : World) (c : Client)
      → lookup p.client_id s.clients ≡ some c
      → c.id ≡ p.client_id
      → (r : Received o p s c bytes w)
      → EffectOf receives
          (p.client_id, bytes)
          s
          r.news
          (record s { clients = assign p.client_id r.client s.clients })
  Received-Effect p bytes s w c known named r j d found = elim (Bool-cases (p.client_id == j)) [
    | inl here ↦
        let e = ==→eq p.client_id j here in
        let own : (c.id == j) ≡ true = ap (λ i. i == j) named ∙ here in
        let same : c ≡ d = some-injective (sym known ∙ ap (λ i. lookup i s.clients) e ∙ found) in
        let told : reported_of j r.news ≡ concat (frames (c.receive_buffer ++ bytes)) =
          rw own at (r.reports j) in
        rw here (record {
          client = r.client;
          found = lookup-assign_at p.client_id j r.client s.clients e;
          all_bytes = rw told (r.all_bytes ∙ ap (λ a. a.receive_buffer ++ bytes) same);
          connected = r.connected ∙ ap (λ a. a.is_connect) same ∙ sym (or_false d.is_connect);
          reads = r.reads j ∙ rw (own, r.connected) refl;
        })
    | inr there ↦
        let own : (c.id == j) ≡ false = ap (λ i. i == j) named ∙ there in
        rw there (
          Effect-assign_ne j p.client_id d r.client r.news s.clients
            (==-false→ne p.client_id j there) found (rw own at (r.reports j))
            (r.reads j ∙ rw own (either_zero c.is_connect)))
  ]

  receive-Serves : Serves echo_contract receives (receive o)
  unfolding receive client_finder
  receive-Serves owner p s w h (pos, fits) loose = by_client (lookup p.client_id s.clients) refl
    where
      by_client :
          (c : Option Client)
          → lookup p.client_id s.clients ≡ c
          → Served echo_contract receives (receive o) p s w
      by_client none unknown =
          let l : Logged (CallOf receives (shows w p) s) (receive o p s) w =
            rw (unknown, receive)
              (pure-Logged (CallOf receives (shows w p) s) s w h
                (EffectOf-unknown receives (shows w p) s unknown, omega arith, refl)) in
          Logged-Served echo_contract l l.steady
      by_client (some c) known =
          let rest = found-All IsAtRest p.client_id c s.clients h.at_rest known in
          let r =
            receive-Received o owner p s c p.client_id (shows w p).1 w loose refl pos fits known
              rest.0 in
          Logged-Served echo_contract
            (record {
              state = record s { clients = assign p.client_id r.client s.clients };
              news = r.news;
              runs = r.runs;
              steady =
                  stored p.client_id c r.client s.current_client_count s h known
                    (r.idle, r.same_id ∙ rest.1);
              does = (Received-Effect p (shows w p).1 s w c known rest.1 r, r.asks_once, r.no_send);
            })
            (stored p.client_id c r.client s.current_client_count s h known
              (r.idle, r.same_id ∙ rest.1))

pub handler-Serves : (o : Outside) (k : Which) → Serves echo_contract k (handler o k)
handler-Serves o accepts = accept-Serves o
handler-Serves o sends = λ owner p s w h fits loose. absurd fits
handler-Serves o receives = receive-Serves o
handler-Serves o disconnects = disconnect-Serves o
