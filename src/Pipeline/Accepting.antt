-- ===== src/Pipeline/Accepting.antt =====
-- `EchoServer::Accept` as a callback of the completion port.
use iocp_server.Base.{
  ℕ, ◌+◌, arith, ◌≡◌, refl, sym, ap, ◌∙◌, inl, inr, Bool, true, false, ◌||◌, List, [], ◌∷◌, ◌++◌,
  some, if◌then◌else◌, Option-cases, append-nil, add_int, sub_int, leb_int, ◌==◌, Bool-cases, ==→eq,
  ==-false→ne, some-injective,
}
use iocp_server.Memory.{World, Event, wsa_recv, M, pure, ◌>>=◌, emit}
use iocp_server.Packet.{Packet}
use iocp_server.Client.{Client, receiving, feedback_accept, receive_ready}
use iocp_server.Client.Handling.{log, log-log}
use iocp_server.Server.{
  Server, Outside, add_clients, prepare_socket, prepare_rounds, rounds_of, client_finder, top_up,
  accept_found, accept, client_increase,
}
use iocp_server.Server.Table.{found-All, assign-All, Clients, lookup, assign, lookup-assign_at}
use iocp_server.Server.Accepting.{tried_all, all_events, try_accept_all_lem}
use iocp_server.Client.Counting.{recv_count, recv_count-append, send_count, send_count-append}
use iocp_server.Iocp.Delivery.{accepts}
use iocp_server.Iocp.Routes.{Item}
use iocp_server.Pipeline.AtRest.{IsAtRest, add_clients-IsAtRest, tried_all-IsAtRest}
use iocp_server.Pipeline.Steady.{
  IsSteady, IsBelow, rounds_of-in_range, add_int_lem, tried_all-AllBelow, add_clients-AllBelow,
}
use iocp_server.Pipeline.Effects.{
  Effect, CallOf, Effect-quiet, Effect-then, Effect-assign_ne, Effect-tried_all, EffectOf-unknown,
}
use iocp_server.Pipeline.Offering.{recv_count-all_events, send_count-all_events}

-- A run that only adds to the events, with this effect.
pub record Logged (Does : List Event → Server → Type 0) (m : M Server) (w : World) : Type 0 where
  pub state : Server
  pub news : List Event
  pub runs : m w ≡ some (state, log w news)
  pub steady : IsSteady state
  pub does : Does news state

-- Nothing that concerns a client of the table, and no read or send.
abbrev pub Quiet : Server → List Event → Server → Type 0
Quiet s news s' =
    ((j : ℕ) (c : Client) → lookup j s.clients ≡ some c → Effect j c [] false 0 news s'.clients)
    × (recv_count news ≡ 0)
    × (send_count news ≡ 0)

pub pure-Logged :
    (Does : List Event → Server → Type 0) (s : Server) (w : World)
    → IsSteady s
    → Does [] s
    → Logged Does (pure s) w
pure-Logged Does s w h does = record {
  state = s;
  news = [];
  runs = ap (λ l. some (s, record w { events = l })) (sym (append-nil w.events));
  steady = h;
  does = does;
}

module _ (o : Outside) where
  prepare_socket-Logged :
      (s : Server) (w : World)
      → IsSteady s
      → Logged (Quiet s) (prepare_socket o client_increase s) w
  unfolding prepare_socket prepare_rounds
  prepare_socket-Logged s w h =
      let id = s.accumulated_client_id in
      let rounds = rounds_of id client_increase in
      let cs = add_clients o rounds id s.clients in
      let fits = rounds_of-in_range id h.in_range in
      let grown = add_clients-AllBelow o rounds id s.clients fits h.issued in
      let next = add_int_lem id rounds fits in
      record {
        state = record {
          clients = tried_all o cs;
          accumulated_client_id = add_int id rounds;
          current_client_count = s.current_client_count;
          current_client_max = add_int s.current_client_max client_increase;
        };
        news = all_events o cs;
        runs = rw (try_accept_all_lem o cs w, ◌>>=◌) refl;
        steady = record {
          at_rest = tried_all-IsAtRest o cs (add_clients-IsAtRest o rounds id s.clients h.at_rest);
          issued = rw next (tried_all-AllBelow o (id + rounds) cs grown.0);
          in_range = rw next fits;
        };
        does = (
          (λ j c found.
              Effect-tried_all o j c cs
                (grown.1 j (found-All (IsBelow id) j c s.clients h.issued found) ∙ found)),
          recv_count-all_events o cs,
          send_count-all_events o cs,
        );
      }

  top_up-Logged : (s : Server) (w : World) → IsSteady s → Logged (Quiet s) (top_up o s) w
  unfolding top_up
  top_up-Logged s w h = by_room (leb_int (sub_int s.current_client_max s.current_client_count) 0)
    where
      by_room :
          (b : Bool) → Logged (Quiet s) (if b then prepare_socket o client_increase s else pure s) w
      by_room true = prepare_socket-Logged s w h
      by_room false =
          pure-Logged (Quiet s) s w h
            ((λ j c found. Effect-quiet j c c [] s.clients found refl refl refl refl), refl, refl)

  -- The client is connected, and asks for its first read.
  joined-Effect :
      (id : ℕ) (c d : Client) (cs : Clients) (j : ℕ)
      → lookup id cs ≡ some c
      → c.id ≡ id
      → lookup j cs ≡ some d
      → Effect j d []
          (id == j)
          (if id == j then 1 else 0)
          (wsa_recv (receiving c.id) ∷ [])
          (assign id (record c { is_connect = true; receive_context = receiving c.id }) cs)
  joined-Effect id c d cs j known named found = elim (Bool-cases (id == j)) [
    | inl here ↦
        let e = ==→eq id j here in
        let same : c ≡ d = some-injective (sym known ∙ ap (λ i. lookup i cs) e ∙ found) in
        let own : (c.id == j) ≡ true = ap (λ i. i == j) named ∙ here in
        rw here (record {
          client = record c { is_connect = true; receive_context = receiving c.id };
          found = lookup-assign_at id j _ cs e;
          all_bytes = ap (λ a. a.receive_buffer) same ∙ sym (append-nil d.receive_buffer);
          connected = sym (or_true d.is_connect);
          reads = rw own;
        })
    | inr there ↦
        let own : (c.id == j) ≡ false = ap (λ i. i == j) named ∙ there in
        rw there (
          Effect-assign_ne j id d (record c { is_connect = true; receive_context = receiving c.id })
            (wsa_recv (receiving c.id) ∷ []) cs (==-false→ne id j there) found refl (rw own))
  ]
    where
      or_true : (b : Bool) → (b || true) ≡ true
      or_true true = refl
      or_true false = refl

  accept_found-Logged :
      (x : Item) (c : Client) (s : Server) (w : World)
      → IsSteady s
      → lookup x.0 s.clients ≡ some c
      → Logged (CallOf accepts x s) (accept_found o x.0 c s) w
  unfolding accept_found feedback_accept receive_ready emit
  accept_found-Logged x c s w h known =
      let id = x.0 in
      let (i, named) = found-All IsAtRest id c s.clients h.at_rest known in
      let c' : Client = record c { is_connect = true; receive_context = receiving c.id } in
      let first = wsa_recv (receiving c.id) ∷ [] in
      let s1 : Server = record s {
        clients = assign id c' s.clients;
        current_client_count = add_int s.current_client_count 1;
      } in
      let rest = top_up-Logged s1 (log w first) (record {
        at_rest =
            assign-All IsAtRest id c' s.clients h.at_rest
              (record { valid = i.valid; none_waits = i.none_waits; kept = i.kept }, named);
        issued =
            assign-All (IsBelow s.accumulated_client_id) id c' s.clients h.issued
              (found-All (IsBelow s.accumulated_client_id) id c s.clients h.issued known);
        in_range = h.in_range;
      }) in
      record {
        state = rest.state;
        news = first ++ rest.news;
        runs = rest.runs ∙ ap (λ v. some (rest.state, v)) (log-log w first rest.news);
        steady = rest.steady;
        does = (
          (λ j d found.
              let joined = joined-Effect id c d s.clients j known named found in
              Effect-then j d [] (id == j) (if id == j then 1 else 0) first rest.news s1.clients
                rest.state.clients joined (rest.does.0 j joined.client joined.found)),
          omega (arith, recv_count-append first rest.news, rest.does.1),
          omega (arith, send_count-append first rest.news, rest.does.2),
        );
      }

  pub accept-Logged :
      (p : Packet) (bytes : List ℕ) (s : Server) (w : World)
      → IsSteady s
      → Logged (CallOf accepts (p.client_id, bytes) s) (accept o p s) w
  unfolding accept client_finder
  accept-Logged p bytes s w h = elim (Option-cases (lookup p.client_id s.clients)) [
    | inl unknown ↦
        rw (unknown, accept)
          (pure-Logged (CallOf accepts (p.client_id, bytes) s) s w h
            (EffectOf-unknown accepts (p.client_id, bytes) s unknown, omega arith, refl))
    | inr (c, known) ↦ rw (known, accept) (accept_found-Logged (p.client_id, bytes) c s w h known)
  ]
