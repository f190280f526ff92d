-- ===== src/Server/Accepting.antt =====
-- `TryAccept` for one client and for the whole table, and `PrepareSocket`.
use iocp_server.Base.{
  some-injective, ℕ, zero, suc, ◌+◌, ◌^◌, ◌<◌, ◌≡◌, refl, sym, ap, ap₂, ◌∙◌, Bool, List, [], ◌∷◌,
  ◌++◌, some, arith, length, ◌==◌, if◌then◌else◌, Bool-cases, ==→eq, inl, inr, append-nil,
  append_assoc, length-append, subst, add_int, not, ◌&&◌,
}
use iocp_server.Overlapped.{CustomOverlapped}
use iocp_server.Memory.{World, Event, accept_ex, ◌>>=◌, emit}
use iocp_server.Client.{Client, create, try_accept, accepting}
use iocp_server.Client.Handling.{log, log-log}
use iocp_server.Server.{
  Server, Outside, add_clients, try_accept_all, prepare_socket, prepare_rounds, rounds_of,
}
use iocp_server.Server.Table.{Clients, IsNumbered, lookup, assign_new, IsNumbered-append}

-- A client asks for a connection if it is not connected and its socket reports no error.
abbrev pub asks : ℕ → Client → Bool
asks error c = not c.is_connect && (error == 0)

abbrev pub tried : ℕ → Client → Client
tried error c = if asks error c then record c { accept_context = accepting c.id } else c

abbrev pub accept_events : ℕ → Client → List Event
accept_events error c = if asks error c then accept_ex (accepting c.id) ∷ [] else []

-- `TryAccept` always returns: it answers whether it has posted `AcceptEx`, with a context that names
-- the client, and changes nothing but that context.
pub try_accept_lem :
    (error : ℕ) (c : Client) (w : World)
    → try_accept error c w ≡ some ((asks error c, tried error c), log w (accept_events error c))
unfolding try_accept emit
try_accept_lem error c w = elim (Bool-cases c.is_connect) [
  | inl on ↦ rw (on, append-nil)
  | inr off ↦ elim (Bool-cases (error == 0)) [
    | inl fine ↦ rw (off, fine)
    | inr bad ↦ rw (off, bad, append-nil)
  ]
]

create-id : (unset : CustomOverlapped) (id : ℕ) → (create unset id).id ≡ id
unfolding create
create-id unset id = refl

rounds_lem : (id count : ℕ) → id + count < 2 ^ 31 → rounds_of id count ≡ count
rounds_lem id count h = ground arith

module _ (o : Outside) where
  abbrev pub tried_all : Clients → Clients
  tried_all [] = []
  tried_all ((id, c) ∷ cs) = (id, tried (o.socket_error id) c) ∷ tried_all cs

  abbrev pub all_events : Clients → List Event
  all_events [] = []
  all_events ((id, c) ∷ cs) = accept_events (o.socket_error id) c ++ all_events cs

  pub try_accept_all_lem :
      (cs : Clients) (w : World)
      → try_accept_all o cs w ≡ some (tried_all cs, log w (all_events cs))
  unfolding try_accept_all
  try_accept_all_lem [] w = ap (λ l. some ([], record w { events = l })) (sym (append-nil w.events))
  try_accept_all_lem ((id, c) ∷ cs) w =
      let e = o.socket_error id in
      rw (try_accept_lem e c w, ◌>>=◌)
        (rw (try_accept_all_lem cs (log w (accept_events e c)), ◌>>=◌)
          (ap (λ v. some (tried_all ((id, c) ∷ cs), v))
            (log-log w (accept_events e c) (all_events cs))))

  tried-id : (error : ℕ) (c : Client) → (tried error c).id ≡ c.id
  tried-id error c = elim (Bool-cases (asks error c)) [ inl h ↦ rw h | inr h ↦ rw h ]

  pub tried_all-IsNumbered : (k : ℕ) (cs : Clients) → IsNumbered k cs → IsNumbered k (tried_all cs)
  tried_all-IsNumbered k [] n = tt
  tried_all-IsNumbered k ((j, c) ∷ cs) n =
      (n.0, tried-id (o.socket_error j) c ∙ n.1, tried_all-IsNumbered (suc k) cs n.2)

  pub length-tried_all : (cs : Clients) → length (tried_all cs) ≡ length cs
  length-tried_all [] = refl
  length-tried_all ((j, c) ∷ cs) = ap suc (length-tried_all cs)

  -- The new clients that the loop appends.
  abbrev pub new_clients : ℕ → ℕ → Clients
  new_clients zero id = []
  new_clients (suc rounds) id = (id, create o.unset id) ∷ new_clients rounds (id + 1)

  pub add_clients_lem :
      (rounds id : ℕ) (cs : Clients)
      → IsNumbered 0 cs
      → id ≡ length cs
      → id + rounds < 2 ^ 31
      → (add_clients o rounds id cs ≡ cs ++ new_clients rounds id)
        × IsNumbered 0 (cs ++ new_clients rounds id)
        × (length (cs ++ new_clients rounds id) ≡ id + rounds)
  unfolding add_clients
  add_clients_lem zero id cs n e h = (
    sym (append-nil cs),
    subst (IsNumbered 0) (sym (append-nil cs)) n,
    ap length (append-nil cs) ∙ omega arith,
  )
  add_clients_lem (suc rounds) id cs n e h =
      let c = create o.unset id in
      let ys = new_clients rounds (id + 1) in
      let cs' = cs ++ (id, c) ∷ [] in
      let joined = append_assoc cs ((id, c) ∷ []) ys in
      let wraps : add_int id 1 ≡ id + 1 = omega arith in
      let later =
        add_clients_lem rounds (id + 1) cs'
          (IsNumbered-append 0 id c cs n (omega arith) (create-id o.unset id))
          (omega (arith, length-append cs ((id, c) ∷ []))) (omega arith) in
      (
        rw (assign_new 0 id c cs n (omega arith), wraps) (later.0 ∙ joined),
        subst (IsNumbered 0) joined later.1,
        ap length (sym joined) ∙ later.2 ∙ omega arith,
      )

  -- `PrepareSocket` on a table that is numbered without gaps, while identifiers stay below 2 ^ 31: the
  -- table grows by `count` clients with the next identifiers, and every client of the table, old or
  -- new, tries to accept.
  pub prepare_socket_lem :
      (count : ℕ) (s : Server) (w : World)
      → IsNumbered 0 s.clients
      → s.accumulated_client_id ≡ length s.clients
      → s.accumulated_client_id + count < 2 ^ 31
      → let cs = s.clients ++ new_clients count s.accumulated_client_id in
        prepare_socket o count s w
        ≡ some (
          record {
            clients = tried_all cs;
            accumulated_client_id = s.accumulated_client_id + count;
            current_client_count = s.current_client_count;
            current_client_max = add_int s.current_client_max count;
          },
          log w (all_events cs),
        )
  unfolding prepare_socket prepare_rounds
  prepare_socket_lem count s w n e h =
      let id = s.accumulated_client_id in
      let cs = s.clients ++ new_clients count id in
      let total : add_int id count ≡ id + count = omega arith in
      ap (λ r. prepare_rounds o r count s w) (rounds_lem id count h)
      ∙ rw ((add_clients_lem count id s.clients n e h).0, try_accept_all_lem cs w, ◌>>=◌)
          (ap
            (λ k. some (
              record {
                clients = tried_all cs;
                accumulated_client_id = k;
                current_client_count = s.current_client_count;
                current_client_max = add_int s.current_client_max count;
              },
              log w (all_events cs),
            ))
            total)

  -- Trying to accept changes no client but for its context.
  pub lookup-tried_all :
      (i : ℕ) (d : Client) (cs : Clients)
      → lookup i cs ≡ some d
      → lookup i (tried_all cs) ≡ some (tried (o.socket_error i) d)
  unfolding lookup
  lookup-tried_all i d [] e = cc
  lookup-tried_all i d ((j, b) ∷ cs) e = elim (Bool-cases (j == i)) [
    | inl here ↦
        let found : some b ≡ some d = rw here at e in
        rw here
          (ap₂ (λ k c. some (tried (o.socket_error k) c)) (==→eq j i here) (some-injective found))
    | inr there ↦ rw there (lookup-tried_all i d cs (rw there at e))
  ]
