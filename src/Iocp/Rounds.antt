-- ===== src/Iocp/Rounds.antt =====
-- A round of `IOCompletionPort::Process` against its routing.
use iocp_server.Base.{
  ℕ, ◌≡◌, ◌≢◌, refl, sym, ap, ◌∙◌, arith, inl, inr, Bool, true, false, List, [], Option, none, some,
  length, length-take, replicate, take, if◌then◌else◌, Bool-cases,
}
use iocp_server.Overlapped.{
  Address, CustomOverlapped, OperationType, null, block, receive_buf, accept_buf, op_default,
  op_accept, op_recv, op_send,
}
use iocp_server.Memory.{World, M, pure, ◌>>=◌, delete_chars, new_chars}
use iocp_server.Memory.Laws.{update_self, update_ne, read_chars_block, read_chars_received}
use iocp_server.Packet.{Packet, default_packet, set_id, set_data}
use iocp_server.Packet.Laws.{with_block, with_block-IsTidy, copy_memory_lem, owned_ne_next, le_self}
use iocp_server.Queue.Fifo.{put}
use iocp_server.Iocp.{
  Queues, Completion, process_round, complete, dispatch, push_accept, push_disconnect, push_receive,
  push_send,
}
use iocp_server.Iocp.Slots.{Owner, or_empty, Loose, Clean, some_ne_none}
use iocp_server.Iocp.Delivery.{
  Which, accepts, sends, receives, disconnects, same, AreStores, AreStores-same, push_to,
  push_to-Delivered,
}
use iocp_server.Iocp.Routes.{
  lost, is_disconnect-lost, content, Holds, HoldsOp, IsReady, route_op, route, Lists, deliver,
  views, goes, Ready,
}

-- What a run of the loop does, given where its completions go.
pub record Routed (r : Lists → Lists) (owner : Owner) (w : World) (qs : Queues) (run : M Queues)
    : Type 0 where
  pub owner' : Owner
  pub world : World
  pub queues : Queues
  pub runs : run w ≡ some (queues, world)
  pub stores : AreStores owner' world queues
  pub seen : (j : Which) → views world queues j ≡ r (views w qs) j
  pub blocks :
      (a : ℕ) (bytes : List ℕ)
      → owner a ≡ none
      → w.blocks a ≡ some bytes
      → (world.blocks a ≡ some bytes) × (owner' a ≡ none)
  pub received : world.received ≡ w.received
  pub events : world.events ≡ w.events

pub nothing-Routed :
    (owner : Owner) (w : World) (qs : Queues)
    → AreStores owner w qs
    → Routed (deliver none) owner w qs (pure qs)
nothing-Routed owner w qs s = record {
  owner' = owner;
  world = w;
  queues = qs;
  runs = refl;
  stores = s;
  seen = λ j. refl;
  blocks = λ a bytes free holds. (holds, free);
  received = refl;
  events = refl;
}

null≢block : {a : ℕ} → ◌≢◌ {A = Address} null (block a)
null≢block e = cc

bare-Routed :
    (k : Which) (id : ℕ) (owner : Owner) (w : World) (qs : Queues)
    → AreStores owner w qs
    → Routed (deliver (some (k, (id, [])))) owner w qs (push_to k (set_id default_packet id) qs)
unfolding set_id
bare-Routed k id owner w qs s =
    let d = push_to-Delivered k (set_id default_packet id) owner w qs s (inl refl) in
    record {
      owner' = d.owner';
      world = d.world;
      queues = d.queues;
      runs = d.runs;
      stores = d.stores;
      seen = d.seen;
      blocks = λ a bytes free holds. d.blocks a bytes null≢block free holds;
      received = d.received;
      events = d.events;
    }

-- A new block leaves the queues as they are.
alloc-AreStores :
    (owner : Owner) (w : World) (qs : Queues) (bytes : List ℕ)
    → AreStores owner w qs
    → AreStores owner (with_block w bytes) qs
      × ((j : Which) → views (with_block w bytes) qs j ≡ views w qs j)
alloc-AreStores owner w qs bytes s =
    AreStores-same w (with_block w bytes)
      (λ b k mine.
        update_ne w.blocks w.next b (some bytes) (λ e.
          some_ne_none (sym mine ∙ ap owner (sym e) ∙ s.clean.unowned w.next (le_self w.next))))
      (record {
        tidy = with_block-IsTidy w bytes s.clean.tidy;
        unowned = λ b h. s.clean.unowned b (omega arith);
      })
      s

set_data-Holds :
    (id n : ℕ) (from : Address) (owner : Owner) (w : World)
    → Clean owner w
    → Holds owner w from n
    → set_data default_packet id from n w
        ≡ some (
          record { client_id = id; buffer = block w.next; data_size = n },
          with_block w (take n (content w from)),
        )
      × (length (take n (content w from)) ≡ n)
unfolding set_data delete_chars new_chars
set_data-Holds id n (receive_buf source) owner w c (array, at, l) =
    let r = read_chars_received (with_block w (replicate n 0)) source n array at l in
    let long = length-take n array l in
    (
      rw (at, copy_memory_lem w (receive_buf source) n (take n array) r long, ◌>>=◌) refl,
      rw at long,
    )
set_data-Holds id n (block a) owner w c (bytes, free, at, l) =
    let still : (with_block w (replicate n 0)).blocks a ≡ some bytes =
      update_ne w.blocks w.next a (some (replicate n 0)) (owned_ne_next w a bytes c.tidy at) ∙ at in
    let r = read_chars_block (with_block w (replicate n 0)) a n bytes still l in
    let long = length-take n bytes l in
    (rw (at, copy_memory_lem w (block a) n (take n bytes) r long, ◌>>=◌) refl, rw at long)
set_data-Holds id n null owner w c h = absurd h
set_data-Holds id n (accept_buf source) owner w c h = absurd h

-- A packet with bytes: `Set`, and then the push.
filled-Routed :
    (k : Which) (id n : ℕ) (from : Address) (owner : Owner) (w : World) (qs : Queues)
    → AreStores owner w qs
    → Holds owner w from n
    → Routed
        (deliver (some (k, (id, take n (content w from)))))
        owner
        w
        qs
        (do packet ← set_data default_packet id from n; push_to k packet qs)
filled-Routed k id n from owner w qs s h =
    let bytes = take n (content w from) in
    let filled = set_data-Holds id n from owner w s.clean h in
    let p : Packet = record { client_id = id; buffer = block w.next; data_size = n } in
    let w1 = with_block w bytes in
    let s1 = alloc-AreStores owner w qs bytes s in
    let new = update_self w.blocks w.next (some bytes) in
    let loose : Loose owner w1 p =
      inr (w.next, bytes, refl, new, filled.1, s.clean.unowned w.next (le_self w.next)) in
    let d = push_to-Delivered k p owner w1 qs s1.0 loose in
    record {
      owner' = d.owner';
      world = d.world;
      queues = d.queues;
      runs = rw (filled.0, ◌>>=◌) d.runs;
      stores = d.stores;
      seen = λ j.
          d.seen j
          ∙ (λ i. if same k j then (put (s1.1 j i) (id, or_empty (new i))).1 else s1.1 j i);
      blocks = λ a xs free holds.
          let far = owned_ne_next w a xs s.clean.tidy holds in
          d.blocks a xs (λ e. far (cc)) free (update_ne w.blocks w.next a (some bytes) far ∙ holds);
      received = d.received;
      events = d.events;
    }

dispatch-Routed :
    (type : OperationType) (t : CustomOverlapped) (n : ℕ) (owner : Owner) (w : World) (qs : Queues)
    → AreStores owner w qs
    → HoldsOp owner w type t n
    → Routed (deliver (route_op w type t n)) owner w qs (dispatch type t n qs)
unfolding dispatch push_accept push_receive push_send push_to
dispatch-Routed op_default t n owner w qs s h = nothing-Routed owner w qs s
dispatch-Routed op_accept t n owner w qs s h = bare-Routed accepts t.id owner w qs s
dispatch-Routed op_recv t n owner w qs s h =
    filled-Routed receives t.id n t.wsabuf.buf owner w qs s h
dispatch-Routed op_send t n owner w qs s h = filled-Routed sends t.id n t.wsabuf.buf owner w qs s h

complete-Routed :
    (result : Bool) (n : ℕ) (t : CustomOverlapped) (owner : Owner) (w : World) (qs : Queues)
    → AreStores owner w qs
    → IsReady owner w result n (some t)
    → Routed (deliver (route w result n (some t))) owner w qs (complete result n t qs)
unfolding complete push_disconnect push_to
complete-Routed true n t owner w qs s h = elim (Bool-cases (lost n t.operation_type)) [
  | inl gone ↦ rw (is_disconnect-lost n t, gone) (bare-Routed disconnects t.id owner w qs s)
  | inr live ↦
      rw (is_disconnect-lost n t, live)
        (dispatch-Routed t.operation_type t n owner w qs s (rw live at h))
]
complete-Routed false n t owner w qs s h = elim (Bool-cases (lost n t.operation_type)) [
  | inl gone ↦ rw (is_disconnect-lost n t, gone) (bare-Routed disconnects t.id owner w qs s)
  | inr live ↦ rw (is_disconnect-lost n t, live) (nothing-Routed owner w qs s)
]

-- A round of the loop always returns, and does to the four lists what the routing says.
pub process_round-Routed :
    (c : Completion) (owner : Owner) (w : World) (qs : Queues)
    → AreStores owner w qs
    → Ready owner w c
    → Routed (goes w c) owner w qs (process_round c qs)
unfolding process_round
process_round-Routed c owner w qs s h = by_context c.custom_overlapped h
  where
    by_context :
        (o : Option CustomOverlapped)
        → IsReady owner w c.result c.bytes_transferred o
        → Routed
            (deliver (route w c.result c.bytes_transferred o))
            owner
            w
            qs
            (elim o [ none ↦ pure qs | some t ↦ complete c.result c.bytes_transferred t qs ])
    by_context none h = nothing-Routed owner w qs s
    by_context (some t) h = complete-Routed c.result c.bytes_transferred t owner w qs s h
