-- ===== src/Iocp/Process.antt =====
-- The loop of `IOCompletionPort::Process` against its routing.
use iocp_server.Base.{
  ℕ, ◌≡◌, refl, sym, ap, ◌∙◌, inl, inr, Bool, true, false, List, [], ◌∷◌, Option, none, some, take,
  if◌then◌else◌, Bool-cases,
}
use iocp_server.Overlapped.{
  Address, CustomOverlapped, OperationType, null, block, receive_buf, accept_buf, op_default,
  op_accept, op_recv, op_send,
}
use iocp_server.Memory.{World, ◌>>=◌}
use iocp_server.Queue.Fifo.{put}
use iocp_server.Iocp.{Queues, Completion, process}
use iocp_server.Iocp.Slots.{Owner, or_empty}
use iocp_server.Iocp.Delivery.{Which, sends, receives, same, AreStores}
use iocp_server.Iocp.Routes.{
  lost, content, Holds, HoldsOp, IsReady, Item, route_op, route, Lists, deliver, views, goes,
  goes_all, AllReady,
}
use iocp_server.Iocp.Rounds.{Routed, nothing-Routed, process_round-Routed}

-- What a run leaves for the completions behind it.
pub record Leaves (owner owner' : Owner) (w w' : World) : Type 0 where
  pub blocks :
      (a : ℕ) (bytes : List ℕ)
      → owner a ≡ none
      → w.blocks a ≡ some bytes
      → (w'.blocks a ≡ some bytes) × (owner' a ≡ none)
  pub received : w'.received ≡ w.received

Holds-kept :
    {owner owner' : Owner} (w w' : World) (from : Address) (n : ℕ)
    → Leaves owner owner' w w'
    → Holds owner w from n
    → Holds owner' w' from n × (content w' from ≡ content w from)
Holds-kept w w' (receive_buf id) n k (array, at, l) =
    let same = ap (λ f. f id) k.received in ((array, same ∙ at, l), ap or_empty same)
Holds-kept w w' (block a) n k (bytes, free, at, l) =
    let after = k.blocks a bytes free at in
    ((bytes, after.1, after.0, l), ap or_empty (after.0 ∙ sym at))
Holds-kept w w' null n k h = absurd h
Holds-kept w w' (accept_buf id) n k h = absurd h

HoldsOp-kept :
    {owner owner' : Owner} (w w' : World) (type : OperationType) (t : CustomOverlapped) (n : ℕ)
    → Leaves owner owner' w w'
    → HoldsOp owner w type t n
    → HoldsOp owner' w' type t n × (route_op w' type t n ≡ route_op w type t n)
HoldsOp-kept w w' op_default t n k h = (tt, refl)
HoldsOp-kept w w' op_accept t n k h = (tt, refl)
HoldsOp-kept w w' op_recv t n k h =
    let (held, e) = Holds-kept w w' t.wsabuf.buf n k h in
    (held, ap (λ bs. some (receives, (t.id, take n bs))) e)
HoldsOp-kept w w' op_send t n k h =
    let (held, e) = Holds-kept w w' t.wsabuf.buf n k h in
    (held, ap (λ bs. some (sends, (t.id, take n bs))) e)

pub IsReady-kept :
    {owner owner' : Owner} (w w' : World) (result : Bool) (n : ℕ) (o : Option CustomOverlapped)
    → Leaves owner owner' w w'
    → IsReady owner w result n o
    → IsReady owner' w' result n o × (route w' result n o ≡ route w result n o)
IsReady-kept w w' result n none k h = (tt, refl)
IsReady-kept {owner = owner} {owner' = owner'} w w' result n (some t) k h =
    elim (Bool-cases (lost n t.operation_type)) [
      | inl gone ↦ rw gone (tt, refl)
      | inr live ↦ rw live (by_result result (rw live at h))
    ]
  where
    by_result :
        (b : Bool)
        → (if b then HoldsOp owner w t.operation_type t n else Unit {0})
        → (if b then HoldsOp owner' w' t.operation_type t n else Unit {0})
          × ((if b then route_op w' t.operation_type t n else none)
              ≡ (if b then route_op w t.operation_type t n else none))
    by_result true h = HoldsOp-kept w w' t.operation_type t n k h
    by_result false h = (tt, refl)

AllReady-kept :
    {owner owner' : Owner} (w w' : World) (cs : List Completion)
    → Leaves owner owner' w w'
    → AllReady owner w cs
    → AllReady owner' w' cs × ((ls : Lists) → goes_all w' cs ls ≡ goes_all w cs ls)
AllReady-kept w w' [] k h = (tt, λ ls. refl)
AllReady-kept w w' (c ∷ cs) k h =
    let (ready, e) = IsReady-kept w w' c.result c.bytes_transferred c.custom_overlapped k h.0 in
    let (later, es) = AllReady-kept w w' cs k h.1 in
    ((ready, later), λ ls. es (goes w' c ls) ∙ ap (λ r. goes_all w cs (deliver r ls)) e)

pub deliver-same :
    (r : Option (Which × Item)) (ls ms : Lists)
    → ((j : Which) → ls j ≡ ms j)
    → (j : Which) → deliver r ls j ≡ deliver r ms j
deliver-same none ls ms h j = h j
deliver-same (some (k, x)) ls ms h j = λ i. if same k j then (put (h j i) x).1 else h j i

goes_all-same :
    (w : World) (cs : List Completion) (ls ms : Lists)
    → ((j : Which) → ls j ≡ ms j)
    → (j : Which) → goes_all w cs ls j ≡ goes_all w cs ms j
goes_all-same w [] ls ms h j = h j
goes_all-same w (c ∷ cs) ls ms h j =
    goes_all-same w cs (goes w c ls) (goes w c ms)
      (deliver-same (route w c.result c.bytes_transferred c.custom_overlapped) ls ms h) j

-- The loop returns for every sequence of completions whose buffers hold what was transferred. Each of
-- the four queues then holds the items that the routing sends to it, in the order of the
-- completions, but for those that met a full queue; no two slots share a block, and no block of
-- anyone else was touched.
pub process-Routed :
    (cs : List Completion) (owner : Owner) (w : World) (qs : Queues)
    → AreStores owner w qs
    → AllReady owner w cs
    → Routed (goes_all w cs) owner w qs (process cs qs)
unfolding process
process-Routed [] owner w qs s h = nothing-Routed owner w qs s
process-Routed (c ∷ cs) owner w qs s h =
    let one = process_round-Routed c owner w qs s h.0 in
    let (ready, later) =
      AllReady-kept w one.world cs (record { blocks = one.blocks; received = one.received }) h.1 in
    let rest = process-Routed cs one.owner' one.world one.queues one.stores ready in
    record {
      owner' = rest.owner';
      world = rest.world;
      queues = rest.queues;
      runs = rw (one.runs, ◌>>=◌) rest.runs;
      stores = rest.stores;
      seen = λ j.
          rest.seen j
          ∙ ap (λ ls. ls j) (later (views one.world one.queues))
          ∙ goes_all-same w cs (views one.world one.queues) (goes w c (views w qs)) one.seen j;
      blocks = λ a bytes free holds.
          let first = one.blocks a bytes free holds in rest.blocks a bytes first.1 first.0;
      received = rest.received ∙ one.received;
      events = rest.events ∙ one.events;
    }
