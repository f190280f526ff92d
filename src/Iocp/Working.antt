-- ===== src/Iocp/Working.antt =====
-- A worker's round of IOCompletionPort.h: the call of the handler, and the copies around it.
use iocp_server.Base.{ℕ, ◌+◌, ◌≤◌, ◌≡◌, sym, ap, ◌∙◌, List, ◌∷◌, some, ==-false→ne, ne→==}
use iocp_server.Memory.{World, M, ◌>>=◌}
use iocp_server.Packet.{Packet}
use iocp_server.Queue
use iocp_server.Queue.{CircleQueue, next_index, max_queue_size}
use iocp_server.Iocp.PacketQueue.{front_packet}
use iocp_server.Iocp.{worker_round, call_front}
use iocp_server.Iocp.Slots.{Owner, Loose, shows, Clean, Sound-same}
use iocp_server.Iocp.Storing.{IsStore, view, slot_of}
use iocp_server.Iocp.Copies.{Same, Same-trans, copy_slot}
use iocp_server.Iocp.Settling.{oldest, settle_lem, popped, popped-IsStore, blocks-Clean, Loose-same}

-- A handler that returns, and leaves the blocks of the heap as they are.
pub record Handles {S : Type 0} (f : Packet → S → M S) (p : Packet) (s : S) (w : World)
    : Type 0 where
  pub state : S
  pub world : World
  pub runs : f p s w ≡ some (state, world)
  pub blocks : world.blocks ≡ w.blocks
  pub next : w.next ≤ world.next
  pub received : world.received ≡ w.received

-- A round with a handler `f`, for the oldest packet `x`.
pub record Worked {S : Type 0} (f : Packet → S → M S) (base : ℕ) (owner : Owner) (w : World)
    (q : CircleQueue Packet) (s : S) (x : ℕ × List ℕ) (rest : List (ℕ × List ℕ)) : Type 0 where
  pub packet : Packet
  pub before : World
  pub shown : shows before packet ≡ x
  pub loose : Loose owner before packet
  pub earlier : before.events ≡ w.events
  pub handled : Handles f packet s before
  pub world : World
  pub queue : CircleQueue Packet
  pub runs : worker_round (some f) q s w ≡ some ((queue, handled.state), world)
  pub store : IsStore base owner world queue
  pub seen : view world queue ≡ rest
  pub same : Same owner w world
  pub clean : Clean owner world
  pub received : world.received ≡ w.received
  pub events : world.events ≡ handled.world.events

-- A worker whose handler returns for the oldest packet's client and bytes, and leaves the heap's blocks
-- alone: the round hands it a packet with them, takes that packet out of the queue, and leaves
-- every slot of every queue as it was.
pub worker_round-Worked :
    {S : Type 0} (f : Packet → S → M S) (base : ℕ) (owner : Owner) (w : World)
    (q : CircleQueue Packet) (s : S) (x : ℕ × List ℕ) (rest : List (ℕ × List ℕ))
    → Clean owner w
    → IsStore base owner w q
    → view w q ≡ x ∷ rest
    → ((p : Packet) (v : World)
        → shows v p ≡ x
        → Loose owner v p
        → v.received ≡ w.received
        → v.events ≡ w.events
        → Handles f p s v)
    → Worked f base owner w q s x rest
unfolding worker_round call_front front_packet Queue.empty
worker_round-Worked f base owner w q s x rest c st e handles =
    let (held, shown, left) = oldest base owner w q x rest st e in
    let key = base + q.output_index in
    let slot = slot_of q q.output_index in
    let sound = st.sound q.output_index st.valid.output_in in
    let front = copy_slot key owner w slot c sound in
    let h =
      handles front.packet front.world (front.shown ∙ shown) front.loose front.received
        front.events in
    let to_h : Same owner w h.world =
      Same-trans w front.world h.world front.same
        (Sound-same front.world h.world (λ b k mine. ap (λ g. g b) h.blocks)) in
    let done =
      settle_lem key owner h.world front.packet q h.state
        (blocks-Clean owner front.world h.world h.blocks h.next front.clean)
        (Loose-same owner front.world h.world front.packet h.blocks front.loose)
        (to_h key slot sound).0
        (ne→== q.output_index q.input_index
          (λ same. ==-false→ne q.input_index q.output_index held (sym same))) in
    let all = Same-trans w h.world done.world to_h done.same in
    let kept = popped-IsStore base owner w done.world q all st in
    record {
      packet = front.packet;
      before = front.world;
      shown = front.shown ∙ shown;
      loose = front.loose;
      earlier = front.events;
      handled = h;
      world = done.world;
      queue = popped q;
      runs = rw held (rw (front.runs, ◌>>=◌) (rw (h.runs, ◌>>=◌) done.runs));
      store = kept.0;
      seen = kept.1 ∙ left;
      same = all;
      clean = done.clean;
      received = done.received ∙ h.received ∙ front.received;
      events = done.events;
    }
