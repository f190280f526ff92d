-- ===== src/Iocp/Delivery.antt =====
-- The packet that a round of the loop in IOCompletionPort.h makes, pushes into one of the four queues
-- and destroys.
use iocp_server.Base.{
  true, ℕ, ◌+◌, ◌*◌, ◌<◌, ◌≡◌, ◌≢◌, refl, ◌∙◌, arith, inl, inr, Bool, false, List, none, some,
  if◌then◌else◌, ◌==◌, Bool-cases, ==→eq, ==-false→ne, subst,
}
use iocp_server.Overlapped.{Address, block}
use iocp_server.Memory.{World, M, pure, ◌>>=◌, ◌>>◌}
use iocp_server.Packet.{Packet, destroy}
use iocp_server.Queue.{CircleQueue, max_queue_size}
use iocp_server.Queue.Fifo.{put}
use iocp_server.Iocp.PacketQueue.{push_packet}
use iocp_server.Iocp.{Queues}
use iocp_server.Iocp.Slots.{Owner, Sound, Loose, shows, Clean, Keeps-block, Sound-same}
use iocp_server.Iocp.Destroying.{destroy-Loose}
use iocp_server.Iocp.Storing.{IsStore, view, kept-IsStore, push_Stores}

pub data Which : Type 0 where
  accepts sends receives disconnects : Which

abbrev pub number : Which → ℕ
number accepts = 0
number sends = 1
number receives = 2
number disconnects = 3

-- The number of the first slot of a queue.
abbrev pub base_of : Which → ℕ
base_of k = number k * 100

abbrev pub queue_of : Which → Queues → CircleQueue Packet
queue_of accepts qs = qs.accept_queue
queue_of sends qs = qs.send_queue
queue_of receives qs = qs.receive_queue
queue_of disconnects qs = qs.disconnect_queue

abbrev pub with_queue : Which → CircleQueue Packet → Queues → Queues
with_queue accepts q qs = record qs { accept_queue = q }
with_queue sends q qs = record qs { send_queue = q }
with_queue receives q qs = record qs { receive_queue = q }
with_queue disconnects q qs = record qs { disconnect_queue = q }

abbrev pub same : Which → Which → Bool
same k j = number k == number j

-- The four queues share the heap, and no two slots share a block.
pub record AreStores (owner : Owner) (w : World) (qs : Queues) : Type 0 where
  pub clean : Clean owner w
  pub stores : (k : Which) → IsStore (base_of k) owner w (queue_of k qs)

-- A step that leaves the blocks of slots alone keeps the queues and what they hold.
pub AreStores-same :
    {owner : Owner} (w w' : World) {qs : Queues}
    → ((b k : ℕ) → owner b ≡ some k → w'.blocks b ≡ w.blocks b)
    → Clean owner w'
    → AreStores owner w qs
    → AreStores owner w' qs × ((j : Which) → view w' (queue_of j qs) ≡ view w (queue_of j qs))
AreStores-same {owner = owner} w w' {qs = qs} same c s =
    let kept : (j : Which)
        → IsStore (base_of j) owner w' (queue_of j qs)
          × (view w' (queue_of j qs) ≡ view w (queue_of j qs)) =
      λ j.
        kept-IsStore (λ i p l sound. Sound-same w w' same (base_of j + i) p sound) (s.stores j) in
    (record { clean = c; stores = λ j. (kept j).0 }, λ j. (kept j).1)

number-injective : (k j : Which) → number k ≡ number j → k ≡ j
number-injective k j h = ground arith

queue-with_self :
    (k : Which) (q : CircleQueue Packet) (qs : Queues) → queue_of k (with_queue k q qs) ≡ q
queue-with_self accepts q qs = refl
queue-with_self sends q qs = refl
queue-with_self receives q qs = refl
queue-with_self disconnects q qs = refl

queue-with_ne :
    (k j : Which) (q : CircleQueue Packet) (qs : Queues)
    → same k j ≡ false
    → queue_of j (with_queue k q qs) ≡ queue_of j qs
queue-with_ne k j q qs h = ground arith

pub same→eq : (k j : Which) → same k j ≡ true → k ≡ j
same→eq k j h = number-injective k j (==→eq (number k) (number j) h)

-- A step of one queue that keeps the slots of all.
pub AreStores-with :
    (k : Which) (q : CircleQueue Packet) (owner : Owner) (w w' : World) (qs : Queues)
    → AreStores owner w qs
    → ((i : ℕ) (p : Packet) → Sound owner w i p → Sound owner w' i p × (shows w' p ≡ shows w p))
    → Clean owner w'
    → IsStore (base_of k) owner w' q
    → AreStores owner w' (with_queue k q qs)
      × ((j : Which)
          → view w' (queue_of j (with_queue k q qs))
            ≡ (if same k j then view w' q else view w (queue_of j qs)))
AreStores-with k q owner w w' qs s kept c store =
    let each : (j : Which)
        → IsStore (base_of j) owner w' (queue_of j (with_queue k q qs))
          × (view w' (queue_of j (with_queue k q qs))
              ≡ (if same k j then view w' q else view w (queue_of j qs))) =
      λ j. elim (Bool-cases (same k j)) [
        | inl here ↦ rw here (
            subst
              (λ i.
                IsStore (base_of i) owner w' (queue_of i (with_queue k q qs))
                × (view w' (queue_of i (with_queue k q qs)) ≡ view w' q))
              (same→eq k j here) (rw (queue-with_self k q qs) (store, refl)))
        | inr there ↦
            rw (there, queue-with_ne k j q qs there)
              (kept-IsStore (λ i p l sound. kept (base_of j + i) p sound) (s.stores j))
      ] in
    (record { clean = c; stores = λ j. (each j).0 }, λ j. (each j).1)

-- A round's packet: `push` into the queue, and the destructor.
unfoldable pub push_to : Which → Packet → Queues → M Queues
push_to k p qs = do (pushed, q) ← push_packet p (queue_of k qs); destroy p; pure (with_queue k q qs)

-- What a delivery of `x` to the queue `k` does: that queue takes it if it has room, and the other
-- three hold what they held.
pub record Delivered (k : Which) (x : ℕ × List ℕ) (owner : Owner) (w : World) (qs : Queues)
    (run : M Queues) (spent : Address) : Type 0 where
  pub owner' : Owner
  pub world : World
  pub queues : Queues
  pub runs : run w ≡ some (queues, world)
  pub stores : AreStores owner' world queues
  pub seen :
      (j : Which)
      → view world (queue_of j queues)
        ≡ (if same k j then (put (view w (queue_of j qs)) x).1 else view w (queue_of j qs))
  pub blocks :
      (a : ℕ) (bytes : List ℕ)
      → spent ≢ block a
      → owner a ≡ none
      → w.blocks a ≡ some bytes
      → (world.blocks a ≡ some bytes) × (owner' a ≡ none)
  pub received : world.received ≡ w.received
  pub events : world.events ≡ w.events

pub push_to-Delivered :
    (k : Which) (p : Packet) (owner : Owner) (w : World) (qs : Queues)
    → AreStores owner w qs
    → Loose owner w p
    → Delivered k (shows w p) owner w qs (push_to k p qs) p.buffer
unfolding push_to destroy
push_to-Delivered k p owner w qs s l =
    let q = queue_of k qs in
    let base = base_of k in
    let mine = s.stores k in
    let st = push_Stores base owner w q p s.clean mine l in
    let gone = destroy-Loose st.owner' st.world p st.keeps.clean (st.keeps.loose p l).0 in
    let queues = with_queue k st.pushed.1 qs in
    let pushed : IsStore base st.owner' gone.world st.pushed.1
        × (view gone.world st.pushed.1 ≡ view st.world st.pushed.1) =
      kept-IsStore (λ i x h sound. gone.slots (base + i) x sound) st.store in
    let others : (j : Which)
        → number k ≢ number j
        → (i : ℕ) (x : Packet) → i < max_queue_size
        → Sound owner w (base_of j + i) x
        → Sound st.owner' gone.world (base_of j + i) x × (shows gone.world x ≡ shows w x) =
      λ j ne i x h sound.
        let first = st.keeps.others (base_of j + i) x (omega (arith, mine.valid.input_in)) sound in
        let last = gone.slots (base_of j + i) x first.0 in (last.0, last.1 ∙ first.1) in
    let each : (j : Which)
        → IsStore (base_of j) st.owner' gone.world (queue_of j queues)
          × (view gone.world (queue_of j queues) ≡ (
              if same k j
              then (put (view w (queue_of j qs)) (shows w p)).1
              else view w (queue_of j qs))) =
      λ j. elim (Bool-cases (same k j)) [
        | inl here ↦ rw here (
            subst
              (λ i.
                IsStore (base_of i) st.owner' gone.world (queue_of i queues)
                × (view gone.world (queue_of i queues)
                    ≡ (put (view w (queue_of i qs)) (shows w p)).1))
              (number-injective k j (==→eq (number k) (number j) here))
              (rw (queue-with_self k st.pushed.1 qs) (pushed.0, pushed.1 ∙ st.seen)))
        | inr there ↦
            rw (there, queue-with_ne k j st.pushed.1 qs there)
              (kept-IsStore (others j (==-false→ne (number k) (number j) there)) (s.stores j))
      ] in
    record {
      owner' = st.owner';
      world = gone.world;
      queues = queues;
      runs = rw (st.runs, ◌>>=◌) (rw (gone.runs, ◌>>=◌) refl);
      stores = record { clean = gone.clean; stores = λ j. (each j).0 };
      seen = λ j. (each j).1;
      blocks = λ a bytes far free holds.
          let after = Keeps-block a bytes st.keeps free holds in
          (gone.blocks a far ∙ after.0, after.1);
      received = gone.received ∙ st.keeps.received;
      events = gone.events ∙ st.keeps.events;
    }
