-- ===== src/Iocp/Settling.antt =====
-- The end of a worker's round: the two copies are destroyed, and the oldest packet is taken out.
use iocp_server.Base.{
  [], true, ℕ, ◌+◌, ◌≤◌, ◌≡◌, refl, sym, ap, ◌∙◌, arith, inl, inr, false, List, ◌∷◌, some, length,
  map, ◌==◌, Bool-cases, ==→eq, ==-false→ne,
}
use iocp_server.Memory.{World, M, pure, ◌>>=◌, ◌>>◌}
use iocp_server.Packet.{Packet, default_packet, destroy}
use iocp_server.Queue.{CircleQueue, next_index}
use iocp_server.Queue.Fifo.{head_or, rest as tail}
use iocp_server.Queue.Refine.{contents_none, contents_some}
use iocp_server.Iocp.PacketQueue.{pop_packet}
use iocp_server.Iocp.Slots.{Owner, Sound, Loose, shows, Clean}
use iocp_server.Iocp.Destroying.{destroy-Loose}
use iocp_server.Iocp.Storing.{IsStore, view, slot_of, kept-IsStore}
use iocp_server.Iocp.Copies.{Same, Same-trans, copy_slot}

pub Loose-same :
    (owner : Owner) (w w' : World) (p : Packet)
    → w'.blocks ≡ w.blocks
    → Loose owner w p
    → Loose owner w' p
Loose-same owner w w' p e (inl n) = inl n
Loose-same owner w w' p e (inr (b, bytes, at, holds, sized, free)) =
    inr (b, bytes, at, ap (λ f. f b) e ∙ holds, sized, free)

pub blocks-Clean :
    (owner : Owner) (w w' : World)
    → w'.blocks ≡ w.blocks
    → w.next ≤ w'.next
    → Clean owner w
    → Clean owner w'
blocks-Clean owner w w' e l c = record {
  tidy = λ a h. ap (λ f. f a) e ∙ c.tidy a (omega arith);
  unowned = λ a h. c.unowned a (omega arith);
}

-- The queue behind its oldest packet.
abbrev pub popped : CircleQueue Packet → CircleQueue Packet
popped q = record q { output_index = next_index q.output_index }

-- A queue that shows something has an oldest packet, which shows it.
pub oldest :
    (base : ℕ) (owner : Owner) (w : World) (q : CircleQueue Packet) (x : ℕ × List ℕ)
    (rest : List (ℕ × List ℕ))
    → IsStore base owner w q
    → view w q ≡ x ∷ rest
    → ((q.input_index == q.output_index) ≡ false)
      × (shows w (slot_of q q.output_index) ≡ x)
      × (view w (popped q) ≡ rest)
oldest base owner w q x rest s e = elim (Bool-cases (q.input_index == q.output_index)) [
  | inl none_held ↦
      let nothing =
        contents_none default_packet s.valid (==→eq q.input_index q.output_index none_held) in
      absurd (omega (arith, ap length (sym e ∙ ap (map (shows w)) nothing)))
  | inr held ↦
      let split =
        contents_some default_packet s.valid (==-false→ne q.input_index q.output_index held) in
      let both : shows w (slot_of q q.output_index) ∷ view w (popped q) ≡ x ∷ rest =
        sym (ap (map (shows w)) split) ∙ e in
      (held, ap (head_or x) both, ap tail both)
]

-- A queue that shows nothing is empty.
pub none_left :
    (base : ℕ) (owner : Owner) (w : World) (q : CircleQueue Packet)
    → IsStore base owner w q
    → view w q ≡ []
    → (q.input_index == q.output_index) ≡ true
none_left base owner w q s e = elim (Bool-cases (q.input_index == q.output_index)) [
  | inl nothing ↦ nothing
  | inr held ↦
      let split =
        contents_some default_packet s.valid (==-false→ne q.input_index q.output_index held) in
      absurd (omega (arith, ap length (sym (ap (map (shows w)) split) ∙ e)))
]

-- The round behind the handler's return.
abbrev pub settle : {S : Type 0} → Packet → CircleQueue Packet → S → M (CircleQueue Packet × S)
settle packet q s = do destroy packet; (dropped, q') ← pop_packet q; destroy dropped; pure (q', s)

pub record Settled {S : Type 0} (owner : Owner) (w : World) (packet : Packet)
    (q : CircleQueue Packet) (s : S) : Type 0 where
  pub world : World
  pub runs : settle packet q s w ≡ some ((popped q, s), world)
  pub clean : Clean owner world
  pub same : Same owner w world
  pub received : world.received ≡ w.received
  pub events : world.events ≡ w.events

pub settle_lem :
    {S : Type 0} (key : ℕ) (owner : Owner) (w : World) (packet : Packet) (q : CircleQueue Packet)
    (s : S)
    → Clean owner w
    → Loose owner w packet
    → Sound owner w key (slot_of q q.output_index)
    → (q.output_index == q.input_index) ≡ false
    → Settled owner w packet q s
unfolding pop_packet destroy
settle_lem key owner w packet q s c l sound held =
    let slot = slot_of q q.output_index in
    let gone = destroy-Loose owner w packet c l in
    let dropped = copy_slot key owner gone.world slot gone.clean (gone.slots key slot sound).0 in
    let last = destroy-Loose owner dropped.world dropped.packet dropped.clean dropped.loose in
    record {
      world = last.world;
      runs = rw (gone.runs, ◌>>=◌) (rw (held, dropped.runs, ◌>>=◌) (rw (last.runs, ◌>>=◌) refl));
      clean = last.clean;
      same =
          Same-trans w gone.world last.world gone.slots
            (Same-trans gone.world dropped.world last.world dropped.same last.slots);
      received = last.received ∙ dropped.received ∙ gone.received;
      events = last.events ∙ dropped.events ∙ gone.events;
    }

pub popped-IsStore :
    (base : ℕ) (owner : Owner) (w w' : World) (q : CircleQueue Packet)
    → Same owner w w'
    → IsStore base owner w q
    → IsStore base owner w' (popped q) × (view w' (popped q) ≡ view w (popped q))
popped-IsStore base owner w w' q same st =
    kept-IsStore {w = w} {w' = w'} {q = popped q} (λ i p l sound. same (base + i) p sound)
      (record {
        valid = record {
          slots = st.valid.slots;
          input_in = st.valid.input_in;
          output_in = omega arith;
        };
        sound = st.sound;
      })
