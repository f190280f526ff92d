-- ===== src/Iocp/Storing.antt =====
-- A push into one packet queue of IOCompletionPort.h, against the bounded list of the clients and
-- bytes that its packets hold.
use iocp_server.Base.{
  ℕ, zero, suc, ◌+◌, ◌<◌, ◌≡◌, refl, sym, ap, ap₂, subst, ◌∙◌, arith, inl, inr, Bool, true, false,
  List, [], ◌∷◌, map, map-append, some, length, length-map, get_or, set, get_or-set_self,
  get_or-set_ne, ◌==◌, Bool-cases, ==→eq, ==-false→ne,
}
use iocp_server.Memory.{World, ◌>>=◌}
use iocp_server.Packet.{Packet, default_packet, assign}
use iocp_server.Queue
use iocp_server.Queue.{CircleQueue, next_index, max_queue_size}
use iocp_server.Queue.Bounds.{IsValid, held, push-IsValid}
use iocp_server.Queue.Fifo.{put}
use iocp_server.Queue.Refine.{around, contents, around-set_outside, push_refines}
use iocp_server.Iocp.PacketQueue.{push_packet}
use iocp_server.Iocp.Slots.{Owner, Sound, Loose, shows, Clean, Keeps, Keeps-refl, Keeps-trans}
use iocp_server.Iocp.Filling.{release_lem, fill_lem}

abbrev pub slot_of : CircleQueue Packet → ℕ → Packet
slot_of q i = get_or q.buffer i default_packet

-- A queue whose slot `i` owns its block under the number `base + i`.
pub record IsStore (base : ℕ) (owner : Owner) (w : World) (q : CircleQueue Packet) : Type 0 where
  pub valid : IsValid q
  pub sound : (i : ℕ) → i < max_queue_size → Sound owner w (base + i) (slot_of q i)

-- The clients and bytes of the packets in the queue, oldest first.
abbrev pub view : World → CircleQueue Packet → List (ℕ × List ℕ)
view w q = map (shows w) (contents default_packet q)

around-shows :
    (w w' : World) (buffer : List Packet) (o n : ℕ)
    → ((i : ℕ)
        → i < max_queue_size
        → shows w' (get_or buffer i default_packet) ≡ shows w (get_or buffer i default_packet))
    → o < max_queue_size
    → map (shows w') (around default_packet buffer o n)
      ≡ map (shows w) (around default_packet buffer o n)
around-shows w w' buffer o zero h l = refl
around-shows w w' buffer o (suc n) h l =
    ap₂ ◌∷◌ (h o l) (around-shows w w' buffer (next_index o) n h (omega arith))

-- A step that keeps each packet of a queue keeps the queue and what it holds.
pub kept-IsStore :
    {base : ℕ} {o o' : Owner} {w w' : World} {q : CircleQueue Packet}
    → ((i : ℕ) (p : Packet)
        → i < max_queue_size
        → Sound o w (base + i) p
        → Sound o' w' (base + i) p × (shows w' p ≡ shows w p))
    → IsStore base o w q
    → IsStore base o' w' q × (view w' q ≡ view w q)
kept-IsStore {w = w} {w' = w'} {q = q} k s =
    let kept = λ (i : ℕ) (l : i < max_queue_size). k i (slot_of q i) l (s.sound i l) in
    (
      record { valid = s.valid; sound = λ i l. (kept i l).0 },
      around-shows w w' q.buffer q.output_index (held q.input_index q.output_index)
          (λ i l. (kept i l).1) s.valid.output_in,
    )

put-map :
    {A B : Type 0} (f : A → B) (xs : List A) (x : A) → map f (put xs x).1 ≡ (put (map f xs) (f x)).1
unfolding put
put-map f xs x = elim (Bool-cases (length xs == 99)) [
  | inl full ↦ rw (length-map f xs, full) refl
  | inr free ↦ rw (length-map f xs, free) (map-append f xs (x ∷ []))
]

-- What a push of a loose packet does.
pub record Stores (base : ℕ) (owner : Owner) (w : World) (q : CircleQueue Packet) (p : Packet)
    : Type 0 where
  pub owner' : Owner
  pub world : World
  pub pushed : Bool × CircleQueue Packet
  pub runs : push_packet p q w ≡ some (pushed, world)
  pub keeps : Keeps (base + q.input_index) owner owner' w world
  pub store : IsStore base owner' world pushed.1
  pub seen : view world pushed.1 ≡ (put (view w q) (shows w p)).1

slots-push :
    (base : ℕ) (o o' : Owner) (w w' : World) (q : CircleQueue Packet) (x : Packet)
    → IsStore base o w q
    → Keeps (base + q.input_index) o o' w w'
    → Sound o' w' (base + q.input_index) x
    → (i : ℕ) → i < max_queue_size
    → Sound o' w' (base + i) (get_or (set q.buffer q.input_index x) i default_packet)
slots-push base o o' w w' q x s k new i l = elim (Bool-cases (q.input_index == i)) [
  | inl here ↦
      let e = ==→eq q.input_index i here in
      subst (λ j. Sound o' w' (base + j) (get_or (set q.buffer q.input_index x) j default_packet)) e
        (subst (Sound o' w' (base + q.input_index))
          (sym (
            get_or-set_self q.buffer q.input_index x default_packet
              (omega (arith, s.valid.slots, s.valid.input_in))))
          new)
  | inr there ↦
      let ne = ==-false→ne q.input_index i there in
      subst (Sound o' w' (base + i))
        (sym (get_or-set_ne q.buffer q.input_index i x default_packet ne))
        (k.others (base + i) (slot_of q i) (omega arith) (s.sound i l)).0
]

-- What the queue held is as before, since it does not reach the slot behind its last item.
contents-kept :
    (base : ℕ) (o o' : Owner) (w w' : World) (q : CircleQueue Packet)
    → IsStore base o w q
    → Keeps (base + q.input_index) o o' w w'
    → view w' q ≡ view w q
contents-kept base o o' w w' q s k =
    let i = q.input_index in
    let n = held i q.output_index in
    let cleared = set q.buffer i default_packet in
    let outside : around default_packet cleared q.output_index n ≡ contents default_packet q =
      around-set_outside default_packet q.buffer default_packet q.output_index n i s.valid.output_in
        s.valid.input_in refl in
    ap (map (shows w')) (sym outside)
    ∙ around-shows w w' cleared q.output_index n same s.valid.output_in
    ∙ ap (map (shows w)) outside
  where
    same :
        (j : ℕ)
        → j < max_queue_size
        → let p = get_or (set q.buffer q.input_index default_packet) j default_packet in
          shows w' p ≡ shows w p
    same j l = elim (Bool-cases (q.input_index == j)) [
      | inl here ↦
          let e : get_or (set q.buffer q.input_index default_packet) j default_packet
              ≡ default_packet =
            subst
              (λ m.
                get_or (set q.buffer q.input_index default_packet) m default_packet
                ≡ default_packet)
              (==→eq q.input_index j here)
              (get_or-set_self q.buffer q.input_index default_packet default_packet
                (omega (arith, s.valid.slots, s.valid.input_in))) in
          rw e refl
      | inr there ↦
          let ne = ==-false→ne q.input_index j there in
          rw (get_or-set_ne q.buffer q.input_index j default_packet default_packet ne)
            (k.others (base + j) (slot_of q j) (omega arith) (s.sound j l)).1
    ]

-- The packet has been copied into the slot of a queue with room.
stored :
    (base : ℕ) (o o' : Owner) (w w' : World) (q : CircleQueue Packet) (p x : Packet)
    → IsStore base o w q
    → (next_index q.input_index == q.output_index) ≡ false
    → assign false (slot_of q q.input_index) p w ≡ some (x, w')
    → Keeps (base + q.input_index) o o' w w'
    → Sound o' w' (base + q.input_index) x
    → shows w' x ≡ shows w p
    → Stores base o w q p
unfolding push_packet Queue.push
stored base o o' w w' q p x s free runs k new shown = record {
  owner' = o';
  world = w';
  pushed = (
    true,
    record q { buffer = set q.buffer q.input_index x; input_index = next_index q.input_index },
  );
  runs = rw free (rw (runs, ◌>>=◌) refl);
  keeps = k;
  store = record {
    valid = rw free at (push-IsValid x s.valid);
    sound = slots-push base o o' w w' q x s k new;
  };
  seen =
      let refines = rw free at (push_refines default_packet x s.valid) in
      ap (λ r. map (shows w') r.1) refines
      ∙ put-map (shows w') (contents default_packet q) x
      ∙ (λ i. (put (contents-kept base o o' w w' q s k i) (shown i)).1);
}

-- A push of a packet that is in no slot, into a queue that is sound, always returns. It does to the
-- list of clients and bytes what `put` does, and leaves all other slots and loose packets alone.
pub push_Stores :
    (base : ℕ) (o : Owner) (w : World) (q : CircleQueue Packet) (p : Packet)
    → Clean o w
    → IsStore base o w q
    → Loose o w p
    → Stores base o w q p
unfolding push_packet Queue.push assign
push_Stores base o w q p c s l = elim (Bool-cases (next_index q.input_index == q.output_index)) [
  | inl full ↦ record {
    owner' = o;
    world = w;
    pushed = (false, q);
    runs = rw full refl;
    keeps = Keeps-refl (base + q.input_index) o w c;
    store = s;
    seen =
        let refines = rw full at (push_refines default_packet p s.valid) in
        ap (λ r. map (shows w) r.1) refines ∙ put-map (shows w) (contents default_packet q) p;
  }
  | inr free ↦
      let key = base + q.input_index in
      let slot = slot_of q q.input_index in
      let (o1, w1, gone, k1) =
        release_lem key o w slot c (s.sound q.input_index s.valid.input_in) in
      let (l1, shown1) = k1.loose p l in
      let (o2, w2, buffer, filled, k2, new, shown) = fill_lem key o1 w1 p k1.clean l1 in
      stored base o o2 w w2 q p (record p { buffer = buffer }) s free
        (rw (gone, ◌>>=◌) (rw (filled, ◌>>=◌) refl)) (Keeps-trans k1 k2) new (shown ∙ shown1)
]
