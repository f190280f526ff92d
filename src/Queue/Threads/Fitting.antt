-- ===== src/Queue/Threads/Fitting.antt =====
-- What the registers of the two threads say of the queue that they share, and what a step of one
-- leaves of the facts of the other.
use iocp_server.Base.{
  ℕ, zero, suc, ◌+◌, ◌%◌, ◌<◌, ◌≡◌, sym, ap, ◌∙◌, ◌≢◌, List, [], ◌∷◌, ◌++◌, arith, get_or, set,
}
use iocp_server.Queue.{CircleQueue, next_index, max_queue_size}
use iocp_server.Queue.Bounds.{IsValid, held}
use iocp_server.Queue.Refine.{around, contents, around-set_outside}
use iocp_server.Queue.Threads.{
  Producer, outside, loaded, has_room, stored, Worker, polling, saw_input, not_empty, in_front,
  called, pop_output, pop_ready, pop_moved, stopped,
}

module _ {ℓ} {A : Type ℓ} (fresh : A) where
  -- The item that the worker is about to take.
  abbrev pub oldest : CircleQueue A → A
  oldest q = get_or q.buffer q.output_index fresh

  -- The producer's index is the shared one, and the room that it found is still there.
  abbrev pub ProducerFits : Producer A → CircleQueue A → Type ℓ
  ProducerFits outside q = Unit {ℓ}
  ProducerFits (loaded x i) q = (i ≡ q.input_index) × Unit {ℓ}
  ProducerFits (has_room x i) q = (i ≡ q.input_index) × (next_index i ≢ q.output_index) × Unit {ℓ}
  ProducerFits (stored x i) q =
      (i ≡ q.input_index) × (next_index i ≢ q.output_index) × (get_or q.buffer i fresh ≡ x)

  -- Between the callback's call and the end of `pop` one item is delivered and not yet popped.
  abbrev pub WorkerFits : Worker A → CircleQueue A → List A → List A → Type ℓ
  WorkerFits polling q ds ps = ds ≡ ps
  WorkerFits (saw_input i) q ds ps =
      (ds ≡ ps) × (i ≢ q.output_index → q.input_index ≢ q.output_index)
  WorkerFits not_empty q ds ps = (ds ≡ ps) × (q.input_index ≢ q.output_index)
  WorkerFits (in_front o) q ds ps =
      (ds ≡ ps) × (o ≡ q.output_index) × (q.input_index ≢ q.output_index)
  WorkerFits (called x) q ds ps =
      (ds ≡ ps ++ x ∷ []) × (x ≡ oldest q) × (q.input_index ≢ q.output_index)
  WorkerFits (pop_output x o) q ds ps =
      (ds ≡ ps ++ x ∷ []) × (x ≡ oldest q) × (o ≡ q.output_index) × (q.input_index ≢ q.output_index)
  WorkerFits (pop_ready x o) q ds ps =
      (ds ≡ ps ++ x ∷ []) × (x ≡ oldest q) × (o ≡ q.output_index) × (q.input_index ≢ q.output_index)
  WorkerFits (pop_moved x o y) q ds ps =
      (ds ≡ ps ++ x ∷ [])
      × (x ≡ oldest q)
      × (o ≡ q.output_index)
      × (q.input_index ≢ q.output_index)
      × (y ≡ oldest q)
  WorkerFits stopped q ds ps = ds ≡ ps

  -- The worker's facts survive a producer's step: the output index and the oldest item stay.
  pub WorkerFits-keep :
      (w : Worker A) (q r : CircleQueue A) (ds ps : List A)
      → r.output_index ≡ q.output_index
      → (q.input_index ≢ q.output_index → oldest r ≡ oldest q)
      → (q.input_index ≢ q.output_index → r.input_index ≢ r.output_index)
      → WorkerFits w q ds ps
      → WorkerFits w r ds ps
  WorkerFits-keep polling q r ds ps o g n f = f
  WorkerFits-keep (saw_input i) q r ds ps o g n f = (f.0, λ h. n (f.1 (λ e. h (e ∙ sym o))))
  WorkerFits-keep not_empty q r ds ps o g n f = (f.0, n f.1)
  WorkerFits-keep (in_front p) q r ds ps o g n f = (f.0, f.1 ∙ sym o, n f.2)
  WorkerFits-keep (called x) q r ds ps o g n f = (f.0, f.1 ∙ sym (g f.2), n f.2)
  WorkerFits-keep (pop_output x p) q r ds ps o g n f = (f.0, f.1 ∙ sym (g f.3), f.2 ∙ sym o, n f.3)
  WorkerFits-keep (pop_ready x p) q r ds ps o g n f = (f.0, f.1 ∙ sym (g f.3), f.2 ∙ sym o, n f.3)
  WorkerFits-keep (pop_moved x p y) q r ds ps o g n f =
      (f.0, f.1 ∙ sym (g f.3), f.2 ∙ sym o, n f.3, f.4 ∙ sym (g f.3))
  WorkerFits-keep stopped q r ds ps o g n f = f

  -- The producer's facts survive the end of a `pop`.
  pub ProducerFits-keep :
      (p : Producer A) (q : CircleQueue A)
      → IsValid q
      → q.input_index ≢ q.output_index
      → ProducerFits p q
      → ProducerFits p (record q { output_index = next_index q.output_index })
  ProducerFits-keep outside q v n f = tt
  ProducerFits-keep (loaded x i) q v n f = f
  ProducerFits-keep (has_room x i) q v n f = (f.0, omega (arith, f.0), tt)
  ProducerFits-keep (stored x i) q v n f = (f.0, omega (arith, f.0), f.2)

  -- Publishing a stored item appends it to the contents.
  around-snoc :
      (buffer : List A) (o n i : ℕ)
      → o < max_queue_size
      → i ≡ (o + n) % max_queue_size
      → around fresh buffer o (suc n) ≡ around fresh buffer o n ++ get_or buffer i fresh ∷ []
  around-snoc buffer o zero i h e =
      let here : o ≡ i = omega arith in ap (λ k. get_or buffer k fresh ∷ []) here
  around-snoc buffer o (suc n) i h e =
      ap (λ l. get_or buffer o fresh ∷ l)
        (around-snoc buffer (next_index o) n i (omega arith) (omega arith))

  pub contents-publish :
      (q : CircleQueue A) (i : ℕ)
      → IsValid q
      → i ≡ q.input_index
      → next_index i ≢ q.output_index
      → contents fresh (record q { input_index = next_index i })
        ≡ contents fresh q ++ get_or q.buffer i fresh ∷ []
  contents-publish q i v e n =
      let n' : held (next_index i) q.output_index ≡ suc (held q.input_index q.output_index) =
        omega arith in
      ap (around fresh q.buffer q.output_index) n'
      ∙ around-snoc q.buffer q.output_index (held q.input_index q.output_index) i v.output_in
          (omega arith)

  pub contents-store :
      (q : CircleQueue A) (i : ℕ) (x : A)
      → IsValid q
      → i ≡ q.input_index
      → contents fresh (record q { buffer = set q.buffer i x }) ≡ contents fresh q
  contents-store q i x v e =
      around-set_outside fresh q.buffer x q.output_index (held q.input_index q.output_index) i
        v.output_in (omega arith) (ap (λ k. held k q.output_index) e)

  -- What the store at the end of `pop` leaves.
  abbrev pub advance : CircleQueue A → ℕ → CircleQueue A
  advance q o = record q { output_index = next_index o }
