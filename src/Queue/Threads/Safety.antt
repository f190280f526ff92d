-- ===== src/Queue/Threads/Safety.antt =====
-- What a producer and a worker can rely on, whatever the schedule.
use iocp_server.Base.{
  ℕ, ◌≤◌, ◌≡◌, sym, ap, ◌∙◌, ◌≢◌, List, [], ◌∷◌, ◌++◌, arith, length, append_assoc, append-nil,
}
use iocp_server.Queue.{CircleQueue}
use iocp_server.Queue.Bounds.{IsValid}
use iocp_server.Queue.Refine.{contents, length-contents, contents_some}
use iocp_server.Queue.Threads.{
  Producer, has_room, Worker, polling, saw_input, not_empty, in_front, called, pop_output,
  pop_ready, pop_moved, stopped, Turn, start, run,
}
use iocp_server.Queue.Threads.Invariant.{Inv, start-Inv, run-Inv}
use iocp_server.Queue.Threads.Fitting.{oldest, advance, ProducerFits, WorkerFits}

-- The slot that the producer is about to write.
abbrev pub WritesSlot {ℓ} : {A : Type ℓ} → Producer A → ℕ → Type 0
WritesSlot (has_room x i) k = i ≡ k
WritesSlot p k = ⊥

-- The slot that the worker is about to read.
abbrev pub ReadsSlot {ℓ} : {A : Type ℓ} → Worker A → ℕ → Type 0
ReadsSlot (in_front o) k = o ≡ k
ReadsSlot (pop_ready x o) k = o ≡ k
ReadsSlot w k = ⊥

module _ {ℓ} {A : Type ℓ} (fresh : A) where
  reached : (ts : List (Turn A)) → Inv fresh (run fresh ts (start fresh))
  reached ts = run-Inv fresh ts (start fresh) (start-Inv fresh)

  -- What the worker has delivered beyond what it has popped, and what is still to be delivered.
  record Split (q : CircleQueue A) (ds ps : List A) : Type ℓ where
    held_back : List A
    later : List A
    ahead : ds ≡ ps ++ held_back
    total : ps ++ contents fresh q ≡ ds ++ later
    one : length held_back ≤ 1
    bounded : length later ≤ 99

  bounded_contents : (q : CircleQueue A) → length (contents fresh q) ≤ 99
  bounded_contents q = omega (arith, length-contents fresh q)

  Split-before : (q : CircleQueue A) (ds ps : List A) → ds ≡ ps → Split q ds ps
  Split-before q ds ps e = record {
    held_back = [];
    later = contents fresh q;
    ahead = e ∙ sym (append-nil ps);
    total = ap (λ l. l ++ contents fresh q) (sym e);
    one = omega arith;
    bounded = bounded_contents q;
  }

  Split-after :
      (q : CircleQueue A) (ds ps : List A) (x : A)
      → IsValid q
      → ds ≡ ps ++ x ∷ []
      → x ≡ oldest fresh q
      → q.input_index ≢ q.output_index
      → Split q ds ps
  Split-after q ds ps x v e o n = record {
    held_back = x ∷ [];
    later = contents fresh (advance fresh q q.output_index);
    ahead = e;
    total =
        ap (λ l. ps ++ l) (contents_some fresh v n)
        ∙ sym (append_assoc ps (oldest fresh q ∷ []) _)
        ∙ ap (λ l. l ++ contents fresh (advance fresh q q.output_index))
            (ap (λ z. ps ++ z ∷ []) (sym o) ∙ sym e);
    one = omega arith;
    bounded = bounded_contents (advance fresh q q.output_index);
  }

  Split-at :
      (w : Worker A) (q : CircleQueue A) (ds ps : List A)
      → IsValid q
      → WorkerFits fresh w q ds ps
      → Split q ds ps
  Split-at polling q ds ps v f = Split-before q ds ps f
  Split-at (saw_input i) q ds ps v f = Split-before q ds ps f.0
  Split-at not_empty q ds ps v f = Split-before q ds ps f.0
  Split-at (in_front o) q ds ps v f = Split-before q ds ps f.0
  Split-at (called x) q ds ps v f = Split-after q ds ps x v f.0 f.1 f.2
  Split-at (pop_output x o) q ds ps v f = Split-after q ds ps x v f.0 f.1 f.3
  Split-at (pop_ready x o) q ds ps v f = Split-after q ds ps x v f.0 f.1 f.3
  Split-at (pop_moved x o y) q ds ps v f = Split-after q ds ps x v f.0 f.1 f.3
  Split-at stopped q ds ps v f = Split-before q ds ps f

  -- After any schedule from the empty queue, the items handed to the callback are the published
  -- items in order, up to at most 99 that are still to come; and those that `pop` has taken out are
  -- the delivered ones, up to at most one, so that `pop` takes out what the callback was given.
  pub delivered_in_order :
      (ts : List (Turn A))
      → let s = run fresh ts (start fresh) in
        ((later : List A) × (s.published ≡ s.delivered ++ later) × (length later ≤ 99))
        × ((held_back : List A) × (s.delivered ≡ s.popped ++ held_back) × (length held_back ≤ 1))
  delivered_in_order ts =
      let s = run fresh ts (start fresh) in
      let v = reached ts in
      let p = Split-at s.worker s.shared s.delivered s.popped v.valid v.worker_fits in
      ((p.later, v.in_order ∙ p.total, p.bounded), (p.held_back, p.ahead, p.one))

  apart :
      (p : Producer A) (w : Worker A) (q : CircleQueue A) (ds ps : List A) (k : ℕ)
      → ProducerFits fresh p q
      → WorkerFits fresh w q ds ps
      → WritesSlot p k
      → ¬ ReadsSlot w k
  apart (has_room x i) (in_front o) q ds ps k f g a b = omega (arith, f.0, g.1, g.2)
  apart (has_room x i) (pop_ready y o) q ds ps k f g a b = omega (arith, f.0, g.2, g.3)
  apart (has_room x i) _ q ds ps k f g a b = absurd b
  apart _ w q ds ps k f g a b = absurd a

  -- In no reachable state the producer is about to write the slot that the worker is about to read.
  pub no_race :
      (ts : List (Turn A)) (k : ℕ)
      → WritesSlot (run fresh ts (start fresh)).producer k
      → ¬ ReadsSlot (run fresh ts (start fresh)).worker k
  no_race ts k =
      let s = run fresh ts (start fresh) in
      let v = reached ts in
      apart s.producer s.worker s.shared s.delivered s.popped k v.producer_fits v.worker_fits
