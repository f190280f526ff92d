-- ===== src/Queue/Threads/Progress.antt =====
-- A worker that is left to run while the producer rests.
use iocp_server.Base.{
  ℕ, zero, suc, ◌≡◌, refl, sym, ap, ◌∙◌, ◌≢◌, true, List, [], ◌∷◌, ◌++◌, arith, length, ne→==,
  append_assoc, append-nil, subst,
}
use iocp_server.Queue.Refine.{contents, contents_none, contents_some, length-contents}
use iocp_server.Queue.Threads.{
  polling, saw_input, not_empty, pop_output, pop_ready, System, Turn, works, step, run, work, start,
}
use iocp_server.Queue.Threads.Invariant.{Inv, start-Inv, run-Inv}
use iocp_server.Queue.Threads.Fitting.{oldest, advance}

-- `n` turns of the worker, with the server on and the callback set, before the turns `ts`.
abbrev pub turns {ℓ} : {A : Type ℓ} → ℕ → List (Turn A) → List (Turn A)
turns zero ts = ts
turns (suc n) ts = works true true ∷ turns n ts

-- The turns of `n` rounds of the loop that find an item.
abbrev pub rounds {ℓ} : {A : Type ℓ} → ℕ → List (Turn A)
rounds zero = []
rounds (suc n) = turns 8 (rounds n)

module _ {ℓ} {A : Type ℓ} (fresh : A) where
  -- The state after one round.
  abbrev round : System A → System A
  round s = record s {
    shared = advance fresh s.shared s.shared.output_index;
    worker = polling;
    delivered = s.delivered ++ oldest fresh s.shared ∷ [];
    popped = s.popped ++ oldest fresh s.shared ∷ [];
  }

  step_saw :
      (s : System A) (i : ℕ)
      → i ≢ s.shared.output_index
      → step fresh (works true true) (record s { worker = saw_input i })
        ≡ record s { worker = not_empty }
  unfolding step work
  step_saw s i h = rw (ne→== i s.shared.output_index h)

  step_pop :
      (s : System A) (x : A) (o : ℕ)
      → o ≢ s.shared.input_index
      → step fresh (works true true) (record s { worker = pop_output x o })
        ≡ record s { worker = pop_ready x o }
  unfolding step work
  step_pop s x o h = rw (ne→== o s.shared.input_index h)

  run_one_round :
      (s : System A) (ts : List (Turn A))
      → s.shared.input_index ≢ s.shared.output_index
      → run fresh (turns 8 ts) (record s { worker = polling }) ≡ run fresh ts (round s)
  unfolding run step work
  run_one_round s ts h =
      ap (run fresh (turns 6 ts)) (step_saw s s.shared.input_index h)
      ∙ ap (run fresh (turns 2 ts)) (
          step_pop (record s { delivered = s.delivered ++ oldest fresh s.shared ∷ [] })
            (oldest fresh s.shared) s.shared.output_index (λ e. h (sym e)))

  -- From `s` to `t` the worker has delivered and popped all that the queue held.
  abbrev pub Drained : System A → System A → Type ℓ
  Drained s t =
      (t.delivered ≡ s.delivered ++ contents fresh s.shared)
      × (t.popped ≡ s.popped ++ contents fresh s.shared)
      × (contents fresh t.shared ≡ [])

  Drained-round :
      (s t : System A)
      → contents fresh s.shared ≡ oldest fresh s.shared ∷ contents fresh (round s).shared
      → Drained (round s) t
      → Drained s t
  Drained-round s t e d = (
    d.0 ∙ append_assoc s.delivered _ _ ∙ ap (λ l. s.delivered ++ l) (sym e),
    d.1 ∙ append_assoc s.popped _ _ ∙ ap (λ l. s.popped ++ l) (sym e),
    d.2,
  )

  drain_from :
      (n : ℕ) (s : System A)
      → Inv fresh (record s { worker = polling })
      → length (contents fresh s.shared) ≡ n
      → Drained s (run fresh (rounds n) (record s { worker = polling }))
  unfolding run
  drain_from zero s v e =
      let none_left : contents fresh s.shared ≡ [] =
        contents_none fresh v.valid (omega (arith, length-contents fresh s.shared, v.valid)) in
      (
        sym (append-nil s.delivered) ∙ ap (λ l. s.delivered ++ l) (sym none_left),
        sym (append-nil s.popped) ∙ ap (λ l. s.popped ++ l) (sym none_left),
        none_left,
      )
  drain_from (suc n) s v e =
      let h : s.shared.input_index ≢ s.shared.output_index =
        omega (arith, length-contents fresh s.shared) in
      let next : Inv fresh (round s) =
        subst (Inv fresh) (run_one_round s [] h)
          (run-Inv fresh (turns 8 []) (record s { worker = polling }) v) in
      let split = contents_some fresh v.valid h in
      subst (Drained s) (sym (run_one_round s (rounds n) h)) (
        Drained-round s (run fresh (rounds n) (round s)) split
          (drain_from n (round s) next (omega (arith, ap length split))))

  -- From any reached state in which the worker polls, with `n` items in the queue, `8 * n` turns of
  -- the worker alone hand all of them to the callback in order, pop them, and empty the queue.
  pub worker_drains :
      (ts : List (Turn A))
      → (run fresh ts (start fresh)).worker ≡ polling
      → let s = run fresh ts (start fresh) in
        Drained s (run fresh (rounds (length (contents fresh s.shared))) s)
  worker_drains ts p =
      let s = run fresh ts (start fresh) in
      let e : ◌≡◌ {A = System A} s (record s { worker = polling }) =
        λ i. record s { worker = p i } in
      subst (λ t. Drained s (run fresh (rounds (length (contents fresh s.shared))) t)) (sym e)
        (drain_from (length (contents fresh s.shared)) s
          (subst (Inv fresh) e (run-Inv fresh ts (start fresh) (start-Inv fresh))) refl)
