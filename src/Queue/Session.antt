-- ===== src/Queue/Session.antt =====
-- Whole sessions with a circle queue: any sequence of calls, and the walk of `print`.
use iocp_server.Base.{
  ℕ, zero, suc, ◌+◌, ◌%◌, ◌≤◌, ◌≡◌, refl, ap, ap₂, ◌∙◌, List, [], ◌∷◌, arith, get_or, add_int,
  lt→ltb, le→ltb-false,
}
use iocp_server.Queue.{
  CircleQueue, push, pop, empty, size, clear, peek, print, print_from, next_index, max_queue_size,
}
use iocp_server.Queue.Bounds.{IsValid, held, push-IsValid, pop-IsValid, clear-IsValid, size_lem}
use iocp_server.Queue.Fifo.{
  Call, pushes, pops, peeks, asks_empty, asks_size, clears, Reply, pushed, popped, peeked, tested,
  sized, cleared, answer, answers, take_first,
}
use iocp_server.Queue.Refine.{
  contents, around, push_refines, pop_refines, empty_refines, size_refines, peek_refines,
  clear_refines,
}

module _ {ℓ} {A : Type ℓ} (fresh : A) where
  pub operate : CircleQueue A → Call A → Reply A × CircleQueue A
  operate q (pushes x) = let (ok, q') = push q x in (pushed ok, q')
  operate q pops = let (x, q') = pop fresh q in (popped x, q')
  operate q peeks = (peeked (peek fresh q), q)
  operate q asks_empty = (tested (empty q), q)
  operate q asks_size = (sized (size q), q)
  operate q clears = (cleared, clear q)

  pub session : CircleQueue A → List (Call A) → List (Reply A)
  session q [] = []
  session q (c ∷ cs) = let (r, q') = operate q c in r ∷ session q' cs

  -- Every call on a valid queue leaves a valid queue.
  pub operate-IsValid : {q : CircleQueue A} (c : Call A) → IsValid q → IsValid (operate q c).1
  unfolding operate
  operate-IsValid (pushes x) v = push-IsValid x v
  operate-IsValid pops v = pop-IsValid fresh v
  operate-IsValid peeks v = v
  operate-IsValid asks_empty v = v
  operate-IsValid asks_size v = v
  operate-IsValid clears v = clear-IsValid v

  pub operate_refines :
      {q : CircleQueue A} (c : Call A)
      → IsValid q
      → let (r, q') = operate q c in
        ◌≡◌ {A = Reply A × List A} (r, contents fresh q') (answer fresh (contents fresh q) c)
  unfolding operate answer take_first
  operate_refines (pushes x) v = λ i. let p = push_refines fresh x v i in (pushed p.0, p.1)
  operate_refines pops v = λ i. let p = pop_refines fresh v i in (popped p.0, p.1)
  operate_refines {q} peeks v = λ i. (peeked (peek_refines fresh v i), contents fresh q)
  operate_refines {q} asks_empty v = λ i. (tested (empty_refines fresh v i), contents fresh q)
  operate_refines {q} asks_size v = λ i. (sized (size_refines fresh v i), contents fresh q)
  operate_refines {q} clears v = λ i. (cleared, clear_refines fresh q i)

  -- Any sequence of calls on a valid queue is answered as by a first-in-first-out list of at most 99
  -- items that starts with the queue's items.
  pub session_refines :
      (cs : List (Call A)) {q : CircleQueue A}
      → IsValid q
      → session q cs ≡ answers fresh (contents fresh q) cs
  unfolding session answers
  session_refines [] v = refl
  session_refines (c ∷ cs) {q} v = ap₂ ◌∷◌ (ap (λ p. p.0) (operate_refines c v)) (
      session_refines cs (operate-IsValid c v)
      ∙ ap (λ p. answers fresh p.1 cs) (operate_refines c v))

  -- From round `i` on, the loop of `print` writes the items behind the first `i`.
  print_from_lem :
      {q : CircleQueue A} (fuel i n o : ℕ)
      → IsValid q
      → i + n ≡ size q
      → n ≤ fuel
      → o ≡ (q.output_index + i) % max_queue_size
      → print_from fresh q fuel i ≡ around fresh q.buffer o n
  unfolding print_from
  print_from_lem {q} fuel i zero o v e f h = stop fuel
    where
      stop : (fuel : ℕ) → print_from fresh q fuel i ≡ []
      stop zero = refl
      stop (suc fuel) = rw (le→ltb-false i (size q) (omega arith))
  print_from_lem {q} zero i (suc n) o v e f h = absurd (omega arith)
  print_from_lem {q} (suc fuel) i (suc n) o v e f h =
      let here : add_int q.output_index i % max_queue_size ≡ o = omega (arith, size_lem v) in
      rw (lt→ltb i (size q) (omega arith)) (
        ap₂ ◌∷◌ (ap (λ k. get_or q.buffer k fresh) here) (
          print_from_lem fuel (i + 1) n (next_index o) v (omega arith) (omega arith)
            (omega (arith, size_lem v))))

  -- `print` writes exactly the items of the queue, oldest first, and its loop ends within
  -- `MAX_QUEUE_SIZE` rounds.
  pub print_lem : {q : CircleQueue A} → IsValid q → print fresh q ≡ contents fresh q
  unfolding print
  print_lem {q} v =
      print_from_lem max_queue_size 0 (held q.input_index q.output_index) q.output_index v
        (omega (arith, size_lem v)) (omega arith) (omega arith)
