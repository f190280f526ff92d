-- ===== src/Queue/Refine.antt =====
-- The operations of a circle queue against the bounded first-in first-out list of its contents.
use iocp_server.Base.{
  ℕ, zero, suc, ◌+◌, ◌-◌, ◌%◌, ◌<◌, ◌≡◌, refl, sym, ap, ap₂, ◌∙◌, ◌≢◌, List, [], ◌∷◌, ◌++◌, arith,
  length, get_or, set, get_or-set_self, get_or-set_ne, ◌==◌, Bool-cases, ==→eq, ==-false→ne, inl,
  inr,
}
use iocp_server.Queue.{CircleQueue, push, pop, empty, size, clear, peek, next_index, max_queue_size}
use iocp_server.Queue.Bounds.{IsValid, held, size_lem}
use iocp_server.Queue.Fifo.{head?, put, take_first}

module _ {ℓ} {A : Type ℓ} (fresh : A) where
  -- The `n` items from slot `i` on, going round the buffer.
  abbrev pub around : List A → ℕ → ℕ → List A
  around buffer i zero = []
  around buffer i (suc n) = get_or buffer i fresh ∷ around buffer (next_index i) n

  abbrev pub contents : CircleQueue A → List A
  contents q = around q.buffer q.output_index (held q.input_index q.output_index)

  length-around : (buffer : List A) (i n : ℕ) → length (around buffer i n) ≡ n
  length-around buffer i zero = refl
  length-around buffer i (suc n) = ap suc (length-around buffer (next_index i) n)

  -- A slot that the walk does not reach may be overwritten.
  pub around-set_outside :
      (buffer : List A) (x : A) (i n j : ℕ)
      → i < max_queue_size
      → j < max_queue_size
      → held j i ≡ n
      → around (set buffer j x) i n ≡ around buffer i n
  around-set_outside buffer x i zero j hi hj e = refl
  around-set_outside buffer x i (suc n) j hi hj e =
      ap₂ ◌∷◌ (get_or-set_ne buffer j i x fresh (omega arith))
        (around-set_outside buffer x (next_index i) n j (omega arith) hj (omega arith))

  -- Writing the slot behind the walk makes it longer by that item.
  pub around-set :
      (buffer : List A) (x : A) (i n j : ℕ)
      → length buffer ≡ max_queue_size
      → i < max_queue_size
      → n < max_queue_size
      → j ≡ (i + n) % max_queue_size
      → around (set buffer j x) i (suc n) ≡ around buffer i n ++ x ∷ []
  around-set buffer x i zero j s hi hn e =
      let here : i ≡ j = omega arith in
      ap (λ a. a ∷ [])
        (ap (λ k. get_or (set buffer j x) k fresh) here
          ∙ get_or-set_self buffer j x fresh (omega arith))
  around-set buffer x i (suc n) j s hi hn e =
      ap₂ ◌∷◌ (get_or-set_ne buffer j i x fresh (omega arith))
        (around-set buffer x (next_index i) n j s (omega arith) (omega arith) (omega arith))

  pub length-contents :
      (q : CircleQueue A) → length (contents q) ≡ held q.input_index q.output_index
  length-contents q = length-around q.buffer q.output_index (held q.input_index q.output_index)

  -- `around` matches on `suc`, and the code tests the indices.
  around_of_pos :
      (buffer : List A) (i n : ℕ)
      → 0 < n
      → around buffer i n ≡ get_or buffer i fresh ∷ around buffer (next_index i) (n - 1)
  around_of_pos buffer i zero h = absurd (omega arith)
  around_of_pos buffer i (suc n) h = ap (λ k. around buffer i (suc k)) (omega arith)

  held_next :
      (i o : ℕ)
      → i < max_queue_size
      → o < max_queue_size
      → next_index i ≢ o
      → (held (next_index i) o ≡ suc (held i o)) × (i ≡ (o + held i o) % max_queue_size)
  held_next i o hi ho ne = omega arith

  pub push_refines :
      {q : CircleQueue A} (x : A)
      → IsValid q
      → let (ok, q') = push q x in (ok, contents q') ≡ put (contents q) x
  unfolding push put
  push_refines {q} x v = elim (Bool-cases (next_index q.input_index == q.output_index)) [
    | inl full ↦ ground (arith, length-contents q)
    | inr open_slot ↦ ground (
      arith,
      length-contents q,
      around-set q.buffer x q.output_index (held q.input_index q.output_index) q.input_index,
      held_next q.input_index q.output_index,
    )
  ]

  pub contents_none :
      {q : CircleQueue A} → IsValid q → q.input_index ≡ q.output_index → contents q ≡ []
  contents_none {q} v e =
      let none_held : held q.input_index q.output_index ≡ 0 = omega arith in
      ap (around q.buffer q.output_index) none_held

  pub contents_some :
      {q : CircleQueue A}
      → IsValid q
      → q.input_index ≢ q.output_index
      → contents q
        ≡ get_or q.buffer q.output_index fresh
          ∷ around q.buffer
              (next_index q.output_index)
              (held q.input_index (next_index q.output_index))
  contents_some {q} v ne =
      around_of_pos q.buffer q.output_index (held q.input_index q.output_index) (omega arith)
      ∙ ap
          (λ n.
            get_or q.buffer q.output_index fresh ∷ around q.buffer (next_index q.output_index) n)
          (omega arith)

  -- `pop` returns what the list's first item is, and leaves the rest.
  pub pop_refines :
      {q : CircleQueue A}
      → IsValid q
      → let (x, q') = pop fresh q in
        ◌≡◌ {A = A × List A} (x, contents q') (take_first fresh (contents q))
  unfolding pop take_first
  pop_refines {q} v = elim (Bool-cases (q.output_index == q.input_index)) [
    | inl same ↦
        let e = contents_none v (omega (arith, ==→eq q.output_index q.input_index same)) in
        rw (same, e) refl
    | inr apart ↦
        let e = contents_some v (omega (arith, ==-false→ne q.output_index q.input_index apart)) in
        rw apart (sym (ap (take_first fresh) e))
  ]

  pub empty_refines : {q : CircleQueue A} → IsValid q → empty q ≡ (length (contents q) == 0)
  unfolding empty
  empty_refines {q} v = ground (arith, length-contents q)

  pub size_refines : {q : CircleQueue A} → IsValid q → size q ≡ length (contents q)
  size_refines {q} v = (size_lem v).0 ∙ sym (length-contents q)

  pub peek_refines : {q : CircleQueue A} → IsValid q → peek fresh q ≡ head? (contents q)
  unfolding peek
  peek_refines {q} v = elim (Bool-cases (q.input_index == q.output_index)) [
    | inl same ↦ rw same (sym (ap head? (contents_none v (==→eq _ _ same))))
    | inr apart ↦ rw apart (sym (ap head? (contents_some v (==-false→ne _ _ apart))))
  ]

  pub clear_refines : (q : CircleQueue A) → contents (clear q) ≡ []
  unfolding clear
  clear_refines q = refl
