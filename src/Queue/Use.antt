-- ===== src/Queue/Use.antt =====
-- What a caller of a circle queue uses: the effect of a call in terms of the contents alone.
use iocp_server.Base.{
  suc, ◌<◌, ◌≡◌, refl, sym, ap, ◌∙◌, ◌≢◌, true, false, List, [], ◌∷◌, ◌++◌, arith, length, ne→==,
  eq→==, length-append, Bool-cases, inl, inr, ==→eq, ==-false→ne, ◌==◌,
}
use iocp_server.Queue.{CircleQueue, init, push, pop, empty, front}
use iocp_server.Queue.Bounds.{IsValid}
use iocp_server.Queue.Fifo.{put, take_first, head_or, rest, room}
use iocp_server.Queue.Refine.{
  contents, push_refines, pop_refines, empty_refines, contents_some, length-contents,
}

module _ {ℓ} {A : Type ℓ} where
  pub put_full : (xs : List A) (x : A) → length xs ≡ room → (put xs x).1 ≡ xs
  unfolding put
  put_full xs x h = rw (eq→== (length xs) room h)

  pub put_room : (xs : List A) (x : A) → length xs ≢ room → (put xs x).1 ≡ xs ++ x ∷ []
  unfolding put
  put_room xs x h = rw (ne→== (length xs) room h)

  -- Only a list that was empty has one item behind a `put`.
  pub put_single : (xs : List A) (x : A) → length (put xs x).1 ≡ 1 → (put xs x).1 ≡ x ∷ []
  put_single [] x h = put_room [] x (omega arith)
  put_single (y ∷ ys) x h = elim (Bool-cases (length (y ∷ ys) == room)) [
    | inl full ↦
        let e = ==→eq (length (y ∷ ys)) room full in
        absurd (omega (arith, ap length (put_full (y ∷ ys) x e)))
    | inr left ↦
        let e = ==-false→ne (length (y ∷ ys)) room left in
        absurd (omega (arith, ap length (put_room (y ∷ ys) x e), length-append (y ∷ ys) (x ∷ [])))
  ]

module _ {ℓ} {A : Type ℓ} (fresh : A) where
  pub contents-init : contents fresh (init fresh) ≡ []
  unfolding init
  contents-init = refl

  -- A queue with room accepts an item behind those that it holds.
  pub push_with_room :
      {q : CircleQueue A} (x : A)
      → IsValid q
      → length (contents fresh q) < room
      → ((push q x).0 ≡ true) × (contents fresh (push q x).1 ≡ contents fresh q ++ x ∷ [])
  unfolding put
  push_with_room {q} x v h =
      let e =
        rw (ne→== (length (contents fresh q)) room (omega arith)) at (push_refines fresh x v) in
      (ap (λ p. p.0) e, ap (λ p. p.1) e)

  -- A full queue refuses an item, and is left as it was.
  pub push_when_full :
      {q : CircleQueue A} (x : A)
      → IsValid q
      → length (contents fresh q) ≡ room
      → push q x ≡ (false, q)
  unfolding push
  push_when_full {q} x v h = ground (arith, length-contents fresh q)

  pub front_cons :
      {q : CircleQueue A} (x : A) (xs : List A)
      → IsValid q
      → contents fresh q ≡ x ∷ xs
      → (front fresh q ≡ x)
        × (contents fresh (pop fresh q).1 ≡ xs)
        × ((pop fresh q).0 ≡ x)
        × (empty q ≡ false)
  unfolding take_first front
  front_cons {q} x xs v e =
      let p = pop_refines fresh v in
      let ne : q.input_index ≢ q.output_index =
        omega (arith, ap length e, length-contents fresh q) in
      (
        ap (head_or fresh) (sym (contents_some fresh v ne) ∙ e),
        ap (λ t. t.1) p ∙ ap rest e,
        ap (λ t. t.0) p ∙ ap (head_or fresh) e,
        empty_refines fresh v ∙ ap (λ l. length l == 0) e ∙ ne→== (suc (length xs)) 0 (omega arith),
      )

  pub empty_nil : {q : CircleQueue A} → IsValid q → contents fresh q ≡ [] → empty q ≡ true
  empty_nil v e = empty_refines fresh v ∙ ap (λ l. length l == 0) e

  pub empty_cons :
      {q : CircleQueue A} (x : A) (xs : List A)
      → IsValid q
      → contents fresh q ≡ x ∷ xs
      → empty q ≡ false
  empty_cons x xs v e = (front_cons x xs v e).3
