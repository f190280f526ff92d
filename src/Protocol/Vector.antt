-- ===== src/Protocol/Vector.antt =====
-- `VerifyMessageContentVector` of IocpServer_1/MESSAGE_WRAPPER_generated.h, against the checks of the
-- elements one after the other.
use iocp_server.Base.{
  ℕ, ◌+◌, ◌≡◌, refl, sym, subst, ◌∙◌, arith, Bool, true, false, Option, none, some, List, [], ◌∷◌,
  ◌++◌, append_assoc, ◌==◌, length, get_or, lt→ltb, ==→eq, length-append, if◌then◌else◌,
}
use iocp_server.Protocol.Flatbuffers.{Reader, ◌and_then◌}
use iocp_server.Protocol.Wrapper

module _ {V : Type 0} (r : Reader V) where
  -- The checks of the elements, in order, as long as each passes.
  abbrev pub verify_all : List (Option ℕ) → List ℕ → V → Bool × V
  verify_all [] types v = (true, v)
  verify_all (x ∷ xs) [] v = (true, v)
  verify_all (x ∷ xs) (t ∷ ts) v =
      (Wrapper.verify_message_content r x t and_then verify_all xs ts) v

  get_or-append : {A : Type 0} (xs ys : List A) (y d : A) → get_or (xs ++ y ∷ ys) (length xs) d ≡ y
  get_or-append [] ys y d = refl
  get_or-append (x ∷ xs) ys y d = get_or-append xs ys y d

  verify_from_lem :
      (xs vs : List (Option ℕ)) (us ts : List ℕ) (v : V)
      → length us ≡ length xs
      → length vs ≡ length ts
      → Wrapper.verify_from r (xs ++ vs) (us ++ ts) (length vs) (length xs) v ≡ verify_all vs ts v
  unfolding Wrapper.verify_from
  verify_from_lem xs [] us ts v e f = refl
  verify_from_lem xs (x ∷ vs) us [] v e f = absurd (omega (arith, f))
  verify_from_lem xs (x ∷ vs) us (t ∷ ts) v e f =
      let here : get_or (us ++ t ∷ ts) (length xs) 0 ≡ t =
        subst (λ n. get_or (us ++ t ∷ ts) n 0 ≡ t) e (get_or-append us ts t 0) in
      let next : length (xs ++ x ∷ []) ≡ length xs + 1 = length-append xs (x ∷ []) in
      let moved : length (us ++ t ∷ []) ≡ length (xs ++ x ∷ []) =
        omega (arith, length-append us (t ∷ []), next, e) in
      let left : length vs ≡ length ts = omega (arith, f) in
      let rest : (v' : V)
          → Wrapper.verify_from r (xs ++ x ∷ vs) (us ++ t ∷ ts) (length vs) (length xs + 1) v'
            ≡ verify_all vs ts v' =
        λ v'.
          sym (λ i.
            Wrapper.verify_from r (append_assoc xs (x ∷ []) vs i) (append_assoc us (t ∷ []) ts i)
              (length vs) (next i) v')
          ∙ verify_from_lem (xs ++ x ∷ []) vs (us ++ t ∷ []) ts v' moved left in
      rw
        (
          lt→ltb (length xs) (length (xs ++ x ∷ vs)) (omega (arith, length-append xs (x ∷ vs))),
          get_or-append xs vs x none,
          here,
        )
        (λ i. (Wrapper.verify_message_content r x t and_then (λ v'. rest v' i)) v)

  -- Two vectors are accepted exactly if they have the same length and every element passes as the
  -- table that its code names; the checks run in order and stop at the first that fails.
  pub verify_vector_lem :
      (vs : List (Option ℕ)) (ts : List ℕ) (v : V)
      → Wrapper.verify_message_content_vector r (some vs) (some ts) v
        ≡ (if length vs == length ts then verify_all vs ts v else (false, v))
  unfolding Wrapper.verify_message_content_vector
  verify_vector_lem vs ts v = by_cases (length vs == length ts) (==→eq (length vs) (length ts))
    where
      by_cases :
          (c : Bool)
          → (c ≡ true → length vs ≡ length ts)
          → (if c then Wrapper.verify_from r vs ts (length vs) 0 v else (false, v))
            ≡ (if c then verify_all vs ts v else (false, v))
      by_cases true e = verify_from_lem [] vs [] ts v refl (e refl)
      by_cases false e = refl
