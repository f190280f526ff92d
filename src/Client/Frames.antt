-- ===== src/Client/Frames.antt =====
-- The packets that a run of bytes is cut into: ten bytes each, while more than ten are left.
use iocp_server.Base.{
  ℕ, zero, suc, ◌*◌, ◌≤◌, ◌≡◌, refl, ap, ◌∙◌, List, [], ◌∷◌, ◌++◌, arith, length, take, drop, ltb,
  if◌then◌else◌, Bool-cases, inl, inr, take-append-drop, length-take, length-drop, append_assoc,
  ltb→lt, ltb-false→le,
}
use iocp_server.Client.{buffer_size}

abbrev pub chunks : ℕ → List ℕ → List (List ℕ)
chunks zero bytes = []
chunks (suc fuel) bytes =
    let rest = chunks fuel (drop buffer_size bytes) in
    if ltb buffer_size (length bytes) then take buffer_size bytes ∷ rest else []

abbrev pub remainder : ℕ → List ℕ → List ℕ
remainder zero bytes = bytes
remainder (suc fuel) bytes =
    let rest = remainder fuel (drop buffer_size bytes) in
    if ltb buffer_size (length bytes) then rest else bytes

abbrev pub concat : List (List ℕ) → List ℕ
concat [] = []
concat (b ∷ bs) = b ++ concat bs

abbrev pub All {ℓ} : {A : Type ℓ} → (A → Type 0) → List A → Type 0
All P [] = Unit {0}
All P (x ∷ xs) = P x × All P xs

-- Cutting loses no byte and keeps their order.
pub concat-chunks :
    (fuel : ℕ) (bytes : List ℕ) → concat (chunks fuel bytes) ++ remainder fuel bytes ≡ bytes
concat-chunks zero bytes = refl
concat-chunks (suc fuel) bytes = elim (Bool-cases (ltb buffer_size (length bytes))) [
  | inl more ↦ rw more (
      append_assoc (take buffer_size bytes) _ _
      ∙ ap (λ l. take buffer_size bytes ++ l) (concat-chunks fuel (drop buffer_size bytes))
      ∙ take-append-drop buffer_size bytes)
  | inr done ↦ rw done
]

pub chunks_sized :
    (fuel : ℕ) (bytes : List ℕ) → All (λ b. length b ≡ buffer_size) (chunks fuel bytes)
chunks_sized zero bytes = tt
chunks_sized (suc fuel) bytes = elim (Bool-cases (ltb buffer_size (length bytes))) [
  | inl more ↦ rw more (
    length-take buffer_size bytes (omega (arith, ltb→lt _ _ more)),
    chunks_sized fuel (drop buffer_size bytes),
  )
  | inr done ↦ rw done tt
]

-- With as much fuel as there are bytes, at most ten are left over.
pub length-remainder :
    (fuel : ℕ) (bytes : List ℕ) → length bytes ≤ fuel → length (remainder fuel bytes) ≤ buffer_size
length-remainder zero bytes h = omega arith
length-remainder (suc fuel) bytes h = elim (Bool-cases (ltb buffer_size (length bytes))) [
  | inl more ↦ rw more (
      length-remainder fuel (drop buffer_size bytes)
        (omega (arith, length-drop buffer_size bytes, ltb→lt _ _ more)))
  | inr done ↦ rw done (ltb-false→le buffer_size (length bytes) done)
]

pub length-chunks : (fuel : ℕ) (bytes : List ℕ) → 10 * length (chunks fuel bytes) ≤ length bytes
length-chunks zero bytes = omega arith
length-chunks (suc fuel) bytes = elim (Bool-cases (ltb buffer_size (length bytes))) [
  | inl more ↦ rw more (
      omega (
        arith,
        length-chunks fuel (drop buffer_size bytes),
        length-drop buffer_size bytes,
        ltb→lt buffer_size (length bytes) more,
      ))
  | inr done ↦ rw done (omega arith)
]
