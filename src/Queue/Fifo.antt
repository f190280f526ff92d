-- ===== src/Queue/Fifo.antt =====
-- What a circle queue promises: a first-in first-out list of at most 99 items.
use iocp_server.Base.{
  ℕ, Bool, true, false, List, [], ◌∷◌, ◌++◌, Option, none, some, length, ◌==◌, if◌then◌else◌,
}

-- One slot of the buffer stays free, so that a full queue differs from an empty one.
abbrev pub room : ℕ
room = 99

-- The calls of LockFreeCircleQueue.h; `peeks` is `Front` behind the test of `empty`, the way the
-- workers of IOCompletionPort.h make it.
pub data Call {ℓ} (A : Type ℓ) : Type ℓ where
  pushes : A → Call A
  pops peeks asks_empty asks_size clears : Call A

pub data Reply {ℓ} (A : Type ℓ) : Type ℓ where
  pushed : Bool → Reply A
  popped : A → Reply A
  peeked : Option A → Reply A
  tested : Bool → Reply A
  sized : ℕ → Reply A
  cleared : Reply A

module _ {ℓ} {A : Type ℓ} where
  unfoldable pub put : List A → A → Bool × List A
  put xs x = if length xs == room then (false, xs) else (true, xs ++ x ∷ [])

  -- `T()` comes back from an empty queue.
  abbrev pub head_or : A → List A → A
  head_or fresh [] = fresh
  head_or fresh (x ∷ xs) = x

  abbrev pub rest : List A → List A
  rest [] = []
  rest (x ∷ xs) = xs

  abbrev pub head? : List A → Option A
  head? [] = none
  head? (x ∷ xs) = some x

  unfoldable pub take_first : A → List A → A × List A
  take_first fresh xs = (head_or fresh xs, rest xs)

  unfoldable pub answer : A → List A → Call A → Reply A × List A
  unfolding put
  answer fresh xs (pushes x) = let (ok, ys) = put xs x in (pushed ok, ys)
  answer fresh xs pops = (popped (head_or fresh xs), rest xs)
  answer fresh xs peeks = (peeked (head? xs), xs)
  answer fresh xs asks_empty = (tested (length xs == 0), xs)
  answer fresh xs asks_size = (sized (length xs), xs)
  answer fresh xs clears = (cleared, [])

  unfoldable pub answers : A → List A → List (Call A) → List (Reply A)
  answers fresh xs [] = []
  answers fresh xs (c ∷ cs) = let (r, ys) = answer fresh xs c in r ∷ answers fresh ys cs
