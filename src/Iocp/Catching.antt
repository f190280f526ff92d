-- ===== src/Iocp/Catching.antt =====
-- The receive worker of IOCompletionPort.h catches up: it makes a round for each item that waits.
use iocp_server.Base.{
  ℕ, zero, suc, ◌+◌, ◌-◌, ◌≤◌, ◌≡◌, refl, sym, ap, ap₂, ◌∙◌, List, [], ◌∷◌, ◌++◌, arith, length,
}
use iocp_server.Queue.Fifo.{rest as tail}
use iocp_server.Iocp.Delivery.{Which, accepts, receives}
use iocp_server.Iocp.Routes.{Item, Lists}
use iocp_server.Iocp.System.{
  Turn, works, Arrays, arrays_after, lists_after, follow, oldest, calls_of, calls, AreTurns,
  without_oldest,
}
use iocp_server.Iocp.Conserved.{taken, taken-append}
use iocp_server.Iocp.Reading.{read_of, arrived, asked_by, AreAsked}

-- So many rounds of the receive worker.
abbrev pub catch_up : ℕ → List Turn
catch_up zero = []
catch_up (suc n) = works receives ∷ catch_up n

tail_shorter : (xs : List Item) (n : ℕ) → length xs ≤ suc n → length (tail xs) ≤ n
tail_shorter [] n h = omega arith
tail_shorter (x ∷ xs) n h = omega (arith, h)

none_waits : (xs : List Item) → length xs ≤ 0 → xs ≡ []
none_waits [] h = refl
none_waits (x ∷ xs) h = absurd (omega (arith, h))

-- Enough rounds leave nothing in the receive queue.
pub follow-catch_up :
    (ts : List Turn) (n : ℕ) (arrays : Arrays) (ls : Lists)
    → length ((follow ts arrays ls).1 receives) ≤ n
    → (follow (ts ++ catch_up n) arrays ls).1 receives ≡ []
follow-catch_up [] zero arrays ls h = none_waits (ls receives) h
follow-catch_up [] (suc n) arrays ls h =
    follow-catch_up [] n arrays (without_oldest receives ls) (tail_shorter (ls receives) n h)
follow-catch_up (t ∷ ts) n arrays ls h =
    follow-catch_up ts n (arrays_after t arrays) (lists_after t arrays ls) h

module _ (Fits : Which → Item → Type 0) where
  pub AreTurns-catch_up :
      (ts : List Turn) (n : ℕ) (arrays : Arrays)
      → AreTurns Fits arrays ts
      → AreTurns Fits arrays (ts ++ catch_up n)
  AreTurns-catch_up [] zero arrays h = tt
  AreTurns-catch_up [] (suc n) arrays h = (tt, AreTurns-catch_up [] n arrays tt)
  AreTurns-catch_up (t ∷ ts) n arrays (one, later) =
      (one, AreTurns-catch_up ts n (arrays_after t arrays) later)

-- They bring no read in, and handle no accept.
pub AreAsked-catch_up :
    (ts : List Turn) (n due : ℕ) (arrays : Arrays) (ls : Lists)
    → AreAsked due ts arrays ls
    → AreAsked due (ts ++ catch_up n) arrays ls
AreAsked-catch_up [] zero due arrays ls h = tt
AreAsked-catch_up [] (suc n) due arrays ls h = (
  omega arith,
  AreAsked-catch_up [] n (due - 0 + asked_by (oldest receives (ls receives))) arrays
      (without_oldest receives ls) tt,
)
AreAsked-catch_up (t ∷ ts) n due arrays ls (one, later) = (
  one,
  AreAsked-catch_up ts n (due - length (read_of t arrays) + asked_by (calls_of t ls))
      (arrays_after t arrays) (lists_after t arrays ls) later,
)

pub arrived-catch_up :
    (ts : List Turn) (n : ℕ) (arrays : Arrays)
    → arrived (ts ++ catch_up n) arrays ≡ arrived ts arrays
arrived-catch_up [] zero arrays = refl
arrived-catch_up [] (suc n) arrays = arrived-catch_up [] n arrays
arrived-catch_up (t ∷ ts) n arrays =
    ap (λ l. read_of t arrays ++ l) (arrived-catch_up ts n (arrays_after t arrays))

no_accept : (xs : List Item) → taken accepts (oldest receives xs) ≡ []
no_accept [] = refl
no_accept (x ∷ xs) = refl

pub taken-catch_up :
    (ts : List Turn) (n : ℕ) (arrays : Arrays) (ls : Lists)
    → taken accepts (calls (ts ++ catch_up n) arrays ls) ≡ taken accepts (calls ts arrays ls)
taken-catch_up [] zero arrays ls = refl
taken-catch_up [] (suc n) arrays ls =
    taken-append accepts (oldest receives (ls receives)) _
    ∙ ap₂ ◌++◌ (no_accept (ls receives)) (taken-catch_up [] n arrays (without_oldest receives ls))
taken-catch_up (t ∷ ts) n arrays ls =
    taken-append accepts (calls_of t ls) _
    ∙ ap (λ l. taken accepts (calls_of t ls) ++ l)
        (taken-catch_up ts n (arrays_after t arrays) (lists_after t arrays ls))
    ∙ sym (taken-append accepts (calls_of t ls) _)
