-- ===== src/Iocp/Reading.antt =====
-- How full the receive queue of IOCompletionPort.h gets, against the reads that are under way.
use iocp_server.Base.{
  ℕ, ◌+◌, ◌-◌, ◌≤◌, ◌≡◌, refl, sym, ap, ap₂, ◌∙◌, inl, inr, List, [], ◌∷◌, ◌++◌, Option, none, some,
  arith, length, length-append, if◌then◌else◌, ◌==◌, Bool-cases, ==→eq,
}
use iocp_server.Iocp.Delivery.{Which, accepts, sends, receives, disconnects, same}
use iocp_server.Iocp.Routes.{Item, Lists, route}
use iocp_server.Iocp.System.{
  Turn, fills, completes, works, Arrays, just, arrays_after, lists_after, calls_of, calls,
}
use iocp_server.Iocp.Conserved.{
  taken, taken-append, accepted_route, accepted_of, accepted, turn_conserved,
}

-- The reads that complete with bytes, whether the queue has room for them or not.
abbrev pub read_route : Option (Which × Item) → List Item
read_route none = []
read_route (some (k, x)) = if same k receives then x ∷ [] else []

abbrev pub read_of : Turn → Arrays → List Item
read_of (fills id array) arrays = []
read_of (completes c) arrays =
    read_route (route (just arrays) c.result c.bytes_transferred c.custom_overlapped)
read_of (works k) arrays = []

abbrev pub arrived : List Turn → Arrays → List Item
arrived [] arrays = []
arrived (t ∷ ts) arrays = read_of t arrays ++ arrived ts (arrays_after t arrays)

-- The reads that these calls may ask for: at most one for each accept and each read.
abbrev pub asks_most : Which → ℕ
asks_most accepts = 1
asks_most sends = 0
asks_most receives = 1
asks_most disconnects = 0

abbrev pub asked_by : List (Which × Item) → ℕ
asked_by [] = 0
asked_by ((k, x) ∷ cs) = asks_most k + asked_by cs

-- With `due` reads under way at first, no read completes that the calls so far did not ask for.
abbrev pub AreAsked : ℕ → List Turn → Arrays → Lists → Type 0
AreAsked due [] arrays ls = Unit {0}
AreAsked due (t ∷ ts) arrays ls =
    (length (read_of t arrays) ≤ due)
    × AreAsked (due - length (read_of t arrays) + asked_by (calls_of t ls)) ts
        (arrays_after t arrays) (lists_after t arrays ls)

-- Only the handlers of accepts and of reads ask.
asked_by-taken :
    (cs : List (Which × Item))
    → asked_by cs ≡ length (taken accepts cs) + length (taken receives cs)
asked_by-taken [] = refl
asked_by-taken ((accepts, x) ∷ cs) = omega (arith, asked_by-taken cs)
asked_by-taken ((sends, x) ∷ cs) = omega (arith, asked_by-taken cs)
asked_by-taken ((receives, x) ∷ cs) = omega (arith, asked_by-taken cs)
asked_by-taken ((disconnects, x) ∷ cs) = omega (arith, asked_by-taken cs)

route_room :
    (r : Option (Which × Item)) (xs : List Item)
    → length xs + length (read_route r) ≤ 99
    → accepted_route receives r xs ≡ read_route r
route_room none xs h = refl
route_room (some (k, x)) xs h = elim (Bool-cases (same k receives)) [
  | inr other ↦ rw other refl
  | inl mine ↦ elim (Bool-cases (length xs == 99)) [
    | inr free ↦ rw (mine, free) refl
    | inl full ↦
        let h' : length xs + 1 ≤ 99 = rw mine at h in
        absurd (omega (arith, h', ==→eq (length xs) 99 full))
  ]
]

turn_room :
    (t : Turn) (arrays : Arrays) (ls : Lists)
    → length (ls receives) + length (read_of t arrays) ≤ 99
    → accepted_of receives t arrays ls ≡ read_of t arrays
turn_room (fills id array) arrays ls h = refl
turn_room (completes c) arrays ls h =
    route_room (route (just arrays) c.result c.bytes_transferred c.custom_overlapped) (ls receives)
      h
turn_room (works k) arrays ls h = refl

-- What waits and what is under way grows with the accepts only.
turn_balanced :
    (t : Turn) (arrays : Arrays) (ls : Lists) (due : ℕ)
    → length (read_of t arrays) ≤ due
    → accepted_of receives t arrays ls ≡ read_of t arrays
    → length (lists_after t arrays ls receives)
        + (due - length (read_of t arrays) + asked_by (calls_of t ls))
      ≡ length (ls receives) + due + length (taken accepts (calls_of t ls))
turn_balanced t arrays ls due asked all =
    let moved =
      sym (length-append (taken receives (calls_of t ls)) (lists_after t arrays ls receives))
      ∙ ap length (turn_conserved receives t arrays ls)
      ∙ length-append (ls receives) (accepted_of receives t arrays ls)
      ∙ ap (λ l. length (ls receives) + length l) all in
    omega (arith, moved, asked, asked_by-taken (calls_of t ls))

-- With what waits at first, what is under way, and the accepts that are handled, at most 99 in all, every
-- read meets room in the queue.
pub accepted-arrived :
    (ts : List Turn) (arrays : Arrays) (ls : Lists) (due : ℕ)
    → AreAsked due ts arrays ls
    → length (ls receives) + due + length (taken accepts (calls ts arrays ls)) ≤ 99
    → accepted receives ts arrays ls ≡ arrived ts arrays
accepted-arrived [] arrays ls due h few = refl
accepted-arrived (t ∷ ts) arrays ls due (asked, later) few =
    let arrays' = arrays_after t arrays in
    let ls' = lists_after t arrays ls in
    let parts =
      ap length (taken-append accepts (calls_of t ls) (calls ts arrays' ls'))
      ∙ length-append (taken accepts (calls_of t ls)) (taken accepts (calls ts arrays' ls')) in
    let all = turn_room t arrays ls (omega (arith, few, asked)) in
    let kept = turn_balanced t arrays ls due asked all in
    ap₂ ◌++◌ all (
      accepted-arrived ts arrays' ls' (due - length (read_of t arrays) + asked_by (calls_of t ls))
        later (omega (arith, few, parts, kept)))
