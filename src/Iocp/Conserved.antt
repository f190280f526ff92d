-- ===== src/Iocp/Conserved.antt =====
-- The items of one queue of IOCompletionPort.h under any order of rounds: those that come in, those that
-- the handler is called with, and those that wait.
use iocp_server.Base.{
  ◌≡◌, refl, sym, ap, ◌∙◌, inl, inr, List, [], ◌∷◌, ◌++◌, Option, none, some, length, append-nil,
  append_assoc, if◌then◌else◌, ◌==◌, Bool-cases,
}
use iocp_server.Queue.Fifo.{put, rest as tail}
use iocp_server.Iocp.Delivery.{Which, same, same→eq}
use iocp_server.Iocp.Routes.{Item, Lists, route, deliver}
use iocp_server.Iocp.System.{
  Turn, fills, completes, works, Arrays, just, arrays_after, lists_after, follow, oldest, calls_of,
  calls,
}

-- The items that the handler of one queue was called with.
abbrev pub taken : Which → List (Which × Item) → List Item
taken k [] = []
taken k ((j, x) ∷ cs) = let rest = taken k cs in if same j k then x ∷ rest else rest

-- The item that a completion brings to a queue with room.
abbrev pub accepted_route : Which → Option (Which × Item) → List Item → List Item
accepted_route k none xs = []
accepted_route k (some (j, x)) xs = if same j k then if length xs == 99 then [] else x ∷ [] else []

abbrev pub accepted_of : Which → Turn → Arrays → Lists → List Item
accepted_of k (fills id array) arrays ls = []
accepted_of k (completes c) arrays ls =
    accepted_route k (route (just arrays) c.result c.bytes_transferred c.custom_overlapped) (ls k)
accepted_of k (works j) arrays ls = []

abbrev pub accepted : Which → List Turn → Arrays → Lists → List Item
accepted k [] arrays ls = []
accepted k (t ∷ ts) arrays ls =
    accepted_of k t arrays ls ++ accepted k ts (arrays_after t arrays) (lists_after t arrays ls)

pub taken-append :
    (k : Which) (cs ds : List (Which × Item)) → taken k (cs ++ ds) ≡ taken k cs ++ taken k ds
taken-append k [] ds = refl
taken-append k ((j, x) ∷ cs) ds = elim (Bool-cases (same j k)) [
  | inl mine ↦ rw mine (ap (λ l. x ∷ l) (taken-append k cs ds))
  | inr other ↦ rw other (taken-append k cs ds)
]

route_conserved :
    (k : Which) (r : Option (Which × Item)) (ls : Lists)
    → deliver r ls k ≡ ls k ++ accepted_route k r (ls k)
unfolding put
route_conserved k none ls = sym (append-nil (ls k))
route_conserved k (some (j, x)) ls = elim (Bool-cases (same j k)) [
  | inr other ↦ rw other (sym (append-nil (ls k)))
  | inl mine ↦ elim (Bool-cases (length (ls k) == 99)) [
    | inl full ↦ rw (mine, full) (sym (append-nil (ls k)))
    | inr free ↦ rw (mine, free)
  ]
]

pub turn_conserved :
    (k : Which) (t : Turn) (arrays : Arrays) (ls : Lists)
    → taken k (calls_of t ls) ++ lists_after t arrays ls k ≡ ls k ++ accepted_of k t arrays ls
turn_conserved k (fills id array) arrays ls = sym (append-nil (ls k))
turn_conserved k (completes c) arrays ls =
    route_conserved k (route (just arrays) c.result c.bytes_transferred c.custom_overlapped) ls
turn_conserved k (works j) arrays ls = by_list (ls j) refl
  where
    by_list :
        (xs : List Item)
        → ls j ≡ xs
        → taken k (oldest j xs) ++ (if same j k then tail (ls k) else ls k) ≡ ls k ++ []
    by_list [] e = elim (Bool-cases (same j k)) [
      | inl mine ↦ rw (mine, ap ls (sym (same→eq j k mine)) ∙ e) refl
      | inr other ↦ rw other (sym (append-nil (ls k)))
    ]
    by_list (x ∷ xs) e = elim (Bool-cases (same j k)) [
      | inl mine ↦ rw (mine, ap ls (sym (same→eq j k mine)) ∙ e) (sym (append-nil (x ∷ xs)))
      | inr other ↦ rw other (sym (append-nil (ls k)))
    ]

-- What a queue's handler was called with, and what waits, is what waited and what came in, in order.
pub queue_conserved :
    (k : Which) (ts : List Turn) (arrays : Arrays) (ls : Lists)
    → taken k (calls ts arrays ls) ++ (follow ts arrays ls).1 k ≡ ls k ++ accepted k ts arrays ls
queue_conserved k [] arrays ls = sym (append-nil (ls k))
queue_conserved k (t ∷ ts) arrays ls =
    let arrays' = arrays_after t arrays in
    let ls' = lists_after t arrays ls in
    ap (λ l. l ++ (follow ts arrays' ls').1 k)
      (taken-append k (calls_of t ls) (calls ts arrays' ls'))
    ∙ append_assoc (taken k (calls_of t ls)) _ _
    ∙ ap (λ l. taken k (calls_of t ls) ++ l) (queue_conserved k ts arrays' ls')
    ∙ sym (append_assoc (taken k (calls_of t ls)) (ls' k) _)
    ∙ ap (λ l. l ++ accepted k ts arrays' ls') (turn_conserved k t arrays ls)
    ∙ append_assoc (ls k) _ _
