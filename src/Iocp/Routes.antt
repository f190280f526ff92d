-- ===== src/Iocp/Routes.antt =====
-- Where `IOCompletionPort::Process` sends each completion: nothing, or an item, a client with bytes,
-- for one of four bounded lists.
use iocp_server.Base.{
  arith, ne→==, zero, suc, true, false, refl, not, ◌&&◌, ◌==◌, ℕ, ◌≤◌, ◌≡◌, Bool, List, [], ◌∷◌,
  Option, none, some, length, take, if◌then◌else◌,
}
use iocp_server.Overlapped.{
  Address, CustomOverlapped, OperationType, block, receive_buf, op_default, op_accept, op_recv,
  op_send,
}
use iocp_server.Memory.{World}
use iocp_server.Queue.Fifo.{put}
use iocp_server.Iocp.{Queues, Completion, is_disconnect, is_accept}
use iocp_server.Iocp.Slots.{Owner, or_empty}
use iocp_server.Iocp.Storing.{view}
use iocp_server.Iocp.Delivery.{Which, accepts, sends, receives, disconnects, same, queue_of}

-- What is behind a pointer.
abbrev pub content : World → Address → List ℕ
content w (receive_buf id) = or_empty (w.received id)
content w (block a) = or_empty (w.blocks a)
content w p = []

-- The array or block exists, is long enough, and is in no slot.
abbrev pub Holds : Owner → World → Address → ℕ → Type 0
Holds owner w (receive_buf id) n =
    (array : List ℕ) × (w.received id ≡ some array) × (n ≤ length array)
Holds owner w (block a) n =
    (bytes : List ℕ) × (owner a ≡ none) × (w.blocks a ≡ some bytes) × (n ≤ length bytes)
Holds owner w p n = ⊥

-- A completion that carries bytes names a buffer that holds them.
abbrev pub HoldsOp : Owner → World → OperationType → CustomOverlapped → ℕ → Type 0
HoldsOp owner w op_recv t n = Holds owner w t.wsabuf.buf n
HoldsOp owner w op_send t n = Holds owner w t.wsabuf.buf n
HoldsOp owner w type t n = Unit {0}

-- No bytes: the connection is lost, but for a new one.
abbrev pub lost : ℕ → OperationType → Bool
lost (suc n) type = false
lost zero op_accept = false
lost zero op_default = true
lost zero op_recv = true
lost zero op_send = true

pub is_disconnect-lost :
    (n : ℕ) (t : CustomOverlapped) → is_disconnect n t ≡ lost n t.operation_type
is_disconnect-lost n t = by_type n t.operation_type
  where
    by_type : (n : ℕ) (type : OperationType) → (n == 0 && not (is_accept type)) ≡ lost n type
    by_type (suc n) type = rw (ne→== (suc n) 0 (omega arith))
    by_type zero op_accept = refl
    by_type zero op_default = refl
    by_type zero op_recv = refl
    by_type zero op_send = refl

abbrev pub IsReady : Owner → World → Bool → ℕ → Option CustomOverlapped → Type 0
IsReady owner w result n none = Unit {0}
IsReady owner w result n (some t) =
    if lost n t.operation_type
    then Unit {0}
    else if result
    then HoldsOp owner w t.operation_type t n
    else Unit {0}

abbrev pub Item : Type 0
Item = ℕ × List ℕ

abbrev pub route_op : World → OperationType → CustomOverlapped → ℕ → Option (Which × Item)
route_op w op_default t n = none
route_op w op_accept t n = some (accepts, (t.id, []))
route_op w op_recv t n = some (receives, (t.id, take n (content w t.wsabuf.buf)))
route_op w op_send t n = some (sends, (t.id, take n (content w t.wsabuf.buf)))

-- Where a completion goes, and with what: a lost connection and a new one carry no bytes.
abbrev pub route : World → Bool → ℕ → Option CustomOverlapped → Option (Which × Item)
route w result n none = none
route w result n (some t) =
    if lost n t.operation_type
    then some (disconnects, (t.id, []))
    else if result
    then route_op w t.operation_type t n
    else none

-- A list for each queue.
abbrev pub Lists : Type 0
Lists = Which → List Item

abbrev pub deliver : Option (Which × Item) → Lists → Lists
deliver none ls j = ls j
deliver (some (k, x)) ls j = if same k j then (put (ls j) x).1 else ls j

abbrev pub views : World → Queues → Lists
views w qs j = view w (queue_of j qs)

abbrev pub goes : World → Completion → Lists → Lists
goes w c = deliver (route w c.result c.bytes_transferred c.custom_overlapped)

abbrev pub Ready : Owner → World → Completion → Type 0
Ready owner w c = IsReady owner w c.result c.bytes_transferred c.custom_overlapped

abbrev pub goes_all : World → List Completion → Lists → Lists
goes_all w [] ls = ls
goes_all w (c ∷ cs) ls = goes_all w cs (goes w c ls)

abbrev pub AllReady : Owner → World → List Completion → Type 0
AllReady owner w [] = Unit {0}
AllReady owner w (c ∷ cs) = Ready owner w c × AllReady owner w cs
