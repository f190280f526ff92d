-- ===== src/Memory.antt =====
-- The heap behind `new` and `delete` in IocpServer_1/CustomOverlapped.h and ClientDataSet.h, the
-- asynchronous calls that the server makes, and the monad of code that works on both.
-- A block that is allocated is filled before it is read, so what `new` leaves in it does not matter.
-- A program that breaks a rule of C++ (a read through a null or freed pointer, a read past the end
-- of a block, a second `delete`) has no result: `none`.
pub mod Laws
use iocp_server.Base.{
  ℕ, suc, List, [], ◌∷◌, ◌++◌, Option, none, some, length, take, drop, replicate, leb, ◌==◌,
  if◌then◌else◌,
}
use iocp_server.Overlapped.{CustomOverlapped, Wsabuf, Address, null, block, receive_buf}

-- What the server asks of the operating system, and what it reports of each packet, in order.
pub data Event : Type 0 where
  accept_ex : CustomOverlapped → Event  -- `AcceptEx` with this context
  wsa_recv : CustomOverlapped → Event  -- `WSARecv` with this context
  wsa_send : Wsabuf → ℕ → Event  -- `WSASend` of this buffer, the context at this address
  handled : (id : ℕ) → List ℕ → Event  -- the line that `ReceiveInternalWork` writes
  sent : (id : ℕ) → List ℕ → Event  -- the line that `FeedBack_Send` writes

pub record World : Type 0 where
  pub next : ℕ
  pub blocks : ℕ → Option (List ℕ)
  pub contexts : ℕ → Option CustomOverlapped
  pub received : ℕ → Option (List ℕ)  -- `mReceiveBuf` of each client, by its identifier
  pub events : List Event

abbrev pub M : Type 0 → Type 0
M A = World → Option (A × World)

abbrev pub pure : {A : Type 0} → A → M A
pure a w = some (a, w)

infixl 5 ◌>>=◌ ◌>>◌
abbrev pub ◌>>=◌ : {A B : Type 0} → M A → (A → M B) → M B
◌>>=◌ m f w = elim (m w) [ none ↦ none | some (a, w') ↦ f a w' ]

abbrev pub ◌>>◌ : {B : Type 0} → M (Unit {0}) → M B → M B
m >> k = m >>= λ _. k

abbrev pub update : {V : Type 0} → (ℕ → V) → ℕ → V → ℕ → V
update f a v b = if a == b then v else f b

unfoldable pub emit : Event → M (Unit {0})
emit e w = some (tt, record w { events = w.events ++ e ∷ [] })

-- `new char[n]`; what the block holds before it is written is not used by the program.
unfoldable pub new_chars : ℕ → M ℕ
new_chars n w =
    some (
      w.next,
      record w { next = suc w.next; blocks = update w.blocks w.next (some (replicate n 0)) },
    )

-- The first `n` bytes behind a pointer.
abbrev pub read_block : ℕ → Option (List ℕ) → World → Option (List ℕ × World)
read_block n none w = none
read_block n (some bytes) w = if leb n (length bytes) then some (take n bytes, w) else none

unfoldable pub read_chars : Address → ℕ → M (List ℕ)
read_chars (block a) n w = read_block n (w.blocks a) w
read_chars (receive_buf id) n w = read_block n (w.received id) w
read_chars p n w = none

abbrev pub write_block : ℕ → List ℕ → Option (List ℕ) → World → Option (Unit {0} × World)
write_block a src none w = none
write_block a src (some bytes) w =
    if leb (length src) (length bytes)
    then some (tt, record w { blocks = update w.blocks a (some (src ++ drop (length src) bytes)) })
    else none

-- Stores `src` at the start of a block.
unfoldable pub write_chars : Address → List ℕ → M (Unit {0})
write_chars (block a) src w = write_block a src (w.blocks a) w
write_chars p src w = none

-- `CopyMemory`
unfoldable pub copy_memory : Address → Address → ℕ → M (Unit {0})
unfolding read_chars write_chars
copy_memory to from n = do bytes ← read_chars from n; write_chars to bytes

abbrev pub free_block : ℕ → Option (List ℕ) → World → Option (Unit {0} × World)
free_block a none w = none
free_block a (some bytes) w = some (tt, record w { blocks = update w.blocks a none })

-- `delete[]` of a pointer to `char`; that of a null pointer does nothing.
unfoldable pub delete_chars : Address → M (Unit {0})
delete_chars null w = some (tt, w)
delete_chars (block a) w = free_block a (w.blocks a) w
delete_chars p w = none

-- `new CustomOverlapped()`, filled in before it is used.
unfoldable pub new_context : CustomOverlapped → M ℕ
new_context c w =
    some (w.next, record w { next = suc w.next; contexts = update w.contexts w.next (some c) })

abbrev pub read_context : Option CustomOverlapped → World → Option (CustomOverlapped × World)
read_context none w = none
read_context (some c) w = some (c, w)

-- `*context`; the null pointer is `none`.
unfoldable pub load_context : Option ℕ → M CustomOverlapped
load_context none w = none
load_context (some a) w = read_context (w.contexts a) w

abbrev pub free_context : ℕ → Option CustomOverlapped → World → Option (Unit {0} × World)
free_context a none w = none
free_context a (some c) w = some (tt, record w { contexts = update w.contexts a none })

unfoldable pub delete_context : Option ℕ → M (Unit {0})
delete_context none w = some (tt, w)
delete_context (some a) w = free_context a (w.contexts a) w
