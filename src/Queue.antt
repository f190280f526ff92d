-- ===== src/Queue.antt =====
-- LockFreeCircleQueue of IocpServer_1/LockFreeCircleQueue.h, the calls taken one after the other.
-- `T()` and an unset slot are arguments of the operations that read them.
pub mod Fifo
pub mod Bounds
pub mod Refine
pub mod Use
pub mod Session
pub mod Threads
mod Tests
use iocp_server.Base.{
  ℕ, zero, suc, ◌+◌, ◌%◌, Bool, true, false, List, [], ◌∷◌, get_or, set, replicate, ◌==◌,
  if◌then◌else◌, add_int, sub_int, leb_int, ltb, Option, none, some,
}

abbrev pub max_queue_size : ℕ
max_queue_size = 100

pub record CircleQueue {ℓ} (A : Type ℓ) : Type ℓ where
  pub input_index : ℕ
  pub output_index : ℕ
  pub buffer : List A

-- `(index + 1) % MAX_QUEUE_SIZE`
abbrev pub next_index : ℕ → ℕ
next_index i = add_int i 1 % max_queue_size

module _ {ℓ} {A : Type ℓ} where
  -- The constructor; `slot` is what `new T [MAX_QUEUE_SIZE]` leaves in each slot.
  unfoldable pub init : A → CircleQueue A
  init slot = record { input_index = 0; output_index = 0; buffer = replicate max_queue_size slot }

  unfoldable pub push : CircleQueue A → A → Bool × CircleQueue A
  push q item = if next_index q.input_index == q.output_index then (false, q) else (
    true,
    record q { buffer = set q.buffer q.input_index item; input_index = next_index q.input_index },
  )

  -- `fresh` is `T()`.
  unfoldable pub pop : A → CircleQueue A → A × CircleQueue A
  pop fresh q = if q.output_index == q.input_index then (fresh, q) else (
    get_or q.buffer q.output_index fresh,
    record q { output_index = next_index q.output_index },
  )

  unfoldable pub empty : CircleQueue A → Bool
  empty q = q.input_index == q.output_index

  unfoldable pub size : CircleQueue A → ℕ
  size q =
      if leb_int q.output_index q.input_index
      then sub_int q.input_index q.output_index
      else add_int (sub_int max_queue_size q.output_index) q.input_index

  unfoldable pub capacity : CircleQueue A → ℕ
  capacity q = max_queue_size

  unfoldable pub clear : CircleQueue A → CircleQueue A
  clear q = record q { input_index = 0; output_index = 0 }

  -- `for (int i = 0; i < size(); i++)` of `print`, with the items that it writes.
  unfoldable pub print_from : A → CircleQueue A → ℕ → ℕ → List A
  print_from fresh q zero i = []
  print_from fresh q (suc fuel) i =
      let rest = print_from fresh q fuel (i + 1) in
      if ltb i (size q)
      then get_or q.buffer (add_int q.output_index i % max_queue_size) fresh ∷ rest
      else []

  -- At most `MAX_QUEUE_SIZE` rounds are made.
  unfoldable pub print : A → CircleQueue A → List A
  print fresh q = print_from fresh q max_queue_size 0

  -- `fresh` stands for a read outside the buffer.
  unfoldable pub front : A → CircleQueue A → A
  front fresh q = get_or q.buffer q.output_index fresh

  -- `if (empty()) continue; … Front()`, the way each worker of IOCompletionPort.h reads its queue.
  unfoldable pub peek : A → CircleQueue A → Option A
  unfolding empty front
  peek fresh q = if empty q then none else some (front fresh q)
