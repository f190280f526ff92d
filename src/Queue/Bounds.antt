-- ===== src/Queue/Bounds.antt =====
-- The indices of a circle queue, the number of items between them, and their bounds.
use iocp_server.Base.{ℕ, ◌+◌, ◌-◌, ◌%◌, ◌<◌, ◌≡◌, arith, length, length-set, length-replicate}
use iocp_server.Queue.{CircleQueue, init, push, pop, size, clear, max_queue_size, capacity}

pub record IsValid {ℓ} {A : Type ℓ} (q : CircleQueue A) : Type 0 where
  pub slots : length q.buffer ≡ max_queue_size
  pub input_in : q.input_index < max_queue_size
  pub output_in : q.output_index < max_queue_size

-- How many items lie between the two indices, going round the buffer.
abbrev pub held : ℕ → ℕ → ℕ
held input output = (input + max_queue_size - output) % max_queue_size

module _ {ℓ} {A : Type ℓ} where
  pub init-IsValid : (slot : A) → IsValid (init slot)
  unfolding init
  init-IsValid slot = record {
    slots = length-replicate max_queue_size slot;
    input_in = omega arith;
    output_in = omega arith;
  }

  pub push-IsValid : {q : CircleQueue A} (x : A) → IsValid q → IsValid (push q x).1
  unfolding push
  push-IsValid {q} x v = ground (arith, length-set q.buffer q.input_index x)

  pub pop-IsValid : {q : CircleQueue A} (fresh : A) → IsValid q → IsValid (pop fresh q).1
  unfolding pop
  pop-IsValid fresh v = ground arith

  pub clear-IsValid : {q : CircleQueue A} → IsValid q → IsValid (clear q)
  unfolding clear
  clear-IsValid v = ground arith

  -- For a valid queue `size()` is the number of items held, at most one below `capacity()`.
  pub size_lem :
      {q : CircleQueue A}
      → IsValid q
      → (size q ≡ held q.input_index q.output_index) × (size q < capacity q)
  unfolding size capacity
  size_lem v = (ground arith, ground arith)
