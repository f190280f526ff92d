-- ===== src/Queue/Threads.antt =====
-- One thread in `push` of LockFreeCircleQueue.h and one in the worker loop of IOCompletionPort.h,
-- interleaved in any order. A step makes one access to memory that the two share.
pub mod Fitting
pub mod Invariant
pub mod Safety
pub mod Progress
use iocp_server.Base.{ℕ, Bool, true, false, List, [], ◌∷◌, ◌++◌, get_or, set, ◌==◌, if◌then◌else◌}
use iocp_server.Queue.{CircleQueue, init, next_index}

-- Where the pushing thread stands, with its local variables: the item and `currentInputIndex`.
pub data Producer {ℓ} (A : Type ℓ) : Type ℓ where
  outside : Producer A
  loaded : A → ℕ → Producer A  -- `inputIndex` is read
  has_room : A → ℕ → Producer A  -- `outputIndex` is read, and the queue is not full
  stored : A → ℕ → Producer A  -- the slot is written

-- Where the worker stands: in `empty`, before `Front`, in `Front`, in the callback, and in `pop`.
pub data Worker {ℓ} (A : Type ℓ) : Type ℓ where
  polling : Worker A
  saw_input : ℕ → Worker A
  not_empty : Worker A
  in_front : ℕ → Worker A
  called : A → Worker A
  pop_output : A → ℕ → Worker A
  pop_ready : A → ℕ → Worker A
  pop_moved : A → ℕ → A → Worker A
  stopped : Worker A

-- The shared queue, both threads, and what has happened so far: the items that `push` has made
-- visible, those handed to the callback, and those taken out by `pop`.
pub record System {ℓ} (A : Type ℓ) : Type ℓ where
  pub shared : CircleQueue A
  pub producer : Producer A
  pub worker : Worker A
  pub published : List A
  pub delivered : List A
  pub popped : List A

-- Which thread moves. A worker step reads `mServerOn` and tests the callback where it comes to that.
pub data Turn {ℓ} (A : Type ℓ) : Type ℓ where
  produces : A → Turn A
  works : (server_on callback : Bool) → Turn A

module _ {ℓ} {A : Type ℓ} (fresh : A) where
  unfoldable pub start : System A
  start = record {
    shared = init fresh;
    producer = outside;
    worker = polling;
    published = [];
    delivered = [];
    popped = [];
  }

  -- `push`, from where it stands; `x` is the argument of the next call.
  unfoldable pub produce : A → Producer A → System A → System A
  produce x outside s = record s { producer = loaded x s.shared.input_index }
  produce x (loaded y i) s =
      if next_index i == s.shared.output_index
      then record s { producer = outside }
      else record s { producer = has_room y i }
  produce x (has_room y i) s = record s {
    shared = record (s.shared) { buffer = set s.shared.buffer i y };
    producer = stored y i;
  }
  produce x (stored y i) s = record s {
    shared = record (s.shared) { input_index = next_index i };
    producer = outside;
    published = s.published ++ y ∷ [];
  }

  -- `while (mServerOn) { if (empty()) continue; if (!callback) continue; callback(Front()); pop(); }`
  unfoldable pub work : Bool → Bool → Worker A → System A → System A
  work server_on callback polling s =
      if server_on
      then record s { worker = saw_input s.shared.input_index }
      else record s { worker = stopped }
  work server_on callback (saw_input i) s =
      if i == s.shared.output_index
      then record s { worker = polling }
      else record s { worker = not_empty }
  work server_on callback not_empty s =
      if callback
      then record s { worker = in_front s.shared.output_index }
      else record s { worker = polling }
  work server_on callback (in_front o) s = record s {
    worker = called (get_or s.shared.buffer o fresh);
    delivered = s.delivered ++ get_or s.shared.buffer o fresh ∷ [];
  }
  work server_on callback (called x) s = record s { worker = pop_output x s.shared.output_index }
  work server_on callback (pop_output x o) s =
      if o == s.shared.input_index
      then record s { worker = polling; popped = s.popped ++ fresh ∷ [] }
      else record s { worker = pop_ready x o }
  work server_on callback (pop_ready x o) s = record s {
    worker = pop_moved x o (get_or s.shared.buffer o fresh);
  }
  work server_on callback (pop_moved x o y) s = record s {
    shared = record (s.shared) { output_index = next_index o };
    worker = polling;
    popped = s.popped ++ y ∷ [];
  }
  work server_on callback stopped s = s

  unfoldable pub step : Turn A → System A → System A
  step (produces x) s = produce x s.producer s
  step (works server_on callback) s = work server_on callback s.worker s

  -- A schedule, first turn first.
  unfoldable pub run : List (Turn A) → System A → System A
  run [] s = s
  run (t ∷ ts) s = run ts (step t s)
