-- ===== src/Iocp/System.antt =====
-- The loop of `IOCompletionPort::Process` and its four workers, taking turns in any order, and the
-- four lists that they work on. A turn is a whole round of one of them.
use iocp_server.Base.{ℕ, List, [], ◌∷◌, ◌++◌, Option, none, some, if◌then◌else◌}
use iocp_server.Memory.{World, M, pure, ◌>>=◌, update}
use iocp_server.Client.Frames.{All}
use iocp_server.Queue.Fifo.{rest as tail}
use iocp_server.Iocp.{Queues, Completion, process_round}
use iocp_server.Iocp.Workers.{
  Callbacks, accept_worker, send_worker, receive_worker, disconnect_worker,
}
use iocp_server.Iocp.Delivery.{Which, accepts, sends, receives, disconnects, same}
use iocp_server.Iocp.Routes.{Item, Lists, route, goes, Ready}
use iocp_server.Iocp.Opened.{nobody}

-- Windows writes a client's array, the loop handles a completion, or a worker makes a round.
pub data Turn : Type 0 where
  fills : ℕ → List ℕ → Turn
  completes : Completion → Turn
  works : Which → Turn

module _ {S : Type 0} (cbs : Callbacks S) where
  unfoldable pub work_round : Which → Queues → S → M (Queues × S)
  work_round accepts = accept_worker cbs
  work_round sends = send_worker cbs
  work_round receives = receive_worker cbs
  work_round disconnects = disconnect_worker cbs

  unfoldable pub turn : Turn → Queues → S → M (Queues × S)
  turn (fills id array) qs s =
      λ w. some ((qs, s), record w { received = update w.received id (some array) })
  turn (completes c) qs s = do qs' ← process_round c qs; pure (qs', s)
  turn (works k) qs s = work_round k qs s

  unfoldable pub run : List Turn → Queues → S → M (Queues × S)
  run [] qs s = pure (qs, s)
  run (t ∷ ts) qs s = do (qs', s') ← turn t qs s; run ts qs' s'

abbrev pub Arrays : Type 0
Arrays = ℕ → Option (List ℕ)

-- A world with these arrays, and with no blocks.
abbrev pub just : Arrays → World
just arrays = record {
  next = 0;
  blocks = λ a. none;
  contexts = λ a. none;
  received = arrays;
  events = [];
}

-- What a turn does to the arrays and to the four lists.
abbrev pub arrays_after : Turn → Arrays → Arrays
arrays_after (fills id array) arrays = update arrays id (some array)
arrays_after (completes c) arrays = arrays
arrays_after (works k) arrays = arrays

abbrev pub without_oldest : Which → Lists → Lists
without_oldest k ls j = if same k j then tail (ls j) else ls j

abbrev pub lists_after : Turn → Arrays → Lists → Lists
lists_after (fills id array) arrays ls = ls
lists_after (completes c) arrays ls = goes (just arrays) c ls
lists_after (works k) arrays ls = without_oldest k ls

abbrev pub follow : List Turn → Arrays → Lists → Arrays × Lists
follow [] arrays ls = (arrays, ls)
follow (t ∷ ts) arrays ls = follow ts (arrays_after t arrays) (lists_after t arrays ls)

-- The calls of handlers that a schedule makes: a worker's round hands over the oldest item.
abbrev pub oldest : Which → List Item → List (Which × Item)
oldest k [] = []
oldest k (x ∷ xs) = (k, x) ∷ []

abbrev pub calls_of : Turn → Lists → List (Which × Item)
calls_of (fills id array) ls = []
calls_of (completes c) ls = []
calls_of (works k) ls = oldest k (ls k)

abbrev pub calls : List Turn → Arrays → Lists → List (Which × Item)
calls [] arrays ls = []
calls (t ∷ ts) arrays ls =
    calls_of t ls ++ calls ts (arrays_after t arrays) (lists_after t arrays ls)

-- What may come into each list.
module _ (Fits : Which → Item → Type 0) where
  abbrev pub FitsRoute : Option (Which × Item) → Type 0
  FitsRoute none = Unit {0}
  FitsRoute (some (k, x)) = Fits k x

  -- A completion that carries bytes has them in a client's array, and its item fits.
  abbrev pub IsTurn : Arrays → Turn → Type 0
  IsTurn arrays (fills id array) = Unit {0}
  IsTurn arrays (completes c) =
      Ready nobody (just arrays) c
      × FitsRoute (route (just arrays) c.result c.bytes_transferred c.custom_overlapped)
  IsTurn arrays (works k) = Unit {0}

  abbrev pub AreTurns : Arrays → List Turn → Type 0
  AreTurns arrays [] = Unit {0}
  AreTurns arrays (t ∷ ts) = IsTurn arrays t × AreTurns (arrays_after t arrays) ts

  abbrev pub AllFit : Lists → Type 0
  AllFit ls = (k : Which) → All (Fits k) (ls k)
