-- ===== src/Pipeline/Tests.antt =====
-- The theorems on the path of a client's bytes, at client 3.
mod Echo
mod Reads
use iocp_server.Base.{
  ℕ, ◌≡◌, refl, subst, true, inl, inr, List, [], ◌∷◌, none, some, arith, Bool-cases, ==→eq,
  some-injective, ◌==◌,
}
use iocp_server.Overlapped.{zeroed}
use iocp_server.Memory.{World, update}
use iocp_server.Queue
use iocp_server.Queue.Fifo.{put}
use iocp_server.Queue.Bounds.{init-IsValid}
use iocp_server.Client.{create}
use iocp_server.Client.Receive.{IsIdle}
use iocp_server.Server.{Server, Outside, receive}
use iocp_server.Client.{accepting}
use iocp_server.Client.Frames.{All}
use iocp_server.Iocp.Delivery.{accepts, sends, receives, disconnects}
use iocp_server.Iocp.Routes.{views}
use iocp_server.Iocp.Workers.{Callbacks}
use iocp_server.Iocp.System.{Turn, fills, completes, works, run, follow, AreTurns}
use iocp_server.Iocp.Turns.{Turned}
use iocp_server.Iocp.Interleaving.{set}
use iocp_server.Pipeline.AtRest.{EachAtRest}
use iocp_server.Pipeline.Serving.{Fits, handler}
use iocp_server.Pipeline.Echo.{echo_run-Turned}
use iocp_server.Iocp.Working.{Worked, worker_round-Worked}
use iocp_server.Pipeline.Receiving.{receive-Received, Received-Handles}
use iocp_server.Server.Table.{lookup}
use iocp_server.Iocp.{Completion, empty_queues, process}
use iocp_server.Iocp.Routes.{AllReady, goes_all}
use iocp_server.Iocp.Rounds.{Routed}
use iocp_server.Iocp.Process.{process-Routed}
use iocp_server.Overlapped.{CustomOverlapped, receive_buf, op_recv}
use iocp_server.Iocp.Opened.{nobody, empty_queues-AreStores}
use iocp_server.Pipeline.Accounts.{AllIdle}
use iocp_server.Pipeline.Reporting.{Reported, receive_run-Reported}

-- The context of a read.
abbrev reads : ℕ → ℕ → CustomOverlapped
reads id len = record {
  wsabuf = record { len = len; buf = receive_buf id };
  operation_type = op_recv;
  id = id;
}

abbrev outside : Outside
outside = record { unset = zeroed; socket_error = λ id. 0 }

-- An empty heap, and client 3's array.
abbrev one_array : World
one_array = record {
  next = 0;
  blocks = λ a. none;
  contexts = λ a. none;
  received = update (λ a. none) 3 (some (1 ∷ 2 ∷ 3 ∷ []));
  events = [];
}

abbrev read : ℕ → Completion
read n = record { result = true; bytes_transferred = n; custom_overlapped = some (reads 3 256) }

abbrev two_reads : List Completion
two_reads = read 2 ∷ read 3 ∷ []

two_reads-AllReady : AllReady nobody one_array two_reads
two_reads-AllReady =
    ((1 ∷ 2 ∷ 3 ∷ [], refl, omega arith), ((1 ∷ 2 ∷ 3 ∷ [], refl, omega arith), tt))

process-Routed_example :
    Routed
      (goes_all one_array two_reads)
      nobody
      one_array
      empty_queues
      (process two_reads empty_queues)
process-Routed_example =
    process-Routed two_reads nobody one_array empty_queues
      (empty_queues-AreStores one_array (λ a h. refl)) two_reads-AllReady

abbrev alone : Server
alone = record {
  clients = (3, create zeroed 3) ∷ [];
  accumulated_client_id = 4;
  current_client_count = 1;
  current_client_max = 1;
}

fresh-IsIdle : IsIdle (create zeroed 3)
unfolding create Queue.init
fresh-IsIdle = record {
  valid = unfold Queue.init in init-IsValid none;
  none_waits = refl;
  kept = omega arith;
}

alone-AllIdle : AllIdle alone.clients
unfolding create Queue.init lookup
alone-AllIdle k c found = elim (Bool-cases (3 == k)) [
  | inl here ↦
      let same : create zeroed 3 ≡ c = some-injective (rw here at found) in
      subst (λ c. IsIdle c × (c.id ≡ k)) same (fresh-IsIdle, ==→eq 3 k here)
  | inr there ↦ let nothing : none ≡ some c = rw there at found in cc
]

receive_run-Reported_example : Reported outside two_reads one_array empty_queues alone
unfolding empty_queues Queue.init create put lookup
receive_run-Reported_example =
    receive_run-Reported outside two_reads nobody one_array empty_queues alone
      (empty_queues-AreStores one_array (λ a h. refl)) two_reads-AllReady
      (
        (create zeroed 3, refl, omega arith, omega arith),
        ((create zeroed 3, refl, omega arith, omega arith), tt),
      )
      alone-AllIdle

-- The receive queue with two messages.
abbrev loaded :
    Routed
      (goes_all one_array two_reads)
      nobody
      one_array
      empty_queues
      (process two_reads empty_queues)
loaded =
    process-Routed two_reads nobody one_array empty_queues
      (empty_queues-AreStores one_array (λ a h. refl)) two_reads-AllReady

worker_round-Worked_example :
    Worked
      (receive outside)
      200
      loaded.owner'
      loaded.world
      loaded.queues.receive_queue
      alone
      (3, 1 ∷ 2 ∷ [])
      ((3, 1 ∷ 2 ∷ 3 ∷ []) ∷ [])
unfolding create empty_queues Queue.init put lookup
worker_round-Worked_example =
    worker_round-Worked (receive outside) 200 loaded.owner' loaded.world loaded.queues.receive_queue
      alone (3, 1 ∷ 2 ∷ []) ((3, 1 ∷ 2 ∷ 3 ∷ []) ∷ []) loaded.stores.clean
      (loaded.stores.stores receives) (loaded.seen receives)
      (λ p v shown loose same_received same_events. Received-Handles (
        receive-Received outside loaded.owner' p alone (create zeroed 3) 3 (1 ∷ 2 ∷ []) v loose
          shown (omega arith) (omega arith) refl fresh-IsIdle))
