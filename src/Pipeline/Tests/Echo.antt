-- ===== src/Pipeline/Tests/Echo.antt =====
-- The theorems on the whole server, at the visit of client 3.
use iocp_server.Base.{◌≡◌, refl, true, List, [], ◌∷◌, none, some, arith}
use iocp_server.Overlapped.{zeroed}
use iocp_server.Queue
use iocp_server.Queue.Fifo.{put}
use iocp_server.Client.{create}
use iocp_server.Server.{Server}
use iocp_server.Client.{accepting}
use iocp_server.Client.Frames.{All}
use iocp_server.Iocp.Delivery.{accepts, sends, receives, disconnects}
use iocp_server.Iocp.Routes.{views}
use iocp_server.Iocp.Workers.{Callbacks}
use iocp_server.Iocp.System.{Turn, fills, completes, works, run, follow, AreTurns}
use iocp_server.Iocp.Turns.{Turned}
use iocp_server.Iocp.Interleaving.{set}
use iocp_server.Pipeline.Serving.{Fits, handler}
use iocp_server.Pipeline.Stranded.{Stranded, FitsStranded, run-Stranded}
use iocp_server.Pipeline.Echo.{echo_run-Turned}
use iocp_server.Server.Table.{lookup}
use iocp_server.Iocp.{empty_queues}
use iocp_server.Iocp.Opened.{nobody, empty_queues-AreStores}
use iocp_server.Pipeline.Tests.{outside, one_array, read, alone, fresh-IsIdle}
use iocp_server.Iocp.System.{calls, AllFit}
use iocp_server.Iocp.Conserved.{taken}
use iocp_server.Pipeline.Steady.{IsSteady}
use iocp_server.Pipeline.Serving.{echo_contract}
use iocp_server.Pipeline.Echo.{Echoed, echo_run-Echoed}

abbrev pub unset_callbacks : Callbacks Server
unset_callbacks = record {
  accept_callback = none;
  send_callback = none;
  receive_callback = none;
  disconnect_callback = none;
}

-- Client 3 connects, sends two bytes that are handled while three more arrive, and leaves.
abbrev visit : List Turn
visit =
    completes
      (record { result = true; bytes_transferred = 0; custom_overlapped = some (accepting 3) })
    ∷ works accepts
    ∷ fills 3 (7 ∷ 8 ∷ [])
    ∷ completes (read 2)
    ∷ fills 3 (9 ∷ 10 ∷ 11 ∷ [])
    ∷ completes (read 3)
    ∷ works receives
    ∷ completes (read 0)
    ∷ works receives
    ∷ works disconnects
    ∷ []

visit-AreTurns : AreTurns Fits one_array.received visit
visit-AreTurns = (
  (tt, tt),
  (
    tt,
    (
      tt,
      (
        ((7 ∷ 8 ∷ [], refl, omega arith), (omega arith, omega arith)),
        (
          tt,
          (
            ((9 ∷ 10 ∷ 11 ∷ [], refl, omega arith), (omega arith, omega arith)),
            (tt, ((tt, tt), (tt, (tt, tt)))),
          ),
        ),
      ),
    ),
  ),
)

pub nothing_waits : AllFit Fits (views one_array empty_queues)
unfolding empty_queues Queue.init
nothing_waits k = elim k as (λ k. All (Fits k) (views one_array empty_queues k)) [
  | accepts ↦ tt
  | sends ↦ tt
  | receives ↦ tt
  | disconnects ↦ tt
]

pub alone-IsSteady : IsSteady alone
unfolding create
alone-IsSteady = record {
  at_rest = ((fresh-IsIdle, refl), tt);
  issued = (omega arith, tt);
  in_range = omega arith;
}

echo_run-Turned_example :
    Turned echo_contract
      (follow visit one_array.received (views one_array empty_queues))
      (calls visit one_array.received (views one_array empty_queues))
      empty_queues
      alone
      one_array
      (run (set (handler outside) unset_callbacks) visit empty_queues alone)
echo_run-Turned_example =
    echo_run-Turned outside unset_callbacks visit nobody one_array empty_queues alone
      (empty_queues-AreStores one_array (λ a h. refl)) nothing_waits alone-IsSteady visit-AreTurns

echo_run-Echoed_example : Echoed outside unset_callbacks visit one_array empty_queues alone
echo_run-Echoed_example =
    echo_run-Echoed outside unset_callbacks visit nobody one_array empty_queues alone
      (empty_queues-AreStores one_array (λ a h. refl)) nothing_waits alone-IsSteady visit-AreTurns

-- The visit's reads are all handled.
visit-taken :
    taken receives (calls visit one_array.received (views one_array empty_queues))
    ≡ (3, 7 ∷ 8 ∷ []) ∷ (3, 9 ∷ 10 ∷ 11 ∷ []) ∷ []
unfolding empty_queues Queue.init put
visit-taken = refl

-- Client 3 is connected, and there is no other.
abbrev full : Server
unfolding create
full = record alone { clients = (3, record (create zeroed 3) { is_connect = true }) ∷ [] }

abbrev farewell : List Turn
farewell =
    fills 3 (7 ∷ 8 ∷ [])
    ∷ completes (read 2)
    ∷ completes (read 0)
    ∷ works disconnects
    ∷ works receives
    ∷ []

run-Stranded_example : Stranded outside unset_callbacks farewell one_array empty_queues full
unfolding create empty_queues Queue.init lookup
run-Stranded_example =
    run-Stranded outside unset_callbacks farewell nobody one_array empty_queues full
      (empty_queues-AreStores one_array (λ a h. refl))
      (λ k. elim k as (λ k. All (FitsStranded k) (views one_array empty_queues k)) [
        | accepts ↦ tt
        | sends ↦ tt
        | receives ↦ tt
        | disconnects ↦ tt
      ])
      (
        record {
          at_rest = (
            (
              record {
                valid = fresh-IsIdle.valid;
                none_waits = fresh-IsIdle.none_waits;
                kept = fresh-IsIdle.kept;
              },
              refl,
            ),
            tt,
          );
          issued = (omega arith, tt);
          in_range = omega arith;
        },
        (refl, tt),
      )
      (
        tt,
        (((7 ∷ 8 ∷ [], refl, omega arith), (omega arith, omega arith)), ((tt, tt), (tt, (tt, tt)))),
      )
