-- ===== src/Pipeline/Tests/Reads.antt =====
-- The theorems on the server's reads, at visits of client 3 whose reads are each asked for.
use iocp_server.Base.{◌≡◌, refl, true, List, [], ◌∷◌, some, arith}
use iocp_server.Queue
use iocp_server.Queue.Fifo.{put}
use iocp_server.Client.{accepting}
use iocp_server.Iocp.Delivery.{accepts, receives, disconnects}
use iocp_server.Iocp.Routes.{views}
use iocp_server.Iocp.System.{Turn, fills, completes, works, AreTurns}
use iocp_server.Iocp.{empty_queues}
use iocp_server.Iocp.Opened.{nobody, empty_queues-AreStores}
use iocp_server.Iocp.Reading.{arrived, AreAsked}
use iocp_server.Pipeline.Serving.{Fits}
use iocp_server.Pipeline.Reads.{
  AllRead, echo_run-AllRead, AllHandled, echo_run-AllHandled, to_catch_up,
}
use iocp_server.Pipeline.Tests.{outside, one_array, read, alone}
use iocp_server.Pipeline.Tests.Echo.{unset_callbacks, nothing_waits, alone-IsSteady}

-- Client 3 connects, sends two bytes, sends three more once these are handled, and leaves.
abbrev orderly : List Turn
orderly =
    completes
      (record { result = true; bytes_transferred = 0; custom_overlapped = some (accepting 3) })
    ∷ works accepts
    ∷ fills 3 (7 ∷ 8 ∷ [])
    ∷ completes (read 2)
    ∷ works receives
    ∷ fills 3 (9 ∷ 10 ∷ 11 ∷ [])
    ∷ completes (read 3)
    ∷ works receives
    ∷ completes (read 0)
    ∷ works disconnects
    ∷ []

orderly-AreTurns : AreTurns Fits one_array.received orderly
orderly-AreTurns = (
  (tt, tt),
  (
    tt,
    (
      tt,
      (
        ((7 ∷ 8 ∷ [], refl, omega arith), (omega arith, omega arith)),
        (
          tt,
          (
            tt,
            (
              ((9 ∷ 10 ∷ 11 ∷ [], refl, omega arith), (omega arith, omega arith)),
              (tt, ((tt, tt), (tt, tt))),
            ),
          ),
        ),
      ),
    ),
  ),
)

orderly-AreAsked : AreAsked 0 orderly one_array.received (views one_array empty_queues)
unfolding empty_queues Queue.init put
orderly-AreAsked = ground arith

orderly-arrived : arrived orderly one_array.received ≡ (3, 7 ∷ 8 ∷ []) ∷ (3, 9 ∷ 10 ∷ 11 ∷ []) ∷ []
orderly-arrived = refl

echo_run-AllRead_example : AllRead outside unset_callbacks orderly one_array empty_queues alone
unfolding empty_queues Queue.init put
echo_run-AllRead_example =
    echo_run-AllRead outside unset_callbacks orderly nobody one_array empty_queues alone 0
      (empty_queues-AreStores one_array (λ a h. refl)) nothing_waits alone-IsSteady orderly-AreTurns
      orderly-AreAsked (omega arith)

-- Client 3's bytes have arrived, and the receive worker has not seen them.
abbrev hasty : List Turn
hasty =
    completes
      (record { result = true; bytes_transferred = 0; custom_overlapped = some (accepting 3) })
    ∷ works accepts
    ∷ fills 3 (7 ∷ 8 ∷ [])
    ∷ completes (read 2)
    ∷ []

hasty-catches_up : to_catch_up hasty one_array empty_queues ≡ works receives ∷ []
unfolding empty_queues Queue.init put
hasty-catches_up = refl

echo_run-AllHandled_example :
    AllHandled outside unset_callbacks hasty
      (to_catch_up hasty one_array empty_queues)
      one_array
      empty_queues
      alone
unfolding empty_queues Queue.init put
echo_run-AllHandled_example =
    echo_run-AllHandled outside unset_callbacks hasty nobody one_array empty_queues alone 0
      (empty_queues-AreStores one_array (λ a h. refl)) nothing_waits alone-IsSteady
      ((tt, tt), (tt, (tt, (((7 ∷ 8 ∷ [], refl, omega arith), (omega arith, omega arith)), tt))))
      (ground arith) (omega arith)
