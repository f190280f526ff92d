-- ===== src/Iocp.antt =====
-- IOCompletionPort of IocpServer_1/IOCompletionPort.h: start-up, the completion loop of `Process`,
-- and the workers. What Winsock answers is an argument.
pub mod Startup
pub mod PacketQueue
pub mod Signals
pub mod Slots
pub mod Filling
pub mod Destroying
pub mod Storing
pub mod Delivery
pub mod Routes
pub mod Rounds
pub mod Process
pub mod Copies
pub mod Settling
pub mod Working
pub mod Opened
pub mod Workers
pub mod System
pub mod Contract
pub mod Turns
pub mod Conserved
pub mod Reading
pub mod Catching
pub mod Interleaving
mod Tests
use iocp_server.Base.{
  ℕ, zero, suc, Bool, true, false, List, [], ◌∷◌, Option, none, some, ◌==◌, if◌then◌else◌, not,
  ◌&&◌,
}
use iocp_server.Overlapped.{
  CustomOverlapped, OperationType, op_default, op_accept, op_recv, op_send,
}
use iocp_server.Memory.{M, pure, ◌>>=◌, ◌>>◌}
use iocp_server.Packet.{Packet, default_packet, set_id, set_data, copy, destroy}
use iocp_server.Queue
use iocp_server.Queue.{CircleQueue}
use PacketQueue.{push_packet, front_packet, pop_packet}

-- The four queues between the completion loop and the workers.
pub record Queues : Type 0 where
  pub accept_queue : CircleQueue Packet
  pub send_queue : CircleQueue Packet
  pub receive_queue : CircleQueue Packet
  pub disconnect_queue : CircleQueue Packet

unfoldable pub empty_queues : Queues
empty_queues = record {
  accept_queue = Queue.init default_packet;
  send_queue = Queue.init default_packet;
  receive_queue = Queue.init default_packet;
  disconnect_queue = Queue.init default_packet;
}

-- What one call of `GetQueuedCompletionStatus` gives; a null `customOverlapped` is `none`.
pub record Completion : Type 0 where
  pub result : Bool
  pub bytes_transferred : ℕ
  pub custom_overlapped : Option CustomOverlapped

abbrev pub is_accept : OperationType → Bool
is_accept op_accept = true
is_accept op_default = false
is_accept op_recv = false
is_accept op_send = false

-- The four uses of `push`. The local packet is destroyed where the round ends.
unfoldable pub push_disconnect : Packet → Queues → M Queues
push_disconnect packet qs = do
  (pushed, q) ← push_packet packet qs.disconnect_queue
  destroy packet
  pure (record qs { disconnect_queue = q })

unfoldable pub push_accept : Packet → Queues → M Queues
push_accept packet qs = do
  (pushed, q) ← push_packet packet qs.accept_queue
  destroy packet
  pure (record qs { accept_queue = q })

unfoldable pub push_receive : Packet → Queues → M Queues
push_receive packet qs = do
  (pushed, q) ← push_packet packet qs.receive_queue
  destroy packet
  pure (record qs { receive_queue = q })

unfoldable pub push_send : Packet → Queues → M Queues
push_send packet qs = do
  (pushed, q) ← push_packet packet qs.send_queue
  destroy packet
  pure (record qs { send_queue = q })

-- `switch (type)`
unfoldable pub dispatch : OperationType → CustomOverlapped → ℕ → Queues → M Queues
dispatch op_default target bytes qs = pure qs
dispatch op_accept target bytes qs = push_accept (set_id default_packet target.id) qs
dispatch op_recv target bytes qs = do
  packet ← set_data default_packet target.id target.wsabuf.buf bytes
  push_receive packet qs
dispatch op_send target bytes qs = do
  packet ← set_data default_packet target.id target.wsabuf.buf bytes
  push_send packet qs

-- `bytesTransferred == 0 && type != operationType::OP_ACCEPT`
abbrev pub is_disconnect : ℕ → CustomOverlapped → Bool
is_disconnect bytes target = bytes == 0 && not (is_accept target.operation_type)

-- A round of the loop with a completion that names its context.
unfoldable pub complete : Bool → ℕ → CustomOverlapped → Queues → M Queues
complete true bytes target qs =
    if is_disconnect bytes target
    then push_disconnect (set_id default_packet target.id) qs
    else dispatch target.operation_type target bytes qs
complete false bytes target qs =
    if is_disconnect bytes target
    then push_disconnect (set_id default_packet target.id) qs
    else pure qs

-- One round of the loop of `Process`.
unfoldable pub process_round : Completion → Queues → M Queues
process_round c qs = elim c.custom_overlapped [
  | none ↦ pure qs
  | some target ↦ complete c.result c.bytes_transferred target qs
]

-- `while (mServerOn)`, for the completions that arrive while the server is on.
unfoldable pub process : List Completion → Queues → M Queues
process [] qs = pure qs
process (c ∷ cs) qs = do qs' ← process_round c qs; process cs qs'

-- One round of a worker with its queue: `callback` is `none` where no function is set. The packet
-- that `Front` returns is the callback's, and the one that `pop` returns is dropped.
module _ {S : Type 0} where
  unfoldable pub call_front :
      (Packet → S → M S) → CircleQueue Packet → S → M (CircleQueue Packet × S)
  call_front callback q s = do
    packet ← front_packet q
    s' ← callback packet s
    destroy packet
    (dropped, q') ← pop_packet q
    destroy dropped
    pure (q', s')

  unfoldable pub worker_round :
      Option (Packet → S → M S) → CircleQueue Packet → S → M (CircleQueue Packet × S)
  worker_round callback q s =
      if Queue.empty q
      then pure (q, s)
      else elim callback [ none ↦ pure (q, s) | some f ↦ call_front f q s ]

  -- `while (mServerOn)` of a worker, for as many rounds as the server is on.
  unfoldable pub worker :
      Option (Packet → S → M S) → ℕ → CircleQueue Packet → S → M (CircleQueue Packet × S)
  worker callback zero q s = pure (q, s)
  worker callback (suc n) q s = do (q', s') ← worker_round callback q s; worker callback n q' s'
