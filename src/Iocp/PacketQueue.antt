-- ===== src/Iocp/PacketQueue.antt =====
-- LockFreeCircleQueue of packets, as IOCompletionPort.h uses it: `Packet` has no move operations, so
-- each `std::move` of a packet makes a deep copy.
use iocp_server.Base.{Bool, true, false, get_or, set, ◌==◌, if◌then◌else◌}
use iocp_server.Memory.{M, pure, ◌>>=◌}
use iocp_server.Packet.{Packet, default_packet, copy, assign}
use iocp_server.Queue.{CircleQueue, next_index}

-- `push`
unfoldable pub push_packet : Packet → CircleQueue Packet → M (Bool × CircleQueue Packet)
push_packet packet q = if next_index q.input_index == q.output_index then pure (false, q) else (do
  slot ← assign false (get_or q.buffer q.input_index default_packet) packet
  pure (
    true,
    record q { buffer = set q.buffer q.input_index slot; input_index = next_index q.input_index },
  ))

-- `Front`
unfoldable pub front_packet : CircleQueue Packet → M Packet
front_packet q = copy (get_or q.buffer q.output_index default_packet)

-- `pop`: the slot keeps its packet until it is overwritten.
unfoldable pub pop_packet : CircleQueue Packet → M (Packet × CircleQueue Packet)
pop_packet q = if q.output_index == q.input_index then pure (default_packet, q) else (do
  packet ← copy (get_or q.buffer q.output_index default_packet)
  pure (packet, record q { output_index = next_index q.output_index }))
