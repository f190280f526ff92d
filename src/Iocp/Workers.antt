-- ===== src/Iocp/Workers.antt =====
-- The callbacks of IOCompletionPort.h, and a round of each of its four workers.
use iocp_server.Base.{Option, some}
use iocp_server.Memory.{M, pure, ◌>>=◌}
use iocp_server.Packet.{Packet}
use iocp_server.Iocp.{Queues, worker_round}

pub record Callbacks (S : Type 0) : Type 0 where
  pub accept_callback : Option (Packet → S → M S)
  pub send_callback : Option (Packet → S → M S)
  pub receive_callback : Option (Packet → S → M S)
  pub disconnect_callback : Option (Packet → S → M S)

module _ {S : Type 0} where
  unfoldable pub setting :
      (Packet → S → M S)
      → (Packet → S → M S)
      → (Packet → S → M S)
      → (Packet → S → M S)
      → Callbacks S
      → Callbacks S
  setting accepting receiving sending disconnecting cbs = record cbs {
    accept_callback = some accepting;
    receive_callback = some receiving;
    send_callback = some sending;
    disconnect_callback = some disconnecting;
  }

  unfoldable pub accept_worker : Callbacks S → Queues → S → M (Queues × S)
  accept_worker cbs qs s = do
    (q, s') ← worker_round cbs.accept_callback qs.accept_queue s
    pure (record qs { accept_queue = q }, s')

  unfoldable pub send_worker : Callbacks S → Queues → S → M (Queues × S)
  send_worker cbs qs s = do
    (q, s') ← worker_round cbs.send_callback qs.send_queue s
    pure (record qs { send_queue = q }, s')

  unfoldable pub receive_worker : Callbacks S → Queues → S → M (Queues × S)
  receive_worker cbs qs s = do
    (q, s') ← worker_round cbs.receive_callback qs.receive_queue s
    pure (record qs { receive_queue = q }, s')

  unfoldable pub disconnect_worker : Callbacks S → Queues → S → M (Queues × S)
  disconnect_worker cbs qs s = do
    (q, s') ← worker_round cbs.disconnect_callback qs.disconnect_queue s
    pure (record qs { disconnect_queue = q }, s')
