-- ===== src/Client.antt =====
-- ClientDataSet of IocpServer_1/ClientDataSet.h: one client's connection, its buffering of received
-- bytes, and its queue of sends. A method takes the client and returns it beside its result.
pub mod Frames
pub mod Cutting
pub mod Handling
pub mod Receive
pub mod Counting
pub mod Stream
pub mod Send
pub mod Dangling
mod Tests
use iocp_server.Base.{
  ℕ, zero, suc, ◌≡◌, Bool, true, false, List, [], ◌∷◌, ◌++◌, Option, none, some, length, take, drop,
  ltb, leb, ◌==◌, if◌then◌else◌, not,
}
use iocp_server.Overlapped.{
  CustomOverlapped, Wsabuf, zeroed, op_accept, op_recv, op_send, Address, accept_buf, receive_buf,
  max_sock_acceptbuf, max_sock_recvbuf,
}
use iocp_server.Memory.{
  World, Event, accept_ex, wsa_recv, wsa_send, handled, sent, M, pure, ◌>>=◌, ◌>>◌, emit,
  copy_memory, read_chars, delete_chars, new_context, load_context, delete_context,
}
use iocp_server.Queue
use iocp_server.Queue.{CircleQueue}

-- `mBufferSize`
abbrev pub buffer_size : ℕ
buffer_size = 10

-- `DataPacket`. Its `buffer` is a block of its own that is filled once and then only read, so it is
-- taken as the bytes in it.
pub record DataPacket : Type 0 where
  pub id : ℕ
  pub buffer : List ℕ
  pub data_size : ℕ

-- A pointer in a queue is `none` where it is null or was never set.
pub record Client : Type 0 where
  pub receive_data_queue : CircleQueue (Option DataPacket)
  pub send_data_queue : CircleQueue (Option ℕ)
  pub receive_buffer : List ℕ
  pub id : ℕ
  pub is_connect : Bool
  pub accept_context : CustomOverlapped
  pub receive_context : CustomOverlapped
  pub send_context : CustomOverlapped

-- The constructor; `unset` is what the three contexts hold before anything is written to them.
unfoldable pub create : CustomOverlapped → ℕ → Client
create unset id = record {
  receive_data_queue = Queue.init none;
  send_data_queue = Queue.init none;
  receive_buffer = [];
  id = id;
  is_connect = false;
  accept_context = unset;
  receive_context = unset;
  send_context = unset;
}

-- The context that `TryAccept` posts.
abbrev pub accepting : ℕ → CustomOverlapped
accepting id = record {
  wsabuf = record { len = max_sock_acceptbuf; buf = accept_buf id };
  operation_type = op_accept;
  id = id;
}

-- `error_code` is what `getsockopt` reports for the socket.
unfoldable pub try_accept : ℕ → Client → M (Bool × Client)
try_accept error_code c =
    if c.is_connect
    then pure (false, c)
    else if error_code == 0
    then (do
      emit (accept_ex (accepting c.id))
      pure (true, record c { accept_context = accepting c.id }))
    else pure (false, c)

-- The context that `ReceiveReady` posts.
abbrev pub receiving : ℕ → CustomOverlapped
receiving id = record {
  wsabuf = record { len = max_sock_recvbuf; buf = receive_buf id };
  operation_type = op_recv;
  id = id;
}

unfoldable pub receive_ready : Client → M (Bool × Client)
receive_ready c =
    if c.is_connect
    then (do
      emit (wsa_recv (receiving c.id))
      pure (true, record c { receive_context = receiving c.id }))
    else pure (false, c)

unfoldable pub feedback_accept : Bool → Client → M Client
feedback_accept feedback c =
    let c' = record c { is_connect = feedback } in
    if feedback then (do (ready, c'') ← receive_ready c'; pure c'') else pure c'

-- `while (mReceiveBuffer.size() > mBufferSize)` of `FeedBack_Receive`: it cuts the buffer into
-- packets. A packet that the full queue refuses is dropped.
unfoldable pub cut_packets : ℕ → Client → Client
cut_packets zero c = c
cut_packets (suc fuel) c =
    let packet : DataPacket = record {
      id = c.id;
      buffer = take buffer_size c.receive_buffer;
      data_size = buffer_size;
    } in
    let rest = cut_packets fuel (record c {
      receive_data_queue = (Queue.push c.receive_data_queue (some packet)).1;
      receive_buffer = drop buffer_size c.receive_buffer;
    }) in
    if ltb buffer_size (length c.receive_buffer) then rest else c

-- `ReceiveInternalWork` from behind its `pop`: the packet read from the front is handled, and `again`
-- is the recursive call. A null pointer is not dereferenced.
unfoldable pub handle_packet : (Client → M Client) → Option DataPacket → Client → M Client
handle_packet again none c = λ w. none
handle_packet again (some packet) c = do
  emit (handled packet.id (take packet.data_size packet.buffer))
  (if Queue.empty c.receive_data_queue
      then (do (ready, c') ← receive_ready c; pure c')
      else again c)

-- `ReceiveInternalWork`, with a bound on the depth of its recursion.
unfoldable pub receive_internal_work : ℕ → Client → M Client
receive_internal_work zero c = λ w. none
receive_internal_work (suc fuel) c =
    handle_packet (receive_internal_work fuel) (Queue.front none c.receive_data_queue)
      (record c { receive_data_queue = (Queue.pop none c.receive_data_queue).1 })

-- `FeedBack_Receive` of the `data_size` bytes behind `message_buff`. The loop makes at most as many
-- rounds as there are bytes, and the queue holds fewer packets than it has slots.
unfoldable pub feedback_receive : ℕ → Address → Client → M Client
feedback_receive data_size message_buff c = do
  bytes ← read_chars message_buff data_size
  let grown = record c { receive_buffer = c.receive_buffer ++ bytes }
  let cut = cut_packets (length grown.receive_buffer) grown
  (if Queue.empty cut.receive_data_queue
      then (do (ready, c') ← receive_ready cut; pure c')
      else receive_internal_work Queue.max_queue_size cut)

-- `WSASend` of a buffer, with the context that a pointer names.
unfoldable pub post_send : Wsabuf → Option ℕ → M (Unit {0})
post_send buffer none = λ w. none
post_send buffer (some context) = emit (wsa_send buffer context)

-- `SendInternalWork`. The buffer handed to `WSASend` is that of `mSendContext`.
unfoldable pub send_internal_work : Client → M (Unit {0})
send_internal_work c = post_send c.send_context.wsabuf (Queue.front none c.send_data_queue)

-- `SendRequest` behind its test of the connection. The context is zeroed and filled in; the copy is
-- of the caller's buffer onto itself.
unfoldable pub send_connected : ℕ → Address → Client → M (Bool × Client)
send_connected data_size message_buff c = do
  context ← new_context (record {
    wsabuf = record { len = data_size; buf = message_buff };
    operation_type = op_send;
    id = c.id;
  })
  copy_memory message_buff message_buff data_size
  let c' = record c { send_data_queue = (Queue.push c.send_data_queue (some context)).1 }
  (if Queue.size c'.send_data_queue == 1 then send_internal_work c' else pure tt)
  pure (true, c')

unfoldable pub send_request : ℕ → Address → Client → M (Bool × Client)
send_request data_size message_buff c =
    if c.is_connect then send_connected data_size message_buff c else pure (false, c)

-- `FeedBack_Send` from behind its `pop`, with the pointer read from the front.
unfoldable pub release_request : Option ℕ → Client → M Client
release_request pointer c = do
  context ← load_context pointer
  bytes ← read_chars context.wsabuf.buf context.wsabuf.len
  emit (sent c.id bytes)
  delete_chars context.wsabuf.buf
  delete_context pointer
  (if Queue.empty c.send_data_queue then pure tt else send_internal_work c)
  pure c

unfoldable pub feedback_send : Client → M Client
feedback_send c =
    release_request (Queue.front none c.send_data_queue)
      (record c { send_data_queue = (Queue.pop none c.send_data_queue).1 })
