-- ===== src/Overlapped.antt =====
-- The operation types, buffer sizes and `CustomOverlapped` of IocpServer_1/CustomOverlapped.h.
-- The fields of `OVERLAPPED` belong to the operating system and are left out.
use iocp_server.Base.{ℕ}

pub data OperationType : Type 0 where
  op_default op_accept op_recv op_send : OperationType

abbrev pub max_sock_acceptbuf : ℕ
max_sock_acceptbuf = 64

abbrev pub max_sock_recvbuf : ℕ
max_sock_recvbuf = 256

abbrev pub max_sock_sendbuf : ℕ
max_sock_sendbuf = 4096

-- Where a `char*` points: nowhere, to a block of the heap, or to an array inside the client with
-- this identifier.
pub data Address : Type 0 where
  null : Address
  block : ℕ → Address
  accept_buf receive_buf : (id : ℕ) → Address

pub record Wsabuf : Type 0 where
  pub len : ℕ
  pub buf : Address

pub record CustomOverlapped : Type 0 where
  pub wsabuf : Wsabuf
  pub operation_type : OperationType
  pub id : ℕ

-- What `ZeroMemory` leaves.
abbrev pub zeroed : CustomOverlapped
zeroed = record { wsabuf = record { len = 0; buf = null }; operation_type = op_default; id = 0 }

-- The copy constructor: the buffer is shared, not copied.
unfoldable pub copy_overlapped : CustomOverlapped → CustomOverlapped
copy_overlapped other = record {
  wsabuf = other.wsabuf;
  operation_type = other.operation_type;
  id = other.id;
}
