-- ===== src/Packet.antt =====
-- The class `Packet` of IocpServer_1/CustomOverlapped.h: an owner of one heap block.
pub mod Laws
mod Tests
use iocp_server.Base.{ℕ, Bool, true, false}
use iocp_server.Overlapped.{Address, null, block}
use iocp_server.Memory.{M, pure, ◌>>=◌, ◌>>◌, new_chars, copy_memory, delete_chars}

pub record Packet : Type 0 where
  pub client_id : ℕ
  pub buffer : Address
  pub data_size : ℕ

abbrev pub default_packet : Packet
default_packet = record { client_id = 0; buffer = null; data_size = 0 }

-- `new char[n]` filled by `CopyMemory`.
unfoldable pub duplicate : Address → ℕ → M Address
duplicate null n = pure null
duplicate from n = do a ← new_chars n; copy_memory (block a) from n; pure (block a)

-- The copy constructor.
unfoldable pub copy : Packet → M Packet
unfolding duplicate
copy other = do
  b ← duplicate other.buffer other.data_size
  pure (record { client_id = other.client_id; buffer = b; data_size = other.data_size })

-- `operator=`; `same` is `this == &other`.
unfoldable pub assign : Bool → Packet → Packet → M Packet
unfolding duplicate
assign same self other = elim same [
  | true ↦ pure self
  | false ↦ do
    delete_chars self.buffer
    b ← duplicate other.buffer other.data_size
    pure (record { client_id = other.client_id; buffer = b; data_size = other.data_size })
]

-- `Set(clientID)`
unfoldable pub set_id : Packet → ℕ → Packet
set_id self client_id = record self { client_id = client_id }

-- `Set(clientID, targetBuffer, dataSize)`
unfoldable pub set_data : Packet → ℕ → Address → ℕ → M Packet
set_data self client_id target data_size = do
  delete_chars self.buffer
  a ← new_chars data_size
  copy_memory (block a) target data_size
  pure (record { client_id = client_id; buffer = block a; data_size = data_size })

-- The destructor.
unfoldable pub destroy : Packet → M (Unit {0})
destroy self = delete_chars self.buffer
