-- ===== src/Protocol/RequestLogout.antt =====
-- REQUEST_LOGOUT of IocpServer_1/MESSAGE_WRAPPER_generated.h.
use iocp_server.Base.{Bool, ℕ}
use iocp_server.Protocol.Flatbuffers.{Reader, Writer, ◌and_then◌}

abbrev pub vt_id : ℕ
vt_id = 4

module _ {V : Type 0} (r : Reader V) where
  unfoldable pub id : ℕ → ℕ
  id this = r.get_field 4 this vt_id 0

  unfoldable pub verify : ℕ → V → Bool × V
  verify this =
      r.verify_table_start this and_then r.verify_field 4 this vt_id 4 and_then r.end_checks

module _ {B : Type 0} (w : Writer B) where
  unfoldable pub add_id : ℕ → B → B
  add_id id = w.add_element 4 vt_id id 0

  unfoldable pub create : ℕ → B → ℕ × B
  create id b = let (start, b0) = w.start_table b in let b1 = add_id id b0 in w.end_table start b1
