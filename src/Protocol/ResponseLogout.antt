-- ===== src/Protocol/ResponseLogout.antt =====
-- RESPONSE_LOGOUT of IocpServer_1/MESSAGE_WRAPPER_generated.h.
use iocp_server.Base.{Bool, not, ℕ, ◌==◌}
use iocp_server.Protocol.Flatbuffers.{Reader, Writer, ◌and_then◌, byte}

abbrev pub vt_feedback : ℕ
vt_feedback = 4

module _ {V : Type 0} (r : Reader V) where
  unfoldable pub feedback : ℕ → Bool
  feedback this = not (r.get_field 1 this vt_feedback 0 == 0)

  unfoldable pub verify : ℕ → V → Bool × V
  verify this =
      r.verify_table_start this and_then r.verify_field 1 this vt_feedback 1 and_then r.end_checks

module _ {B : Type 0} (w : Writer B) where
  unfoldable pub add_feedback : Bool → B → B
  add_feedback feedback = w.add_element 1 vt_feedback (byte feedback) 0

  unfoldable pub create : Bool → B → ℕ × B
  create feedback b =
      let (start, b0) = w.start_table b in let b1 = add_feedback feedback b0 in w.end_table start b1
