-- ===== src/Protocol/NotifyMessage.antt =====
-- NOTIFY_MESSAGE of IocpServer_1/MESSAGE_WRAPPER_generated.h.
use iocp_server.Base.{Bool, List, Option, ℕ}
use iocp_server.Protocol.Flatbuffers.{Reader, Writer, ◌and_then◌, string_offset}

abbrev pub vt_id : ℕ
vt_id = 4

abbrev pub vt_content : ℕ
vt_content = 6

module _ {V : Type 0} (r : Reader V) where
  unfoldable pub id : ℕ → ℕ
  id this = r.get_field 4 this vt_id 0

  unfoldable pub content : ℕ → Option ℕ
  content this = r.get_pointer this vt_content

  unfoldable pub verify : ℕ → V → Bool × V
  verify this =
      r.verify_table_start this
      and_then r.verify_field 4 this vt_id 4
      and_then r.verify_offset this vt_content
      and_then r.verify_string (content this)
      and_then r.end_checks

module _ {B : Type 0} (w : Writer B) where
  unfoldable pub add_id : ℕ → B → B
  add_id id = w.add_element 4 vt_id id 0

  unfoldable pub add_content : ℕ → B → B
  add_content content = w.add_offset vt_content content

  unfoldable pub create : ℕ → ℕ → B → ℕ × B
  create id content b =
      let (start, b0) = w.start_table b in
      let b1 = add_content content b0 in let b2 = add_id id b1 in w.end_table start b2

  unfoldable create_direct : ℕ → Option (List ℕ) → B → ℕ × B
  create_direct id content b =
      let (content_offset, c0) = string_offset w content b in create id content_offset c0
