-- ===== src/Protocol/RequestRoomCreate.antt =====
-- REQUEST_ROOM_CREATE of IocpServer_1/MESSAGE_WRAPPER_generated.h.
use iocp_server.Base.{Bool, List, Option, ℕ}
use iocp_server.Protocol.Flatbuffers.{Reader, Writer, ◌and_then◌, string_offset}

abbrev pub vt_id : ℕ
vt_id = 4

abbrev pub vt_room_name : ℕ
vt_room_name = 6

abbrev pub vt_room_password : ℕ
vt_room_password = 8

module _ {V : Type 0} (r : Reader V) where
  unfoldable pub id : ℕ → ℕ
  id this = r.get_field 4 this vt_id 0

  unfoldable pub room_name : ℕ → Option ℕ
  room_name this = r.get_pointer this vt_room_name

  unfoldable pub room_password : ℕ → Option ℕ
  room_password this = r.get_pointer this vt_room_password

  unfoldable pub verify : ℕ → V → Bool × V
  verify this =
      r.verify_table_start this
      and_then r.verify_field 4 this vt_id 4
      and_then r.verify_offset this vt_room_name
      and_then r.verify_string (room_name this)
      and_then r.verify_offset this vt_room_password
      and_then r.verify_string (room_password this)
      and_then r.end_checks

module _ {B : Type 0} (w : Writer B) where
  unfoldable pub add_id : ℕ → B → B
  add_id id = w.add_element 4 vt_id id 0

  unfoldable pub add_room_name : ℕ → B → B
  add_room_name room_name = w.add_offset vt_room_name room_name

  unfoldable pub add_room_password : ℕ → B → B
  add_room_password room_password = w.add_offset vt_room_password room_password

  unfoldable pub create : ℕ → ℕ → ℕ → B → ℕ × B
  create id room_name room_password b =
      let (start, b0) = w.start_table b in
      let b1 = add_room_password room_password b0 in
      let b2 = add_room_name room_name b1 in let b3 = add_id id b2 in w.end_table start b3

  unfoldable create_direct : ℕ → Option (List ℕ) → Option (List ℕ) → B → ℕ × B
  create_direct id room_name room_password b =
      let (room_name_offset, c0) = string_offset w room_name b in
      let (room_password_offset, c1) = string_offset w room_password c0 in
      create id room_name_offset room_password_offset c1
