-- ===== src/Protocol/Wrapper.antt =====
-- MESSAGE_WRAPPER of IocpServer_1/MESSAGE_WRAPPER_generated.h: the message's type, and its content as
-- a union of the sixteen tables.
use iocp_server.Base.{
  ℕ, zero, suc, ◌+◌, Bool, true, false, Option, none, some, List, ◌==◌, ltb, length, get_or,
  if◌then◌else◌,
}
use iocp_server.Protocol.Flatbuffers.{Reader, Writer, ◌and_then◌}
use iocp_server.Protocol.MessageContent
use iocp_server.Protocol.MessageContent.{
  MessageContent, content_request_login, content_response_login, content_request_regist,
  content_response_regist, content_request_room_create, content_response_room_create,
  content_request_room_entrance, content_response_room_entrance, content_request_room_leave,
  content_response_room_leave, content_request_send_message, content_response_send_message,
  content_notify_message, content_notify_roomlist, content_request_logout, content_response_logout,
}
use iocp_server.Protocol.Message.{
  Kind, verify_message, is_request_login, is_response_login, is_request_regist, is_response_regist,
  is_request_room_create, is_response_room_create, is_request_room_entrance,
  is_response_room_entrance, is_request_room_leave, is_response_room_leave, is_request_send_message,
  is_response_send_message, is_request_logout, is_response_logout, is_notify_message,
  is_notify_roomlist,
}

-- `MessageContentTraits<T>::enum_value`
abbrev pub enum_value : Kind → MessageContent
enum_value is_request_login = content_request_login
enum_value is_response_login = content_response_login
enum_value is_request_regist = content_request_regist
enum_value is_response_regist = content_response_regist
enum_value is_request_room_create = content_request_room_create
enum_value is_response_room_create = content_response_room_create
enum_value is_request_room_entrance = content_request_room_entrance
enum_value is_response_room_entrance = content_response_room_entrance
enum_value is_request_room_leave = content_request_room_leave
enum_value is_response_room_leave = content_response_room_leave
enum_value is_request_send_message = content_request_send_message
enum_value is_response_send_message = content_response_send_message
enum_value is_request_logout = content_request_logout
enum_value is_response_logout = content_response_logout
enum_value is_notify_message = content_notify_message
enum_value is_notify_roomlist = content_notify_roomlist

abbrev pub vt_message_type : ℕ
vt_message_type = 4

abbrev pub vt_content_type : ℕ
vt_content_type = 6

abbrev pub vt_content : ℕ
vt_content = 8

module _ {V : Type 0} (r : Reader V) where
  unfoldable pub message_type : ℕ → ℕ
  message_type this = r.get_field 4 this vt_message_type 0

  unfoldable pub content_type : ℕ → ℕ
  content_type this = r.get_field 1 this vt_content_type 0

  unfoldable pub content : ℕ → Option ℕ
  content this = r.get_pointer this vt_content

  -- `content_as<T>` and `content_as_T`, for each of the sixteen tables
  unfoldable pub content_as : Kind → ℕ → Option ℕ
  content_as k this =
      if content_type this == MessageContent.code (enum_value k) then content this else none

  -- `VerifyMessageContent`
  unfoldable pub verify_message_content : Option ℕ → ℕ → V → Bool × V
  verify_message_content obj type v =
      if type == 0
      then (true, v)
      else if type == 1
      then r.verify_table (verify_message r is_request_login) obj v
      else if type == 2
      then r.verify_table (verify_message r is_response_login) obj v
      else if type == 3
      then r.verify_table (verify_message r is_request_regist) obj v
      else if type == 4
      then r.verify_table (verify_message r is_response_regist) obj v
      else if type == 5
      then r.verify_table (verify_message r is_request_room_create) obj v
      else if type == 6
      then r.verify_table (verify_message r is_response_room_create) obj v
      else if type == 7
      then r.verify_table (verify_message r is_request_room_entrance) obj v
      else if type == 8
      then r.verify_table (verify_message r is_response_room_entrance) obj v
      else if type == 9
      then r.verify_table (verify_message r is_request_room_leave) obj v
      else if type == 10
      then r.verify_table (verify_message r is_response_room_leave) obj v
      else if type == 11
      then r.verify_table (verify_message r is_request_send_message) obj v
      else if type == 12
      then r.verify_table (verify_message r is_response_send_message) obj v
      else if type == 13
      then r.verify_table (verify_message r is_notify_message) obj v
      else if type == 14
      then r.verify_table (verify_message r is_notify_roomlist) obj v
      else if type == 15
      then r.verify_table (verify_message r is_request_logout) obj v
      else if type == 16
      then r.verify_table (verify_message r is_response_logout) obj v
      else (true, v)

  unfoldable pub verify : ℕ → V → Bool × V
  verify this =
      r.verify_table_start this
      and_then r.verify_field 4 this vt_message_type 4
      and_then r.verify_field 1 this vt_content_type 1
      and_then r.verify_offset this vt_content
      and_then verify_message_content (content this) (content_type this)
      and_then r.end_checks

  -- The loop of `VerifyMessageContentVector`, from index `i` on.
  unfoldable pub verify_from : List (Option ℕ) → List ℕ → ℕ → ℕ → V → Bool × V
  verify_from values types zero i v = (true, v)
  verify_from values types (suc fuel) i v =
      let rest = verify_from values types fuel (i + 1) in
      if ltb i (length values)
      then (verify_message_content (get_or values i none) (get_or types i 0) and_then rest) v
      else (true, v)

  -- `VerifyMessageContentVector`; a null pointer is `none`.
  unfoldable pub verify_message_content_vector :
      Option (List (Option ℕ)) → Option (List ℕ) → V → Bool × V
  verify_message_content_vector none none v = (true, v)
  verify_message_content_vector none (some types) v = (false, v)
  verify_message_content_vector (some values) none v = (false, v)
  verify_message_content_vector (some values) (some types) v =
      if length values == length types
      then verify_from values types (length values) 0 v
      else (false, v)

module _ {B : Type 0} (w : Writer B) where
  unfoldable pub create : ℕ → ℕ → ℕ → B → ℕ × B
  create message_type content_type content b =
      let (start, b0) = w.start_table b in
      let b1 = w.add_offset vt_content content b0 in
      let b2 = w.add_element 4 vt_message_type message_type 0 b1 in
      let b3 = w.add_element 1 vt_content_type content_type 0 b2 in w.end_table start b3
