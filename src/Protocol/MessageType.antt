-- ===== src/Protocol/MessageType.antt =====
-- MESSAGETYPE of IocpServer_1/MESSAGE_WRAPPER_generated.h.
use Prim.Native.String.{String}
use iocp_server.Base.{ℕ, Bool, List, [], ◌∷◌, ◌≡◌, refl, get_or, if◌then◌else◌}

pub data MessageType : Type 0 where
  type_begin : MessageType
  type_request_login : MessageType
  type_resopnse_login : MessageType
  type_request_regist : MessageType
  type_response_regist : MessageType
  type_request_room_create : MessageType
  type_response_room_create : MessageType
  type_request_room_entrance : MessageType
  type_response_room_entrance : MessageType
  type_request_room_leave : MessageType
  type_response_room_leave : MessageType
  type_request_send_message : MessageType
  type_response_send_message : MessageType
  type_notify_message : MessageType
  type_notify_roomlist : MessageType
  type_request_logout : MessageType
  type_response_logout : MessageType
  type_end : MessageType

abbrev pub code : MessageType → ℕ
code type_begin = 0
code type_request_login = 1
code type_resopnse_login = 2
code type_request_regist = 3
code type_response_regist = 4
code type_request_room_create = 5
code type_response_room_create = 6
code type_request_room_entrance = 7
code type_response_room_entrance = 8
code type_request_room_leave = 9
code type_response_room_leave = 10
code type_request_send_message = 11
code type_response_send_message = 12
code type_notify_message = 13
code type_notify_roomlist = 14
code type_request_logout = 15
code type_response_logout = 16
code type_end = 17

abbrev enum_values : List MessageType
enum_values =
    type_begin ∷ type_request_login ∷ type_resopnse_login ∷ type_request_regist
    ∷ type_response_regist ∷ type_request_room_create ∷ type_response_room_create
    ∷ type_request_room_entrance ∷ type_response_room_entrance ∷ type_request_room_leave
    ∷ type_response_room_leave ∷ type_request_send_message ∷ type_response_send_message
    ∷ type_notify_message ∷ type_notify_roomlist ∷ type_request_logout ∷ type_response_logout
    ∷ type_end ∷ []

-- Without the null pointer at the end.
abbrev enum_names : List String
enum_names =
    "BEGIN" ∷ "REQUEST_LOGIN" ∷ "RESOPNSE_LOGIN" ∷ "REQUEST_REGIST" ∷ "RESPONSE_REGIST"
    ∷ "REQUEST_ROOM_CREATE" ∷ "RESPONSE_ROOM_CREATE" ∷ "REQUEST_ROOM_ENTRANCE"
    ∷ "RESPONSE_ROOM_ENTRANCE" ∷ "REQUEST_ROOM_LEAVE" ∷ "RESPONSE_ROOM_LEAVE"
    ∷ "REQUEST_SEND_MESSAGE" ∷ "RESPONSE_SEND_MESSAGE" ∷ "NOTIFY_MESSAGE" ∷ "NOTIFY_ROOMLIST"
    ∷ "REQUEST_LOGOUT" ∷ "RESPONSE_LOGOUT" ∷ "END" ∷ []

-- `is_out_range` is `flatbuffers::IsOutRange`; the empty text stands for a read outside the array.
unfoldable pub enum_name : (is_out_range : ℕ → ℕ → ℕ → Bool) → ℕ → String
enum_name is_out_range e =
    if is_out_range e (code type_begin) (code type_end) then "" else get_or enum_names e ""

-- The array of values has each value at its own code.
values-code : (e : MessageType) → get_or enum_values (code e) type_begin ≡ e
values-code type_begin = refl
values-code type_request_login = refl
values-code type_resopnse_login = refl
values-code type_request_regist = refl
values-code type_response_regist = refl
values-code type_request_room_create = refl
values-code type_response_room_create = refl
values-code type_request_room_entrance = refl
values-code type_response_room_entrance = refl
values-code type_request_room_leave = refl
values-code type_response_room_leave = refl
values-code type_request_send_message = refl
values-code type_response_send_message = refl
values-code type_notify_message = refl
values-code type_notify_roomlist = refl
values-code type_request_logout = refl
values-code type_response_logout = refl
values-code type_end = refl
