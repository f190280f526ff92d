-- ===== src/Protocol/MessageContent.antt =====
-- MessageContent of IocpServer_1/MESSAGE_WRAPPER_generated.h.
use Prim.Native.String.{String}
use iocp_server.Base.{ℕ, Bool, List, [], ◌∷◌, ◌≡◌, refl, get_or, if◌then◌else◌}

pub data MessageContent : Type 0 where
  content_none : MessageContent
  content_request_login : MessageContent
  content_response_login : MessageContent
  content_request_regist : MessageContent
  content_response_regist : MessageContent
  content_request_room_create : MessageContent
  content_response_room_create : MessageContent
  content_request_room_entrance : MessageContent
  content_response_room_entrance : MessageContent
  content_request_room_leave : MessageContent
  content_response_room_leave : MessageContent
  content_request_send_message : MessageContent
  content_response_send_message : MessageContent
  content_notify_message : MessageContent
  content_notify_roomlist : MessageContent
  content_request_logout : MessageContent
  content_response_logout : MessageContent

abbrev pub code : MessageContent → ℕ
code content_none = 0
code content_request_login = 1
code content_response_login = 2
code content_request_regist = 3
code content_response_regist = 4
code content_request_room_create = 5
code content_response_room_create = 6
code content_request_room_entrance = 7
code content_response_room_entrance = 8
code content_request_room_leave = 9
code content_response_room_leave = 10
code content_request_send_message = 11
code content_response_send_message = 12
code content_notify_message = 13
code content_notify_roomlist = 14
code content_request_logout = 15
code content_response_logout = 16

abbrev enum_values : List MessageContent
enum_values =
    content_none ∷ content_request_login ∷ content_response_login ∷ content_request_regist
    ∷ content_response_regist ∷ content_request_room_create ∷ content_response_room_create
    ∷ content_request_room_entrance ∷ content_response_room_entrance ∷ content_request_room_leave
    ∷ content_response_room_leave ∷ content_request_send_message ∷ content_response_send_message
    ∷ content_notify_message ∷ content_notify_roomlist ∷ content_request_logout
    ∷ content_response_logout ∷ []

-- Without the null pointer at the end.
abbrev enum_names : List String
enum_names =
    "NONE" ∷ "REQUEST_LOGIN" ∷ "RESPONSE_LOGIN" ∷ "REQUEST_REGIST" ∷ "RESPONSE_REGIST"
    ∷ "REQUEST_ROOM_CREATE" ∷ "RESPONSE_ROOM_CREATE" ∷ "REQUEST_ROOM_ENTRANCE"
    ∷ "RESPONSE_ROOM_ENTRANCE" ∷ "REQUEST_ROOM_LEAVE" ∷ "RESPONSE_ROOM_LEAVE"
    ∷ "REQUEST_SEND_MESSAGE" ∷ "RESPONSE_SEND_MESSAGE" ∷ "NOTIFY_MESSAGE" ∷ "NOTIFY_ROOMLIST"
    ∷ "REQUEST_LOGOUT" ∷ "RESPONSE_LOGOUT" ∷ []

-- `is_out_range` is `flatbuffers::IsOutRange`; the empty text stands for a read outside the array.
unfoldable pub enum_name : (is_out_range : ℕ → ℕ → ℕ → Bool) → ℕ → String
enum_name is_out_range e =
    if is_out_range e (code content_none) (code content_response_logout)
    then ""
    else get_or enum_names e ""

-- The array of values has each value at its own code.
values-code : (e : MessageContent) → get_or enum_values (code e) content_none ≡ e
values-code content_none = refl
values-code content_request_login = refl
values-code content_response_login = refl
values-code content_request_regist = refl
values-code content_response_regist = refl
values-code content_request_room_create = refl
values-code content_response_room_create = refl
values-code content_request_room_entrance = refl
values-code content_response_room_entrance = refl
values-code content_request_room_leave = refl
values-code content_response_room_leave = refl
values-code content_request_send_message = refl
values-code content_response_send_message = refl
values-code content_notify_message = refl
values-code content_notify_roomlist = refl
values-code content_request_logout = refl
values-code content_response_logout = refl
