-- ===== src/Protocol/Message.antt =====
-- The sixteen messages of IocpServer_1/MESSAGE_WRAPPER_generated.h, each with the arguments of its
-- `Create` function; the function that creates it, and the accessors that read it.
use iocp_server.Base.{ℕ, ◌^◌, ◌<◌, Bool, Option}
use iocp_server.Protocol.Flatbuffers.{Reader, Writer}
use iocp_server.Protocol.RequestLogin
use iocp_server.Protocol.ResponseLogin
use iocp_server.Protocol.RequestRegist
use iocp_server.Protocol.ResponseRegist
use iocp_server.Protocol.RequestRoomCreate
use iocp_server.Protocol.ResponseRoomCreate
use iocp_server.Protocol.RequestRoomEntrance
use iocp_server.Protocol.ResponseRoomEntrance
use iocp_server.Protocol.RequestRoomLeave
use iocp_server.Protocol.ResponseRoomLeave
use iocp_server.Protocol.RequestSendMessage
use iocp_server.Protocol.ResponseSendMessage
use iocp_server.Protocol.RequestLogout
use iocp_server.Protocol.ResponseLogout
use iocp_server.Protocol.NotifyMessage
use iocp_server.Protocol.NotifyRoomlist

-- `S` is what stands for a string: an offset when it is written, a pointer when it is read.
pub data Message (S : Type 0) : Type 0 where
  request_login : (name : S) (password : S) → Message S
  response_login : (id : ℕ) (feedback : Bool) → Message S
  request_regist : (name : S) (password : S) → Message S
  response_regist : (id : ℕ) (feedback : Bool) → Message S
  request_room_create : (id : ℕ) (room_name : S) (room_password : S) → Message S
  response_room_create : (room_id : ℕ) (feedback : Bool) → Message S
  request_room_entrance : (id : ℕ) (room_name : S) (room_password : S) → Message S
  response_room_entrance : (room_id : ℕ) (feedback : Bool) → Message S
  request_room_leave : (id : ℕ) (room_id : ℕ) → Message S
  response_room_leave : (room_id : ℕ) (feedback : Bool) → Message S
  request_send_message : (id : ℕ) (content : S) → Message S
  response_send_message : (feedback : Bool) → Message S
  request_logout : (id : ℕ) → Message S
  response_logout : (feedback : Bool) → Message S
  notify_message : (id : ℕ) (content : S) → Message S
  notify_roomlist : (name : S) → Message S

pub data Kind : Type 0 where
  is_request_login : Kind
  is_response_login : Kind
  is_request_regist : Kind
  is_response_regist : Kind
  is_request_room_create : Kind
  is_response_room_create : Kind
  is_request_room_entrance : Kind
  is_response_room_entrance : Kind
  is_request_room_leave : Kind
  is_response_room_leave : Kind
  is_request_send_message : Kind
  is_response_send_message : Kind
  is_request_logout : Kind
  is_response_logout : Kind
  is_notify_message : Kind
  is_notify_roomlist : Kind

abbrev pub kind : {S : Type 0} → Message S → Kind
kind (request_login name password) = is_request_login
kind (response_login id feedback) = is_response_login
kind (request_regist name password) = is_request_regist
kind (response_regist id feedback) = is_response_regist
kind (request_room_create id room_name room_password) = is_request_room_create
kind (response_room_create room_id feedback) = is_response_room_create
kind (request_room_entrance id room_name room_password) = is_request_room_entrance
kind (response_room_entrance room_id feedback) = is_response_room_entrance
kind (request_room_leave id room_id) = is_request_room_leave
kind (response_room_leave room_id feedback) = is_response_room_leave
kind (request_send_message id content) = is_request_send_message
kind (response_send_message feedback) = is_response_send_message
kind (request_logout id) = is_request_logout
kind (response_logout feedback) = is_response_logout
kind (notify_message id content) = is_notify_message
kind (notify_roomlist name) = is_notify_roomlist

abbrev pub map_strings : {S T : Type 0} → (S → T) → Message S → Message T
map_strings g (request_login name password) = request_login (g name) (g password)
map_strings g (response_login id feedback) = response_login id feedback
map_strings g (request_regist name password) = request_regist (g name) (g password)
map_strings g (response_regist id feedback) = response_regist id feedback
map_strings g (request_room_create id room_name room_password) =
    request_room_create id (g room_name) (g room_password)
map_strings g (response_room_create room_id feedback) = response_room_create room_id feedback
map_strings g (request_room_entrance id room_name room_password) =
    request_room_entrance id (g room_name) (g room_password)
map_strings g (response_room_entrance room_id feedback) = response_room_entrance room_id feedback
map_strings g (request_room_leave id room_id) = request_room_leave id room_id
map_strings g (response_room_leave room_id feedback) = response_room_leave room_id feedback
map_strings g (request_send_message id content) = request_send_message id (g content)
map_strings g (response_send_message feedback) = response_send_message feedback
map_strings g (request_logout id) = request_logout id
map_strings g (response_logout feedback) = response_logout feedback
map_strings g (notify_message id content) = notify_message id (g content)
map_strings g (notify_roomlist name) = notify_roomlist (g name)

-- The numbers are `int32_t`, and the strings are such as `IsString` says.
abbrev pub InRange : {S : Type 0} → (S → Type 0) → Message S → Type 0
InRange IsString (request_login name password) = IsString name × IsString password
InRange IsString (request_regist name password) = IsString name × IsString password
InRange IsString (request_room_create id room_name room_password) =
    (id < 2 ^ 32) × IsString room_name × IsString room_password
InRange IsString (request_room_entrance id room_name room_password) =
    (id < 2 ^ 32) × IsString room_name × IsString room_password
InRange IsString (request_room_leave id room_id) = (id < 2 ^ 32) × (room_id < 2 ^ 32)
InRange IsString (request_send_message id content) = (id < 2 ^ 32) × IsString content
InRange IsString (request_logout id) = (id < 2 ^ 32)
InRange IsString (response_login id feedback) = (id < 2 ^ 32)
InRange IsString (response_regist id feedback) = (id < 2 ^ 32)
InRange IsString (response_room_create room_id feedback) = (room_id < 2 ^ 32)
InRange IsString (response_room_entrance room_id feedback) = (room_id < 2 ^ 32)
InRange IsString (response_room_leave room_id feedback) = (room_id < 2 ^ 32)
InRange IsString (response_send_message feedback) = Unit {0}
InRange IsString (response_logout feedback) = Unit {0}
InRange IsString (notify_message id content) = (id < 2 ^ 32) × IsString content
InRange IsString (notify_roomlist name) = IsString name

module _ {B : Type 0} (w : Writer B) where
  unfoldable pub create_message : Message ℕ → B → ℕ × B
  create_message (request_login name password) = RequestLogin.create w name password
  create_message (response_login id feedback) = ResponseLogin.create w id feedback
  create_message (request_regist name password) = RequestRegist.create w name password
  create_message (response_regist id feedback) = ResponseRegist.create w id feedback
  create_message (request_room_create id room_name room_password) =
      RequestRoomCreate.create w id room_name room_password
  create_message (response_room_create room_id feedback) =
      ResponseRoomCreate.create w room_id feedback
  create_message (request_room_entrance id room_name room_password) =
      RequestRoomEntrance.create w id room_name room_password
  create_message (response_room_entrance room_id feedback) =
      ResponseRoomEntrance.create w room_id feedback
  create_message (request_room_leave id room_id) = RequestRoomLeave.create w id room_id
  create_message (response_room_leave room_id feedback) =
      ResponseRoomLeave.create w room_id feedback
  create_message (request_send_message id content) = RequestSendMessage.create w id content
  create_message (response_send_message feedback) = ResponseSendMessage.create w feedback
  create_message (request_logout id) = RequestLogout.create w id
  create_message (response_logout feedback) = ResponseLogout.create w feedback
  create_message (notify_message id content) = NotifyMessage.create w id content
  create_message (notify_roomlist name) = NotifyRoomlist.create w name

module _ {V : Type 0} (r : Reader V) where
  unfoldable pub read_message : Kind → ℕ → Message (Option ℕ)
  read_message is_request_login t =
      request_login (RequestLogin.name r t) (RequestLogin.password r t)
  read_message is_response_login t =
      response_login (ResponseLogin.id r t) (ResponseLogin.feedback r t)
  read_message is_request_regist t =
      request_regist (RequestRegist.name r t) (RequestRegist.password r t)
  read_message is_response_regist t =
      response_regist (ResponseRegist.id r t) (ResponseRegist.feedback r t)
  read_message is_request_room_create t =
      request_room_create (RequestRoomCreate.id r t) (RequestRoomCreate.room_name r t)
        (RequestRoomCreate.room_password r t)
  read_message is_response_room_create t =
      response_room_create (ResponseRoomCreate.room_id r t) (ResponseRoomCreate.feedback r t)
  read_message is_request_room_entrance t =
      request_room_entrance (RequestRoomEntrance.id r t) (RequestRoomEntrance.room_name r t)
        (RequestRoomEntrance.room_password r t)
  read_message is_response_room_entrance t =
      response_room_entrance (ResponseRoomEntrance.room_id r t) (ResponseRoomEntrance.feedback r t)
  read_message is_request_room_leave t =
      request_room_leave (RequestRoomLeave.id r t) (RequestRoomLeave.room_id r t)
  read_message is_response_room_leave t =
      response_room_leave (ResponseRoomLeave.room_id r t) (ResponseRoomLeave.feedback r t)
  read_message is_request_send_message t =
      request_send_message (RequestSendMessage.id r t) (RequestSendMessage.content r t)
  read_message is_response_send_message t = response_send_message (ResponseSendMessage.feedback r t)
  read_message is_request_logout t = request_logout (RequestLogout.id r t)
  read_message is_response_logout t = response_logout (ResponseLogout.feedback r t)
  read_message is_notify_message t =
      notify_message (NotifyMessage.id r t) (NotifyMessage.content r t)
  read_message is_notify_roomlist t = notify_roomlist (NotifyRoomlist.name r t)

  -- `Verify` of each table.
  unfoldable pub verify_message : Kind → ℕ → V → Bool × V
  verify_message is_request_login = RequestLogin.verify r
  verify_message is_response_login = ResponseLogin.verify r
  verify_message is_request_regist = RequestRegist.verify r
  verify_message is_response_regist = ResponseRegist.verify r
  verify_message is_request_room_create = RequestRoomCreate.verify r
  verify_message is_response_room_create = ResponseRoomCreate.verify r
  verify_message is_request_room_entrance = RequestRoomEntrance.verify r
  verify_message is_response_room_entrance = ResponseRoomEntrance.verify r
  verify_message is_request_room_leave = RequestRoomLeave.verify r
  verify_message is_response_room_leave = ResponseRoomLeave.verify r
  verify_message is_request_send_message = RequestSendMessage.verify r
  verify_message is_response_send_message = ResponseSendMessage.verify r
  verify_message is_request_logout = RequestLogout.verify r
  verify_message is_response_logout = ResponseLogout.verify r
  verify_message is_notify_message = NotifyMessage.verify r
  verify_message is_notify_roomlist = NotifyRoomlist.verify r
