-- ===== src/Protocol/Roundtrip.antt =====
-- Every message of IocpServer_1/MESSAGE_WRAPPER_generated.h, created and read back.
use iocp_server.Base.{ℕ}
use iocp_server.Protocol.Flatbuffers.{Reader, Writer, Library}
use iocp_server.Protocol.Message.{
  Message, InRange, request_login, response_login, request_regist, response_regist,
  request_room_create, response_room_create, request_room_entrance, response_room_entrance,
  request_room_leave, response_room_leave, request_send_message, response_send_message,
  request_logout, response_logout, notify_message, notify_roomlist,
}
use iocp_server.Protocol.Requests.{
  Created, request_login_back, request_regist_back, request_room_create_back,
  request_room_entrance_back, request_room_leave_back, request_send_message_back,
  request_logout_back,
}
use iocp_server.Protocol.Responses.{
  response_login_back, response_regist_back, response_room_create_back, response_room_entrance_back,
  response_room_leave_back, response_send_message_back, response_logout_back, notify_message_back,
  notify_roomlist_back,
}

module _ {V B : Type 0} {w : Writer B} {reads : B → Reader V} (l : Library w reads) where
  -- For a library that keeps what it documents, a builder with no table under construction, numbers
  -- of 32 bits, and strings that were made before: `Create` finishes a table, keeps the tables
  -- that were there, and in every later state of the builder that still has the new table the
  -- accessors read the arguments of `Create` back. A string that is absent is a null pointer.
  pub create-read :
      (m : Message ℕ) (b : B) → l.IsFree b → InRange (λ o. l.IsMade o b) m → Created l m b
  create-read (request_login name password) b free h =
      request_login_back l name password b free h.0 h.1
  create-read (request_regist name password) b free h =
      request_regist_back l name password b free h.0 h.1
  create-read (request_room_create id room_name room_password) b free h =
      request_room_create_back l id room_name room_password b free h.0 h.1 h.2
  create-read (request_room_entrance id room_name room_password) b free h =
      request_room_entrance_back l id room_name room_password b free h.0 h.1 h.2
  create-read (request_room_leave id room_id) b free h =
      request_room_leave_back l id room_id b free h.0 h.1
  create-read (request_send_message id content) b free h =
      request_send_message_back l id content b free h.0 h.1
  create-read (request_logout id) b free h = request_logout_back l id b free h
  create-read (response_login id feedback) b free h = response_login_back l id feedback b free h
  create-read (response_regist id feedback) b free h = response_regist_back l id feedback b free h
  create-read (response_room_create room_id feedback) b free h =
      response_room_create_back l room_id feedback b free h
  create-read (response_room_entrance room_id feedback) b free h =
      response_room_entrance_back l room_id feedback b free h
  create-read (response_room_leave room_id feedback) b free h =
      response_room_leave_back l room_id feedback b free h
  create-read (response_send_message feedback) b free h =
      response_send_message_back l feedback b free
  create-read (response_logout feedback) b free h = response_logout_back l feedback b free
  create-read (notify_message id content) b free h = notify_message_back l id content b free h.0 h.1
  create-read (notify_roomlist name) b free h = notify_roomlist_back l name b free h
