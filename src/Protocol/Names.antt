-- ===== src/Protocol/Names.antt =====
-- The names of the two enumerations of IocpServer_1/MESSAGE_WRAPPER_generated.h.
use iocp_server.Base.{ℕ, ◌≡◌, ◌≢◌, refl, Bool, ◌||◌, ltb}
use iocp_server.Protocol.MessageType
use iocp_server.Protocol.MessageContent
use iocp_server.Protocol.MessageContent.{
  MessageContent, content_none, content_notify_message, content_notify_roomlist,
  content_request_login, content_request_logout, content_request_regist,
  content_request_room_create, content_request_room_entrance, content_request_room_leave,
  content_request_send_message, content_response_login, content_response_logout,
  content_response_regist, content_response_room_create, content_response_room_entrance,
  content_response_room_leave, content_response_send_message,
}

module _ (is_out_range : ℕ → ℕ → ℕ → Bool) where
  -- With `IsOutRange` as documented, the message type and the table of the union that have the same
  -- code have the same name, for every table but the answer to a login.
  pub names_agree :
      ((v low high : ℕ) → is_out_range v low high ≡ (ltb v low || ltb high v))
      → (c : MessageContent) → c ≢ content_none
      → c ≢ content_response_login
      → MessageType.enum_name is_out_range (MessageContent.code c)
        ≡ MessageContent.enum_name is_out_range (MessageContent.code c)
  unfolding MessageType.enum_name MessageContent.enum_name
  names_agree doc content_none a b = absurd (a refl)
  names_agree doc content_request_login a b = rw (doc 1 0 17, doc 1 0 16) refl
  names_agree doc content_response_login a b = absurd (b refl)
  names_agree doc content_request_regist a b = rw (doc 3 0 17, doc 3 0 16) refl
  names_agree doc content_response_regist a b = rw (doc 4 0 17, doc 4 0 16) refl
  names_agree doc content_request_room_create a b = rw (doc 5 0 17, doc 5 0 16) refl
  names_agree doc content_response_room_create a b = rw (doc 6 0 17, doc 6 0 16) refl
  names_agree doc content_request_room_entrance a b = rw (doc 7 0 17, doc 7 0 16) refl
  names_agree doc content_response_room_entrance a b = rw (doc 8 0 17, doc 8 0 16) refl
  names_agree doc content_request_room_leave a b = rw (doc 9 0 17, doc 9 0 16) refl
  names_agree doc content_response_room_leave a b = rw (doc 10 0 17, doc 10 0 16) refl
  names_agree doc content_request_send_message a b = rw (doc 11 0 17, doc 11 0 16) refl
  names_agree doc content_response_send_message a b = rw (doc 12 0 17, doc 12 0 16) refl
  names_agree doc content_notify_message a b = rw (doc 13 0 17, doc 13 0 16) refl
  names_agree doc content_notify_roomlist a b = rw (doc 14 0 17, doc 14 0 16) refl
  names_agree doc content_request_logout a b = rw (doc 15 0 17, doc 15 0 16) refl
  names_agree doc content_response_logout a b = rw (doc 16 0 17, doc 16 0 16) refl
