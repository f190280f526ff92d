-- ===== src/Protocol/Responses.antt =====
-- The responses and notifications of IocpServer_1/MESSAGE_WRAPPER_generated.h, created and read back.
use iocp_server.Base.{ℕ, ◌^◌, ◌<◌, refl, Bool, List, [], ◌∷◌}
use iocp_server.Protocol.Flatbuffers.{Reader, Writer, Library, byte}
use iocp_server.Protocol.Building.{
  Add, element, link, finished_lem, scalar_back, bool_back, pointer_back, byte_fits,
}
use iocp_server.Protocol.Message.{
  create_message, read_message, response_login, response_regist, response_room_create,
  response_room_entrance, response_room_leave, response_send_message, response_logout,
  notify_message, notify_roomlist,
}
use iocp_server.Protocol.Requests.{Created}
use iocp_server.Protocol.ResponseLogin
use iocp_server.Protocol.ResponseRegist
use iocp_server.Protocol.ResponseRoomCreate
use iocp_server.Protocol.ResponseRoomEntrance
use iocp_server.Protocol.ResponseRoomLeave
use iocp_server.Protocol.ResponseSendMessage
use iocp_server.Protocol.ResponseLogout
use iocp_server.Protocol.NotifyMessage
use iocp_server.Protocol.NotifyRoomlist

module _ {V B : Type 0} {w : Writer B} {reads : B → Reader V} (l : Library w reads) where
  pub response_login_back :
      (id : ℕ) (feedback : Bool) (b : B)
      → l.IsFree b
      → id < 2 ^ 32
      → Created l (response_login id feedback) b
  unfolding create_message read_message ResponseLogin.create ResponseLogin.id ResponseLogin.add_id
      ResponseLogin.feedback ResponseLogin.add_feedback
  response_login_back id feedback b free h_id =
      let adds : List Add =
        element 4 ResponseLogin.vt_id id
        ∷ element 1 ResponseLogin.vt_feedback (byte feedback)
        ∷ [] in
      let d = finished_lem l adds b free (h_id, refl, (byte_fits feedback, refl, tt)) in
      record {
        stored = d.stored;
        back = λ b' r at i.
            response_login
              (scalar_back l 4 _ ResponseLogin.vt_id id d.stored.entries b' r at
                (d.looks ResponseLogin.vt_id) i)
              (bool_back l _ ResponseLogin.vt_feedback feedback d.stored.entries b' r at
                (d.looks ResponseLogin.vt_feedback) i);
      }

  pub response_regist_back :
      (id : ℕ) (feedback : Bool) (b : B)
      → l.IsFree b
      → id < 2 ^ 32
      → Created l (response_regist id feedback) b
  unfolding create_message read_message ResponseRegist.create ResponseRegist.id
      ResponseRegist.add_id ResponseRegist.feedback ResponseRegist.add_feedback
  response_regist_back id feedback b free h_id =
      let adds : List Add =
        element 4 ResponseRegist.vt_id id
        ∷ element 1 ResponseRegist.vt_feedback (byte feedback)
        ∷ [] in
      let d = finished_lem l adds b free (h_id, refl, (byte_fits feedback, refl, tt)) in
      record {
        stored = d.stored;
        back = λ b' r at i.
            response_regist
              (scalar_back l 4 _ ResponseRegist.vt_id id d.stored.entries b' r at
                (d.looks ResponseRegist.vt_id) i)
              (bool_back l _ ResponseRegist.vt_feedback feedback d.stored.entries b' r at
                (d.looks ResponseRegist.vt_feedback) i);
      }

  pub response_room_create_back :
      (room_id : ℕ) (feedback : Bool) (b : B)
      → l.IsFree b
      → room_id < 2 ^ 32
      → Created l (response_room_create room_id feedback) b
  unfolding create_message read_message ResponseRoomCreate.create ResponseRoomCreate.room_id
      ResponseRoomCreate.add_room_id ResponseRoomCreate.feedback ResponseRoomCreate.add_feedback
  response_room_create_back room_id feedback b free h_room_id =
      let adds : List Add =
        element 4 ResponseRoomCreate.vt_room_id room_id
        ∷ element 1 ResponseRoomCreate.vt_feedback (byte feedback)
        ∷ [] in
      let d = finished_lem l adds b free (h_room_id, refl, (byte_fits feedback, refl, tt)) in
      record {
        stored = d.stored;
        back = λ b' r at i.
            response_room_create
              (scalar_back l 4 _ ResponseRoomCreate.vt_room_id room_id d.stored.entries b' r at
                (d.looks ResponseRoomCreate.vt_room_id) i)
              (bool_back l _ ResponseRoomCreate.vt_feedback feedback d.stored.entries b' r at
                (d.looks ResponseRoomCreate.vt_feedback) i);
      }

  pub response_room_entrance_back :
      (room_id : ℕ) (feedback : Bool) (b : B)
      → l.IsFree b
      → room_id < 2 ^ 32
      → Created l (response_room_entrance room_id feedback) b
  unfolding create_message read_message ResponseRoomEntrance.create ResponseRoomEntrance.room_id
      ResponseRoomEntrance.add_room_id ResponseRoomEntrance.feedback
      ResponseRoomEntrance.add_feedback
  response_room_entrance_back room_id feedback b free h_room_id =
      let adds : List Add =
        element 4 ResponseRoomEntrance.vt_room_id room_id
        ∷ element 1 ResponseRoomEntrance.vt_feedback (byte feedback)
        ∷ [] in
      let d = finished_lem l adds b free (h_room_id, refl, (byte_fits feedback, refl, tt)) in
      record {
        stored = d.stored;
        back = λ b' r at i.
            response_room_entrance
              (scalar_back l 4 _ ResponseRoomEntrance.vt_room_id room_id d.stored.entries b' r at
                (d.looks ResponseRoomEntrance.vt_room_id) i)
              (bool_back l _ ResponseRoomEntrance.vt_feedback feedback d.stored.entries b' r at
                (d.looks ResponseRoomEntrance.vt_feedback) i);
      }

  pub response_room_leave_back :
      (room_id : ℕ) (feedback : Bool) (b : B)
      → l.IsFree b
      → room_id < 2 ^ 32
      → Created l (response_room_leave room_id feedback) b
  unfolding create_message read_message ResponseRoomLeave.create ResponseRoomLeave.room_id
      ResponseRoomLeave.add_room_id ResponseRoomLeave.feedback ResponseRoomLeave.add_feedback
  response_room_leave_back room_id feedback b free h_room_id =
      let adds : List Add =
        element 4 ResponseRoomLeave.vt_room_id room_id
        ∷ element 1 ResponseRoomLeave.vt_feedback (byte feedback)
        ∷ [] in
      let d = finished_lem l adds b free (h_room_id, refl, (byte_fits feedback, refl, tt)) in
      record {
        stored = d.stored;
        back = λ b' r at i.
            response_room_leave
              (scalar_back l 4 _ ResponseRoomLeave.vt_room_id room_id d.stored.entries b' r at
                (d.looks ResponseRoomLeave.vt_room_id) i)
              (bool_back l _ ResponseRoomLeave.vt_feedback feedback d.stored.entries b' r at
                (d.looks ResponseRoomLeave.vt_feedback) i);
      }

  pub response_send_message_back :
      (feedback : Bool) (b : B) → l.IsFree b → Created l (response_send_message feedback) b
  unfolding create_message read_message ResponseSendMessage.create ResponseSendMessage.feedback
      ResponseSendMessage.add_feedback
  response_send_message_back feedback b free =
      let adds : List Add = element 1 ResponseSendMessage.vt_feedback (byte feedback) ∷ [] in
      let d = finished_lem l adds b free (byte_fits feedback, refl, tt) in
      record {
        stored = d.stored;
        back = λ b' r at i. response_send_message (
            bool_back l _ ResponseSendMessage.vt_feedback feedback d.stored.entries b' r at
              (d.looks ResponseSendMessage.vt_feedback) i);
      }

  pub response_logout_back :
      (feedback : Bool) (b : B) → l.IsFree b → Created l (response_logout feedback) b
  unfolding create_message read_message ResponseLogout.create ResponseLogout.feedback
      ResponseLogout.add_feedback
  response_logout_back feedback b free =
      let adds : List Add = element 1 ResponseLogout.vt_feedback (byte feedback) ∷ [] in
      let d = finished_lem l adds b free (byte_fits feedback, refl, tt) in
      record {
        stored = d.stored;
        back = λ b' r at i. response_logout (
            bool_back l _ ResponseLogout.vt_feedback feedback d.stored.entries b' r at
              (d.looks ResponseLogout.vt_feedback) i);
      }

  pub notify_message_back :
      (id : ℕ) (content : ℕ) (b : B)
      → l.IsFree b
      → id < 2 ^ 32
      → l.IsMade content b
      → Created l (notify_message id content) b
  unfolding create_message read_message NotifyMessage.create NotifyMessage.id NotifyMessage.add_id
      NotifyMessage.content NotifyMessage.add_content
  notify_message_back id content b free h_id h_content =
      let adds : List Add =
        link NotifyMessage.vt_content content ∷ element 4 NotifyMessage.vt_id id ∷ [] in
      let d = finished_lem l adds b free (h_content, refl, (h_id, refl, tt)) in
      record {
        stored = d.stored;
        back = λ b' r at i.
            notify_message
              (scalar_back l 4 _ NotifyMessage.vt_id id d.stored.entries b' r at
                (d.looks NotifyMessage.vt_id) i)
              (pointer_back l _ NotifyMessage.vt_content content d.stored.entries b' r at
                (d.looks NotifyMessage.vt_content) i);
      }

  pub notify_roomlist_back :
      (name : ℕ) (b : B) → l.IsFree b → l.IsMade name b → Created l (notify_roomlist name) b
  unfolding create_message read_message NotifyRoomlist.create NotifyRoomlist.name
      NotifyRoomlist.add_name
  notify_roomlist_back name b free h_name =
      let adds : List Add = link NotifyRoomlist.vt_name name ∷ [] in
      let d = finished_lem l adds b free (h_name, refl, tt) in
      record {
        stored = d.stored;
        back = λ b' r at i. notify_roomlist (
            pointer_back l _ NotifyRoomlist.vt_name name d.stored.entries b' r at
              (d.looks NotifyRoomlist.vt_name) i);
      }
