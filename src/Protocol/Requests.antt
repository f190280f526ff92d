-- ===== src/Protocol/Requests.antt =====
-- The requests of IocpServer_1/MESSAGE_WRAPPER_generated.h, created and read back.
use iocp_server.Base.{some, ℕ, ◌^◌, ◌<◌, ◌≡◌, refl, List, [], ◌∷◌}
use iocp_server.Protocol.Flatbuffers.{Reader, Writer, Library}
use iocp_server.Protocol.Building.{
  Add, element, link, Stored, finished_lem, scalar_back, pointer_back, pointer,
}
use iocp_server.Protocol.Message.{
  create_message, read_message, map_strings, kind, Message, request_login, request_regist,
  request_room_create, request_room_entrance, request_room_leave, request_send_message,
  request_logout,
}
use iocp_server.Protocol.RequestLogin
use iocp_server.Protocol.RequestRegist
use iocp_server.Protocol.RequestRoomCreate
use iocp_server.Protocol.RequestRoomEntrance
use iocp_server.Protocol.RequestRoomLeave
use iocp_server.Protocol.RequestSendMessage
use iocp_server.Protocol.RequestLogout

-- A message that was created: its table is finished, and from now on reads back as the message.
pub record Created {V B : Type 0} {w : Writer B} {reads : B → Reader V} (l : Library w reads)
    (m : Message ℕ) (b : B) : Type 0 where
  pub stored : Stored l (create_message w m b) b
  pub back :
      (b' : B)
      → l.IsReadable b'
      → l.table b' (create_message w m b).0 ≡ some stored.entries
      → read_message (reads b') (kind m) (l.place b' (create_message w m b).0)
        ≡ map_strings (pointer (l.place b')) m

module _ {V B : Type 0} {w : Writer B} {reads : B → Reader V} (l : Library w reads) where
  pub request_login_back :
      (name : ℕ) (password : ℕ) (b : B)
      → l.IsFree b
      → l.IsMade name b
      → l.IsMade password b
      → Created l (request_login name password) b
  unfolding create_message read_message RequestLogin.create RequestLogin.name RequestLogin.add_name
      RequestLogin.password RequestLogin.add_password
  request_login_back name password b free h_name h_password =
      let adds : List Add =
        link RequestLogin.vt_password password ∷ link RequestLogin.vt_name name ∷ [] in
      let d = finished_lem l adds b free (h_password, refl, (h_name, refl, tt)) in
      record {
        stored = d.stored;
        back = λ b' r at i.
            request_login
              (pointer_back l _ RequestLogin.vt_name name d.stored.entries b' r at
                (d.looks RequestLogin.vt_name) i)
              (pointer_back l _ RequestLogin.vt_password password d.stored.entries b' r at
                (d.looks RequestLogin.vt_password) i);
      }

  pub request_regist_back :
      (name : ℕ) (password : ℕ) (b : B)
      → l.IsFree b
      → l.IsMade name b
      → l.IsMade password b
      → Created l (request_regist name password) b
  unfolding create_message read_message RequestRegist.create RequestRegist.name
      RequestRegist.add_name RequestRegist.password RequestRegist.add_password
  request_regist_back name password b free h_name h_password =
      let adds : List Add =
        link RequestRegist.vt_password password ∷ link RequestRegist.vt_name name ∷ [] in
      let d = finished_lem l adds b free (h_password, refl, (h_name, refl, tt)) in
      record {
        stored = d.stored;
        back = λ b' r at i.
            request_regist
              (pointer_back l _ RequestRegist.vt_name name d.stored.entries b' r at
                (d.looks RequestRegist.vt_name) i)
              (pointer_back l _ RequestRegist.vt_password password d.stored.entries b' r at
                (d.looks RequestRegist.vt_password) i);
      }

  pub request_room_create_back :
      (id : ℕ) (room_name : ℕ) (room_password : ℕ) (b : B)
      → l.IsFree b
      → id < 2 ^ 32
      → l.IsMade room_name b
      → l.IsMade room_password b
      → Created l (request_room_create id room_name room_password) b
  unfolding create_message read_message RequestRoomCreate.create RequestRoomCreate.id
      RequestRoomCreate.add_id RequestRoomCreate.room_name RequestRoomCreate.add_room_name
      RequestRoomCreate.room_password RequestRoomCreate.add_room_password
  request_room_create_back id room_name room_password b free h_id h_room_name h_room_password =
      let adds : List Add =
        link RequestRoomCreate.vt_room_password room_password
        ∷ link RequestRoomCreate.vt_room_name room_name
        ∷ element 4 RequestRoomCreate.vt_id id
        ∷ [] in
      let d =
        finished_lem l adds b free (h_room_password, refl, (h_room_name, refl, (h_id, refl, tt))) in
      record {
        stored = d.stored;
        back = λ b' r at i.
            request_room_create
              (scalar_back l 4 _ RequestRoomCreate.vt_id id d.stored.entries b' r at
                (d.looks RequestRoomCreate.vt_id) i)
              (pointer_back l _ RequestRoomCreate.vt_room_name room_name d.stored.entries b' r at
                (d.looks RequestRoomCreate.vt_room_name) i)
              (pointer_back l _ RequestRoomCreate.vt_room_password room_password d.stored.entries b'
                r at (d.looks RequestRoomCreate.vt_room_password) i);
      }

  pub request_room_entrance_back :
      (id : ℕ) (room_name : ℕ) (room_password : ℕ) (b : B)
      → l.IsFree b
      → id < 2 ^ 32
      → l.IsMade room_name b
      → l.IsMade room_password b
      → Created l (request_room_entrance id room_name room_password) b
  unfolding create_message read_message RequestRoomEntrance.create RequestRoomEntrance.id
      RequestRoomEntrance.add_id RequestRoomEntrance.room_name RequestRoomEntrance.add_room_name
      RequestRoomEntrance.room_password RequestRoomEntrance.add_room_password
  request_room_entrance_back id room_name room_password b free h_id h_room_name h_room_password =
      let adds : List Add =
        link RequestRoomEntrance.vt_room_password room_password
        ∷ link RequestRoomEntrance.vt_room_name room_name
        ∷ element 4 RequestRoomEntrance.vt_id id
        ∷ [] in
      let d =
        finished_lem l adds b free (h_room_password, refl, (h_room_name, refl, (h_id, refl, tt))) in
      record {
        stored = d.stored;
        back = λ b' r at i.
            request_room_entrance
              (scalar_back l 4 _ RequestRoomEntrance.vt_id id d.stored.entries b' r at
                (d.looks RequestRoomEntrance.vt_id) i)
              (pointer_back l _ RequestRoomEntrance.vt_room_name room_name d.stored.entries b' r at
                (d.looks RequestRoomEntrance.vt_room_name) i)
              (pointer_back l _ RequestRoomEntrance.vt_room_password room_password d.stored.entries
                b' r at (d.looks RequestRoomEntrance.vt_room_password) i);
      }

  pub request_room_leave_back :
      (id : ℕ) (room_id : ℕ) (b : B)
      → l.IsFree b
      → id < 2 ^ 32
      → room_id < 2 ^ 32
      → Created l (request_room_leave id room_id) b
  unfolding create_message read_message RequestRoomLeave.create RequestRoomLeave.id
      RequestRoomLeave.add_id RequestRoomLeave.room_id RequestRoomLeave.add_room_id
  request_room_leave_back id room_id b free h_id h_room_id =
      let adds : List Add =
        element 4 RequestRoomLeave.vt_room_id room_id ∷ element 4 RequestRoomLeave.vt_id id ∷ [] in
      let d = finished_lem l adds b free (h_room_id, refl, (h_id, refl, tt)) in
      record {
        stored = d.stored;
        back = λ b' r at i.
            request_room_leave
              (scalar_back l 4 _ RequestRoomLeave.vt_id id d.stored.entries b' r at
                (d.looks RequestRoomLeave.vt_id) i)
              (scalar_back l 4 _ RequestRoomLeave.vt_room_id room_id d.stored.entries b' r at
                (d.looks RequestRoomLeave.vt_room_id) i);
      }

  pub request_send_message_back :
      (id : ℕ) (content : ℕ) (b : B)
      → l.IsFree b
      → id < 2 ^ 32
      → l.IsMade content b
      → Created l (request_send_message id content) b
  unfolding create_message read_message RequestSendMessage.create RequestSendMessage.id
      RequestSendMessage.add_id RequestSendMessage.content RequestSendMessage.add_content
  request_send_message_back id content b free h_id h_content =
      let adds : List Add =
        link RequestSendMessage.vt_content content ∷ element 4 RequestSendMessage.vt_id id ∷ [] in
      let d = finished_lem l adds b free (h_content, refl, (h_id, refl, tt)) in
      record {
        stored = d.stored;
        back = λ b' r at i.
            request_send_message
              (scalar_back l 4 _ RequestSendMessage.vt_id id d.stored.entries b' r at
                (d.looks RequestSendMessage.vt_id) i)
              (pointer_back l _ RequestSendMessage.vt_content content d.stored.entries b' r at
                (d.looks RequestSendMessage.vt_content) i);
      }

  pub request_logout_back :
      (id : ℕ) (b : B) → l.IsFree b → id < 2 ^ 32 → Created l (request_logout id) b
  unfolding create_message read_message RequestLogout.create RequestLogout.id RequestLogout.add_id
  request_logout_back id b free h_id =
      let adds : List Add = element 4 RequestLogout.vt_id id ∷ [] in
      let d = finished_lem l adds b free (h_id, refl, tt) in
      record {
        stored = d.stored;
        back = λ b' r at i. request_logout (
            scalar_back l 4 _ RequestLogout.vt_id id d.stored.entries b' r at
              (d.looks RequestLogout.vt_id) i);
      }
