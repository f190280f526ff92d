-- ===== src/Protocol/Union.antt =====
-- The union of MESSAGE_WRAPPER in IocpServer_1/MESSAGE_WRAPPER_generated.h: its codes.
use iocp_server.Base.{
  ℕ, ◌^◌, ◌<◌, ◌≡◌, ◌≢◌, refl, sym, ap, ◌∙◌, arith, Bool, true, false, Option, none, some, List, [],
  ◌∷◌, ◌==◌, if◌then◌else◌,
}
use iocp_server.Protocol.MessageContent
use iocp_server.Protocol.MessageContent.{
  MessageContent, content_none, content_request_login, content_response_login,
  content_request_regist, content_response_regist, content_request_room_create,
  content_response_room_create, content_request_room_entrance, content_response_room_entrance,
  content_request_room_leave, content_response_room_leave, content_request_send_message,
  content_response_send_message, content_notify_message, content_notify_roomlist,
  content_request_logout, content_response_logout,
}
use iocp_server.Protocol.Message.{
  Kind, is_request_login, is_response_login, is_request_regist, is_response_regist,
  is_request_room_create, is_response_room_create, is_request_room_entrance,
  is_response_room_entrance, is_request_room_leave, is_response_room_leave, is_request_send_message,
  is_response_send_message, is_request_logout, is_response_logout, is_notify_message,
  is_notify_roomlist,
}
use iocp_server.Protocol.Wrapper.{enum_value}

-- The table for a code of the union.
abbrev contents : List (ℕ × Option Kind)
contents =
    (0, none)
    ∷ (1, some is_request_login)
    ∷ (2, some is_response_login)
    ∷ (3, some is_request_regist)
    ∷ (4, some is_response_regist)
    ∷ (5, some is_request_room_create)
    ∷ (6, some is_response_room_create)
    ∷ (7, some is_request_room_entrance)
    ∷ (8, some is_response_room_entrance)
    ∷ (9, some is_request_room_leave)
    ∷ (10, some is_response_room_leave)
    ∷ (11, some is_request_send_message)
    ∷ (12, some is_response_send_message)
    ∷ (13, some is_notify_message)
    ∷ (14, some is_notify_roomlist)
    ∷ (15, some is_request_logout)
    ∷ (16, some is_response_logout)
    ∷ []

abbrev pick : List (ℕ × Option Kind) → ℕ → Option Kind
pick [] type = none
pick ((c, k) ∷ rest) type = if type == c then k else pick rest type

abbrev pub kind_at : ℕ → Option Kind
kind_at = pick contents

abbrev chain : {A : Type 0} → (Option Kind → A) → List (ℕ × Option Kind) → ℕ → A
chain f [] type = f none
chain f ((c, k) ∷ rest) type = if type == c then f k else chain f rest type

chain-pick :
    {A : Type 0} (f : Option Kind → A) (cs : List (ℕ × Option Kind)) (type : ℕ)
    → chain f cs type ≡ f (pick cs type)
chain-pick f [] type = refl
chain-pick f ((c, k) ∷ rest) type = by_cases (chain-pick f rest type) (type == c)
  where
    by_cases :
        chain f rest type ≡ f (pick rest type)
        → (b : Bool) → (if b then f k else chain f rest type) ≡ f (if b then k else pick rest type)
    by_cases same true = refl
    by_cases same false = same

kind_at_lem : (k : Kind) → kind_at (MessageContent.code (enum_value k)) ≡ some k
kind_at_lem is_request_login = refl
kind_at_lem is_response_login = refl
kind_at_lem is_request_regist = refl
kind_at_lem is_response_regist = refl
kind_at_lem is_request_room_create = refl
kind_at_lem is_response_room_create = refl
kind_at_lem is_request_room_entrance = refl
kind_at_lem is_response_room_entrance = refl
kind_at_lem is_request_room_leave = refl
kind_at_lem is_response_room_leave = refl
kind_at_lem is_request_send_message = refl
kind_at_lem is_response_send_message = refl
kind_at_lem is_request_logout = refl
kind_at_lem is_response_logout = refl
kind_at_lem is_notify_message = refl
kind_at_lem is_notify_roomlist = refl

abbrev or_kind : Kind → Option Kind → Kind
or_kind k none = k
or_kind k (some j) = j

pub codes_differ :
    (k k' : Kind)
    → k ≢ k'
    → MessageContent.code (enum_value k) ≢ MessageContent.code (enum_value k')
codes_differ k k' h e = h (ap (or_kind k) (sym (kind_at_lem k) ∙ ap kind_at e ∙ kind_at_lem k'))

pub code_bound : (k : Kind) → MessageContent.code (enum_value k) < 256 ^ 1
code_bound is_request_login = omega arith
code_bound is_response_login = omega arith
code_bound is_request_regist = omega arith
code_bound is_response_regist = omega arith
code_bound is_request_room_create = omega arith
code_bound is_response_room_create = omega arith
code_bound is_request_room_entrance = omega arith
code_bound is_response_room_entrance = omega arith
code_bound is_request_room_leave = omega arith
code_bound is_response_room_leave = omega arith
code_bound is_request_send_message = omega arith
code_bound is_response_send_message = omega arith
code_bound is_request_logout = omega arith
code_bound is_response_logout = omega arith
code_bound is_notify_message = omega arith
code_bound is_notify_roomlist = omega arith
