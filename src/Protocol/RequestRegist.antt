-- ===== src/Protocol/RequestRegist.antt =====
-- REQUEST_REGIST of IocpServer_1/MESSAGE_WRAPPER_generated.h.
use iocp_server.Base.{Bool, List, Option, ℕ}
use iocp_server.Protocol.Flatbuffers.{Reader, Writer, ◌and_then◌, string_offset}

abbrev pub vt_name : ℕ
vt_name = 4

abbrev pub vt_password : ℕ
vt_password = 6

module _ {V : Type 0} (r : Reader V) where
  unfoldable pub name : ℕ → Option ℕ
  name this = r.get_pointer this vt_name

  unfoldable pub password : ℕ → Option ℕ
  password this = r.get_pointer this vt_password

  unfoldable pub verify : ℕ → V → Bool × V
  verify this =
      r.verify_table_start this
      and_then r.verify_offset this vt_name
      and_then r.verify_string (name this)
      and_then r.verify_offset this vt_password
      and_then r.verify_string (password this)
      and_then r.end_checks

module _ {B : Type 0} (w : Writer B) where
  unfoldable pub add_name : ℕ → B → B
  add_name name = w.add_offset vt_name name

  unfoldable pub add_password : ℕ → B → B
  add_password password = w.add_offset vt_password password

  unfoldable pub create : ℕ → ℕ → B → ℕ × B
  create name password b =
      let (start, b0) = w.start_table b in
      let b1 = add_password password b0 in let b2 = add_name name b1 in w.end_table start b2

  unfoldable create_direct : Option (List ℕ) → Option (List ℕ) → B → ℕ × B
  create_direct name password b =
      let (name_offset, c0) = string_offset w name b in
      let (password_offset, c1) = string_offset w password c0 in
      create name_offset password_offset c1
