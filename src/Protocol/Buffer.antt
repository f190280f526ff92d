-- ===== src/Protocol/Buffer.antt =====
-- The functions at the end of IocpServer_1/MESSAGE_WRAPPER_generated.h: finishing a buffer with a
-- MESSAGE_WRAPPER at its root, checking one, and reading its root.
use iocp_server.Base.{ℕ, ◌^◌, ◌<◌, ◌≡◌, ap, ◌∙◌, Bool, none, some, if◌then◌else◌}
use iocp_server.Protocol.Flatbuffers.{Reader, Writer, Library, Carries}
use iocp_server.Protocol.MessageContent
use iocp_server.Protocol.Message.{Message, InRange, kind, map_strings, create_message, read_message}
use iocp_server.Protocol.Building.{pointer}
use iocp_server.Protocol.Roundtrip.{create-read}
use iocp_server.Protocol.Wrapper
use iocp_server.Protocol.Wrapper.{enum_value}
use iocp_server.Protocol.Content.{IsWrapper, content_as-create}

-- What the functions use of FlatBuffers. `B` is a builder with its buffer, and a table is named by its
-- offset.
pub record Roots (V B : Type 0) : Type 0 where
  pub get_root : B → ℕ
  pub get_size_prefixed_root : B → ℕ
  pub verify_buffer : (ℕ → V → Bool × V) → V → Bool × V
  pub verify_size_prefixed_buffer : (ℕ → V → Bool × V) → V → Bool × V
  pub finish : ℕ → B → B
  pub finish_size_prefixed : ℕ → B → B

module _ {V B : Type 0} (roots : Roots V B) where
  unfoldable pub get_message_wrapper : B → ℕ
  get_message_wrapper buf = roots.get_root buf

  unfoldable pub get_size_prefixed_message_wrapper : B → ℕ
  get_size_prefixed_message_wrapper buf = roots.get_size_prefixed_root buf

  unfoldable pub verify_message_wrapper_buffer : Reader V → V → Bool × V
  verify_message_wrapper_buffer r verifier = roots.verify_buffer (Wrapper.verify r) verifier

  unfoldable pub verify_size_prefixed_message_wrapper_buffer : Reader V → V → Bool × V
  verify_size_prefixed_message_wrapper_buffer r verifier =
      roots.verify_size_prefixed_buffer (Wrapper.verify r) verifier

  unfoldable pub finish_message_wrapper_buffer : B → ℕ → B
  finish_message_wrapper_buffer fbb root = roots.finish root fbb

  unfoldable pub finish_size_prefixed_message_wrapper_buffer : B → ℕ → B
  finish_size_prefixed_message_wrapper_buffer fbb root = roots.finish_size_prefixed root fbb

-- What is documented: a buffer that is finished with a table can be read, has the tables that the
-- builder had, and its root, read by the function of the same kind, is where that table is.
pub record Rooted {V B : Type 0} {w : Writer B} {reads : B → Reader V} (l : Library w reads)
    (roots : Roots V B) : Type 0 where
  pub finishes :
      (t : ℕ) (b : B)
      → l.IsFree b
      → l.IsMade t b
      → let b' = roots.finish t b in
        l.IsReadable b' × Carries l.IsMade l.table b b' × (roots.get_root b' ≡ l.place b' t)
  pub finishes_prefixed :
      (t : ℕ) (b : B)
      → l.IsFree b
      → l.IsMade t b
      → let b' = roots.finish_size_prefixed t b in
        l.IsReadable b'
        × Carries l.IsMade l.table b b'
        × (roots.get_size_prefixed_root b' ≡ l.place b' t)

-- At `root` there is a wrapper of this type with the message.
pub record Holds {V : Type 0} (r : Reader V) (place : ℕ → ℕ) (type : ℕ) (m : Message ℕ) (root : ℕ)
    : Type 0 where
  pub content : ℕ
  pub wrapper : IsWrapper r type (kind m) (some content) root
  pub message : read_message r (kind m) content ≡ map_strings (pointer place) m

module _ {V B : Type 0} {w : Writer B} {reads : B → Reader V} (l : Library w reads)
    {roots : Roots V B} (h : Rooted l roots) where
  -- A message that is created, wrapped under the code of its table, and finished as a buffer, with or
  -- without a size in front, comes back from that buffer, for a library that keeps what it
  -- documents, a builder with no table under construction, numbers of 32 bits, and strings that
  -- were made before: the root, read by the function of the same kind, is a wrapper with the type
  -- that was given and the code of the message's table. As that table its content is the message,
  -- with each of its arguments, and as any other table it has none.
  pub finish-get :
      (type : ℕ) (m : Message ℕ) (b : B)
      → l.IsFree b
      → type < 2 ^ 32
      → InRange (λ o. l.IsMade o b) m
      → let (o, b1) = create_message w m b in
        let (t, b2) = Wrapper.create w type (MessageContent.code (enum_value (kind m))) o b1 in
        let plain = finish_message_wrapper_buffer roots b2 t in
        let prefixed = finish_size_prefixed_message_wrapper_buffer roots b2 t in
        Holds (reads plain) (l.place plain) type m (get_message_wrapper roots plain)
        × Holds
            (reads prefixed)
            (l.place prefixed)
            type
            m
            (get_size_prefixed_message_wrapper roots prefixed)
  unfolding get_message_wrapper get_size_prefixed_message_wrapper finish_message_wrapper_buffer
      finish_size_prefixed_message_wrapper_buffer
  finish-get type m b free bound fits =
      let (o, b1) = create_message w m b in
      let (t, b2) = Wrapper.create w type (MessageContent.code (enum_value (kind m))) o b1 in
      let inner = create-read l m b free fits in
      let outer =
        content_as-create l type o (kind m) b1 inner.stored.free bound inner.stored.is_made in
      let kept = outer.stored.later.1 o inner.stored.entries inner.stored.table in
      let held : (b' : B)
          → l.IsReadable b'
          → Carries l.IsMade l.table b2 b'
          → Holds (reads b') (l.place b') type m (l.place b' t) =
        λ b' readable carries.
          let i = outer.back b' readable (carries.1 t outer.stored.entries outer.stored.table) in
          record {
            content = l.place b' o;
            wrapper = record {
              has_type = i.has_type;
              has_code = i.has_code;
              has_content =
                  i.has_content
                  ∙ ap (λ c. if c then none else some (l.place b' o)) inner.stored.nonzero;
              no_other = i.no_other;
            };
            message = inner.back b' readable (carries.1 o inner.stored.entries kept);
          } in
      let f = h.finishes t b2 outer.stored.free outer.stored.is_made in
      let g = h.finishes_prefixed t b2 outer.stored.free outer.stored.is_made in
      (
        rw f.2 (held (roots.finish t b2) f.0 f.1),
        rw g.2 (held (roots.finish_size_prefixed t b2) g.0 g.1),
      )
