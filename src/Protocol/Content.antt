-- ===== src/Protocol/Content.antt =====
-- The content of a MESSAGE_WRAPPER in IocpServer_1/MESSAGE_WRAPPER_generated.h, by the type of its union.
use iocp_server.Base.{ℕ, ◌^◌, ◌<◌, ◌≡◌, ◌≢◌, refl, Option, none, some, List, [], ◌∷◌, ne→==, eq→==}
use iocp_server.Protocol.Flatbuffers.{Reader, Writer, Library}
use iocp_server.Protocol.Building.{
  Add, element, link, Stored, finished_lem, scalar_back, pointer_back, pointer,
}
use iocp_server.Protocol.MessageContent
use iocp_server.Protocol.Message.{Kind}
use iocp_server.Protocol.Wrapper
use iocp_server.Protocol.Wrapper.{enum_value}
use iocp_server.Protocol.Union.{codes_differ, code_bound}

-- A wrapper with these contents at `t`: as the table of its code it has the content, and as any other
-- table it has none.
pub record IsWrapper {V : Type 0} (r : Reader V) (type : ℕ) (k : Kind) (content : Option ℕ) (t : ℕ)
    : Type 0 where
  pub has_type : Wrapper.message_type r t ≡ type
  pub has_code : Wrapper.content_type r t ≡ MessageContent.code (enum_value k)
  pub has_content : Wrapper.content_as r k t ≡ content
  pub no_other : (k' : Kind) → k ≢ k' → Wrapper.content_as r k' t ≡ none

-- A wrapper that was created with the code of the table `k` and the offset `o` of its content.
pub record Wrapped {V B : Type 0} {w : Writer B} {reads : B → Reader V} (l : Library w reads)
    (type o : ℕ) (k : Kind) (b : B) : Type 0 where
  pub stored : Stored l (Wrapper.create w type (MessageContent.code (enum_value k)) o b) b
  pub back :
      (b' : B)
      → l.IsReadable b'
      → l.table b' (Wrapper.create w type (MessageContent.code (enum_value k)) o b).0
        ≡ some stored.entries
      → IsWrapper
          (reads b')
          type
          k
          (pointer (l.place b') o)
          (l.place b' (Wrapper.create w type (MessageContent.code (enum_value k)) o b).0)

module _ {V B : Type 0} {w : Writer B} {reads : B → Reader V} (l : Library w reads) where
  -- For a library that keeps what it documents, a builder with no table under construction, a type of 32
  -- bits and an offset that was made: a wrapper that is created with the code of one table and the
  -- offset of its content is finished, and in every later state that still has it reads back its
  -- type and its code. As that table it has the content, and as any other table it has none.
  pub content_as-create :
      (type o : ℕ) (k : Kind) (b : B)
      → l.IsFree b
      → type < 2 ^ 32
      → l.IsMade o b
      → Wrapped l type o k b
  unfolding Wrapper.create Wrapper.message_type Wrapper.content_type Wrapper.content
      Wrapper.content_as
  content_as-create type o k b free h made =
      let c = MessageContent.code (enum_value k) in
      let adds : List Add =
        link Wrapper.vt_content o
        ∷ element 4 Wrapper.vt_message_type type
        ∷ element 1 Wrapper.vt_content_type c
        ∷ [] in
      let d = finished_lem l adds b free (made, refl, (h, refl, (code_bound k, refl, tt))) in
      record {
        stored = d.stored;
        back = λ b' r at.
            let es = d.stored.entries in
            let code =
              scalar_back l 1 _ Wrapper.vt_content_type c es b' r at
                (d.looks Wrapper.vt_content_type) in
            record {
              has_type =
                  scalar_back l 4 _ Wrapper.vt_message_type type es b' r at
                    (d.looks Wrapper.vt_message_type);
              has_code = code;
              has_content =
                  rw (code, eq→== c c refl)
                    (pointer_back l _ Wrapper.vt_content o es b' r at (d.looks Wrapper.vt_content));
              no_other = λ k' differ.
                  rw
                    (code, ne→== c (MessageContent.code (enum_value k')) (codes_differ k k' differ))
                    refl;
            };
      }
