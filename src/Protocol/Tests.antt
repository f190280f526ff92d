-- ===== src/Protocol/Tests.antt =====
-- The theorems on the protocol, with a builder that keeps the tables it has finished, and a verifier
-- that counts the tables it accepts.
use iocp_server.Base.{
  ℕ, zero, suc, ◌+◌, ◌%◌, ◌≡◌, refl, sym, ap, ◌∙◌, arith, true, false, Option, none, some, List, [],
  ◌∷◌, ◌++◌, ◌==◌, if◌then◌else◌, length, append-nil, eq→==,
}
use iocp_server.Protocol.Flatbuffers.{
  Reader, Writer, Library, Entry, Entries, scalar, offset, assoc, Carries,
}
use iocp_server.Protocol.Message.{Message, request_room_create, is_request_login, create_message}
use iocp_server.Protocol.Requests.{Created}
use iocp_server.Protocol.Roundtrip.{create-read}
use iocp_server.Protocol.Wrapper
use iocp_server.Protocol.Vector.{verify_all, verify_vector_lem}
use iocp_server.Protocol.Content.{Wrapped, content_as-create}
use iocp_server.Protocol.Buffer.{
  Roots, Rooted, Holds, get_message_wrapper, get_size_prefixed_message_wrapper,
  finish_message_wrapper_buffer, finish_size_prefixed_message_wrapper_buffer, finish-get,
}

-- The fields of the table under construction, the finished tables, of which the first is at 1, and the
-- root.
record Memory : Type 0 where
  fields : Entries
  tables : List Entries
  root : ℕ

abbrev nth : ℕ → List Entries → Option Entries
nth n [] = none
nth zero (fs ∷ rest) = some fs
nth (suc n) (fs ∷ rest) = nth n rest

abbrev table_at : Memory → ℕ → Option Entries
table_at m zero = none
table_at m (suc n) = nth n m.tables

nth-append :
    (n : ℕ) (xs ys : List Entries) (fs : Entries) → nth n xs ≡ some fs → nth n (xs ++ ys) ≡ some fs
nth-append n [] ys fs e = cc
nth-append zero (x ∷ xs) ys fs e = e
nth-append (suc n) (x ∷ xs) ys fs e = nth-append n xs ys fs e

nth_new : (xs : List Entries) (fs : Entries) → nth (length xs) (xs ++ fs ∷ []) ≡ some fs
nth_new [] fs = refl
nth_new (x ∷ xs) fs = nth_new xs fs

abbrev entry : ℕ → ℕ → ℕ → Entry → Memory → Memory
entry field value default e m = record m {
  fields = if value == default then m.fields else (field, e) ∷ m.fields;
}

abbrev writer : Writer Memory
writer = record {
  start_table = λ m. (7, record m { fields = [] });
  add_element = λ size field value default m. entry field value default (scalar size value) m;
  add_offset = λ field o m. entry field o 0 (offset o) m;
  end_table = λ start m.
      (suc (length m.tables), record m { fields = []; tables = m.tables ++ m.fields ∷ [] });
  create_string = λ text m. (9, m);
}

-- A scalar is read at its own size only.
abbrev scalar_in : ℕ → ℕ → Option Entry → ℕ
scalar_in size default none = default
scalar_in size default (some (scalar s v)) = if s == size then v else v % 256
scalar_in size default (some (offset o)) = o

abbrev pointer_in : Option Entry → Option ℕ
pointer_in none = none
pointer_in (some (scalar s v)) = none
pointer_in (some (offset o)) = some o

abbrev field_in : ℕ → Option Entries → Option Entry
field_in f none = none
field_in f (some fs) = assoc f fs

abbrev reader : Memory → Reader ℕ
reader m = record {
  get_field = λ size t field default. scalar_in size default (field_in field (table_at m t));
  get_pointer = λ t field. pointer_in (field_in field (table_at m t));
  verify_table_start = λ t n. (true, n);
  verify_field = λ size t field align n. (true, n);
  verify_offset = λ t field n. (true, n);
  verify_string = λ s n. (true, n);
  verify_table = λ check t n. (true, n + 1);
  end_checks = λ n. (true, n);
}

carries :
    (m m' : Memory) (ys : List Entries)
    → m'.tables ≡ m.tables ++ ys
    → Carries (λ o b. Unit {0}) table_at m m'
carries m m' ys e = ((λ o made. tt), stays)
  where
    stays : (t : ℕ) (fs : Entries) → table_at m t ≡ some fs → table_at m' t ≡ some fs
    stays zero fs h = cc
    stays (suc n) fs h = ap (nth n) e ∙ nth-append n m.tables ys fs h

same_tables : (m m' : Memory) → m'.tables ≡ m.tables → Carries (λ o b. Unit {0}) table_at m m'
same_tables m m' e = carries m m' [] (e ∙ sym (append-nil m.tables))

suc_nonzero : (n : ℕ) → (suc n == 0) ≡ false
suc_nonzero n = ground arith

abbrev library : Library writer reader
library = record {
  IsFree = λ m. Unit {0};
  IsOpen = λ start m. Unit {0};
  IsMade = λ o m. Unit {0};
  IsReadable = λ m. Unit {0};
  pending = λ m. m.fields;
  table = table_at;
  place = λ m o. o;
  null_made = λ b. tt;
  free_readable = λ b h. tt;
  starts = λ b h. (tt, refl, same_tables b (writer.start_table b).1 refl);
  adds = λ size field value default start b opened fits new.
      (tt, refl, same_tables b (writer.add_element size field value default b) refl);
  links = λ field o start b opened made new.
      (tt, refl, same_tables b (writer.add_offset field o b) refl);
  ends = λ start b opened. (
    tt,
    tt,
    suc_nonzero (length b.tables),
    nth_new b.tables b.fields,
    carries b (writer.end_table start b).1 (b.fields ∷ []) refl,
  );
  misses = λ t size field default fs b r at e. rw (at, e) (refl, refl);
  gets = λ t size field value default fs b r at e. rw (at, e, eq→== size size refl) refl;
  points = λ t field o fs b r at e. rw (at, e) refl;
}

abbrev no_table : Memory
no_table = record { fields = []; tables = []; root = 0 }

create-read_example : Created library (request_room_create 5 40 0) no_table
create-read_example =
    create-read library (request_room_create 5 40 0) no_table tt (omega arith, tt, tt)

content_as-create_example : Wrapped library 1 40 is_request_login no_table
content_as-create_example =
    content_as-create library 1 40 is_request_login no_table tt (omega arith) tt

verify_vector_lem_example :
    Wrapper.verify_message_content_vector
      (reader no_table)
      (some (some 4 ∷ none ∷ []))
      (some (15 ∷ 0 ∷ []))
      0
    ≡ verify_all (reader no_table) (some 4 ∷ none ∷ []) (15 ∷ 0 ∷ []) 0
verify_vector_lem_example = verify_vector_lem (reader no_table) (some 4 ∷ none ∷ []) (15 ∷ 0 ∷ []) 0

abbrev roots : Roots ℕ Memory
roots = record {
  get_root = λ m. m.root;
  get_size_prefixed_root = λ m. m.root;
  verify_buffer = λ check n. check 8 n;
  verify_size_prefixed_buffer = λ check n. check 8 n;
  finish = λ o m. record m { root = o };
  finish_size_prefixed = λ o m. record m { root = o };
}

roots-Rooted : Rooted library roots
roots-Rooted = record {
  finishes = λ t b free made. (tt, same_tables b (roots.finish t b) refl, refl);
  finishes_prefixed =
      λ t b free made. (tt, same_tables b (roots.finish_size_prefixed t b) refl, refl);
}

finish-get_example :
    let m : Message ℕ = request_room_create 5 40 0 in
    let (o, b1) = create_message writer m no_table in
    let (t, b2) = Wrapper.create writer 5 5 o b1 in
    let plain = finish_message_wrapper_buffer roots b2 t in
    let prefixed = finish_size_prefixed_message_wrapper_buffer roots b2 t in
    Holds (reader plain) (λ o. o) 5 m (get_message_wrapper roots plain)
    × Holds (reader prefixed) (λ o. o) 5 m (get_size_prefixed_message_wrapper roots prefixed)
finish-get_example =
    finish-get library roots-Rooted 5 (request_room_create 5 40 0) no_table tt (omega arith)
      (omega arith, tt, tt)
