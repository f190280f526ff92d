-- ===== src/Protocol/Flatbuffers.antt =====
-- What IocpServer_1/MESSAGE_WRAPPER_generated.h uses of the FlatBuffers library: the accessors of a
-- table and the checks of a verifier, and the operations of a builder. Both are parameters.
-- Pointers and offsets are numbers; a null pointer is `none`, and the offset 0 is none.
use iocp_server.Base.{
  ℕ, ◌^◌, ◌<◌, ◌≡◌, Bool, true, false, Option, none, some, List, [], ◌∷◌, ◌==◌, if◌then◌else◌,
}

-- `flatbuffers::Table` in a buffer, and `flatbuffers::Verifier` with its state. A check answers true
-- if it passes. `size` is the size of the type argument.
pub record Reader (V : Type 0) : Type 0 where
  pub get_field : (size table field default : ℕ) → ℕ
  pub get_pointer : (table field : ℕ) → Option ℕ
  pub verify_table_start : ℕ → V → Bool × V
  pub verify_field : (size table field align : ℕ) → V → Bool × V
  pub verify_offset : (table field : ℕ) → V → Bool × V
  pub verify_string : Option ℕ → V → Bool × V
  pub verify_table : (ℕ → V → Bool × V) → Option ℕ → V → Bool × V
  pub end_checks : V → Bool × V  -- `EndTable` of the verifier

-- `flatbuffers::FlatBufferBuilder`
pub record Writer (B : Type 0) : Type 0 where
  pub start_table : B → ℕ × B
  pub add_element : (size field value default : ℕ) → B → B
  pub add_offset : (field offset : ℕ) → B → B
  pub end_table : ℕ → B → ℕ × B
  pub create_string : List ℕ → B → ℕ × B

-- `&&` between two checks
abbrev pub ◌and_then◌ : {V : Type 0} → (V → Bool × V) → (V → Bool × V) → V → Bool × V
(f and_then g) v = let (passed, v') = f v in if passed then g v' else (false, v')

infixr 30 ◌and_then◌
-- `static_cast<uint8_t>` of a `bool`
abbrev pub byte : Bool → ℕ
byte true = 1
byte false = 0

module _ {B : Type 0} (w : Writer B) where
  -- `text ? _fbb.CreateString(text) : 0`
  abbrev pub string_offset : Option (List ℕ) → B → ℕ × B
  string_offset none b = (0, b)
  string_offset (some text) b = w.create_string text b

-- A field of a table: a scalar of so many bytes, or an offset.
pub data Entry : Type 0 where
  scalar : (size value : ℕ) → Entry
  offset : ℕ → Entry

abbrev pub Entries : Type 0
Entries = List (ℕ × Entry)

abbrev pub assoc : ℕ → Entries → Option Entry
assoc k [] = none
assoc k ((i, e) ∷ rest) = if i == k then some e else assoc k rest

-- What is finished in a builder stays.
abbrev pub Carries : {B : Type 0} → (ℕ → B → Type 0) → (B → ℕ → Option Entries) → B → B → Type 0
Carries IsMade table b b' =
    ((o : ℕ) → IsMade o b → IsMade o b')
    × ((t : ℕ) (fs : Entries) → table b t ≡ some fs → table b' t ≡ some fs)

-- What the library documents of a builder whose buffer does not outgrow its limit, read back by
-- `reads`. One table is built at a time: nothing is (`IsFree`), or the one that was started at an
-- offset (`IsOpen`), whose fields so far are `pending`. `IsMade` are the offsets of finished
-- objects, and 0; `table` has the fields of the finished tables, and `place` says where an object
-- is in the buffer. A field is added once; an element that equals its default, and the offset 0,
-- are left out. A field that was left out reads as its default, or as null. A scalar is read back
-- at the size that it was written with, and an offset as a pointer.
pub record Library {V B : Type 0} (w : Writer B) (reads : B → Reader V) : Type 1 where
  pub IsFree : B → Type 0
  pub IsOpen : ℕ → B → Type 0
  pub IsMade : ℕ → B → Type 0
  pub IsReadable : B → Type 0
  pub pending : B → Entries
  pub table : B → ℕ → Option Entries
  pub place : B → ℕ → ℕ
  pub null_made : (b : B) → IsMade 0 b
  pub free_readable : (b : B) → IsFree b → IsReadable b
  pub starts :
      (b : B)
      → IsFree b
      → let (start, b') = w.start_table b in
        IsOpen start b' × (pending b' ≡ []) × Carries IsMade table b b'
  pub adds :
      (size field value default start : ℕ) (b : B)
      → IsOpen start b
      → value < 256 ^ size
      → assoc field (pending b) ≡ none
      → let b' = w.add_element size field value default b in
        IsOpen start b'
        × (pending b'
            ≡ (if value == default then pending b else (field, scalar size value) ∷ pending b))
        × Carries IsMade table b b'
  pub links :
      (field o start : ℕ) (b : B)
      → IsOpen start b
      → IsMade o b
      → assoc field (pending b) ≡ none
      → let b' = w.add_offset field o b in
        IsOpen start b'
        × (pending b' ≡ (if o == 0 then pending b else (field, offset o) ∷ pending b))
        × Carries IsMade table b b'
  pub ends :
      (start : ℕ) (b : B)
      → IsOpen start b
      → let (t, b') = w.end_table start b in
        IsFree b'
        × IsMade t b'
        × ((t == 0) ≡ false)
        × (table b' t ≡ some (pending b))
        × Carries IsMade table b b'
  pub misses :
      (t size field default : ℕ) (fs : Entries) (b : B)
      → IsReadable b
      → table b t ≡ some fs
      → assoc field fs ≡ none
      → ((reads b).get_field size (place b t) field default ≡ default)
        × ((reads b).get_pointer (place b t) field ≡ none)
  pub gets :
      (t size field value default : ℕ) (fs : Entries) (b : B)
      → IsReadable b
      → table b t ≡ some fs
      → assoc field fs ≡ some (scalar size value)
      → (reads b).get_field size (place b t) field default ≡ value
  pub points :
      (t field o : ℕ) (fs : Entries) (b : B)
      → IsReadable b
      → table b t ≡ some fs
      → assoc field fs ≡ some (offset o)
      → (reads b).get_pointer (place b t) field ≡ some (place b o)
