-- ===== src/Protocol/Building.antt =====
-- A table that is built by a sequence of `AddElement` and `AddOffset` with default 0, each field once, as
-- the `Create` functions of IocpServer_1/MESSAGE_WRAPPER_generated.h do, and what is read back from it.
use iocp_server.Base.{
  ℕ, ◌^◌, arith, ◌<◌, ◌≡◌, refl, sym, ap, ◌∙◌, Bool, true, false, not, ◌||◌, Option, none, some,
  List, [], ◌∷◌, ◌==◌, if◌then◌else◌, Bool-cases, inl, inr, ==→eq,
}
use iocp_server.Protocol.Flatbuffers.{
  Reader, Writer, Library, byte, assoc, Entry, Entries, scalar, offset, Carries,
}

pub data Add : Type 0 where
  element : (size field value : ℕ) → Add
  link : (field offset : ℕ) → Add

abbrev field_of : Add → ℕ
field_of (element size field value) = field
field_of (link field o) = field

abbrev mentions : ℕ → List Add → Bool
mentions f [] = false
mentions f (a ∷ adds) = (field_of a == f) || mentions f adds

-- A scalar, or an offset, that is written unless it is 0.
abbrev pub scalar_or : ℕ → ℕ → Option Entry → Option Entry
scalar_or size value before = if value == 0 then before else some (scalar size value)

abbrev pub offset_or : ℕ → Option Entry → Option Entry
offset_or o before = if o == 0 then before else some (offset o)

abbrev kept : Add → Option Entry → Option Entry
kept (element size field value) before = scalar_or size value before
kept (link field o) before = offset_or o before

-- What the sequence gives to a field.
abbrev pub latest : ℕ → List Add → Option Entry → Option Entry
latest f [] before = before
latest f (a ∷ adds) before = latest f adds (if field_of a == f then kept a before else before)

module _ {B : Type 0} (w : Writer B) where
  abbrev pub built : List Add → B → B
  built [] b = b
  built (element size field value ∷ adds) b = built adds (w.add_element size field value 0 b)
  built (link field o ∷ adds) b = built adds (w.add_offset field o b)

  -- The table that a `Create` function finishes, and the builder behind it.
  abbrev pub finished : List Add → B → ℕ × B
  finished adds b = let (start, b0) = w.start_table b in w.end_table start (built adds b0)

assoc-entry :
    (f g : ℕ) (e : Entry) (c : Bool) (xs : Entries)
    → assoc f (if c then xs else (g, e) ∷ xs)
      ≡ (if g == f then (if c then assoc f xs else some e) else assoc f xs)
assoc-entry f g e true xs = same (g == f)
  where
    same : (d : Bool) {x : Option Entry} → x ≡ (if d then x else x)
    same true = refl
    same false = refl
assoc-entry f g e false xs = refl

-- The pointer behind an offset.
abbrev pub pointer : (ℕ → ℕ) → ℕ → Option ℕ
pointer place o = if o == 0 then none else some (place o)

pub byte_fits : (b : Bool) → byte b < 256 ^ 1
byte_fits true = omega arith
byte_fits false = omega arith

byte_back : (b : Bool) → not (byte b == 0) ≡ b
byte_back true = refl
byte_back false = refl

or_right : (a b : Bool) → b ≡ true → (a || b) ≡ true
or_right true b h = refl
or_right false b h = h

or_left : (a b : Bool) → a ≡ true → (a || b) ≡ true
or_left true b h = refl
or_left false b h = cc

module _ {V B : Type 0} {w : Writer B} {reads : B → Reader V} (l : Library w reads) where
  abbrev pub Later : B → B → Type 0
  Later = Carries l.IsMade l.table

  Later-trans : (a b c : B) → Later a b → Later b c → Later a c
  Later-trans a b c first next =
      ((λ o m. next.0 o (first.0 o m)), (λ t fs e. next.1 t fs (first.1 t fs e)))

  -- Each value fits its type, each offset is that of a finished object, and no field comes twice.
  abbrev FitsOne : Add → B → Type 0
  FitsOne (element size field value) b = value < 256 ^ size
  FitsOne (link field o) b = l.IsMade o b

  abbrev pub Fit : List Add → B → Type 0
  Fit [] b = Unit {0}
  Fit (a ∷ adds) b = FitsOne a b × (mentions (field_of a) adds ≡ false) × Fit adds b

  FitsOne-Later : (a : Add) (b b' : B) → Later b b' → FitsOne a b → FitsOne a b'
  FitsOne-Later (element size field value) b b' c h = h
  FitsOne-Later (link field o) b b' c h = c.0 o h

  Fit-Later : (adds : List Add) (b b' : B) → Later b b' → Fit adds b → Fit adds b'
  Fit-Later [] b b' c h = tt
  Fit-Later (a ∷ adds) b b' c (one, once, rest) =
      (FitsOne-Later a b b' c one, once, Fit-Later adds b b' c rest)

  -- What a table under construction has, behind some additions.
  record Going (start : ℕ) (adds : List Add) (b b' : B) : Type 0 where
    opened : l.IsOpen start b'
    looks : (f : ℕ) → assoc f (l.pending b') ≡ latest f adds (assoc f (l.pending b))
    later : Later b b'

  abbrev one_more : Add → B → B
  one_more a b = built w (a ∷ []) b

  add_one :
      (start : ℕ) (a : Add) (b : B)
      → l.IsOpen start b
      → FitsOne a b
      → assoc (field_of a) (l.pending b) ≡ none
      → Going start (a ∷ []) b (one_more a b)
  add_one start (element size field value) b opened fits unused =
      let r = l.adds size field value 0 start b opened fits unused in
      record {
        opened = r.0;
        looks = λ f.
            ap (assoc f) r.1 ∙ assoc-entry f field (scalar size value) (value == 0) (l.pending b);
        later = r.2;
      }
  add_one start (link field o) b opened fits unused =
      let r = l.links field o start b opened fits unused in
      record {
        opened = r.0;
        looks = λ f. ap (assoc f) r.1 ∙ assoc-entry f field (offset o) (o == 0) (l.pending b);
        later = r.2;
      }

  -- The fields that are still to come are not yet there.
  abbrev Unused : List Add → B → Type 0
  Unused adds b = (f : ℕ) → mentions f adds ≡ true → assoc f (l.pending b) ≡ none

  Unused-next :
      (start : ℕ) (a : Add) (adds : List Add) (b : B)
      → mentions (field_of a) adds ≡ false
      → Unused (a ∷ adds) b
      → Going start (a ∷ []) b (one_more a b)
      → Unused adds (one_more a b)
  Unused-next start a adds b once unused g f there = elim (Bool-cases (field_of a == f)) [
    | inl here ↦
        let again : mentions (field_of a) adds ≡ true =
          ap (λ k. mentions k adds) (==→eq (field_of a) f here) ∙ there in
        absurd (differ (sym again ∙ once))
    | inr other ↦ (rw other at (g.looks f)) ∙ unused f (or_right (field_of a == f) _ there)
  ]
    where
      differ : true ≡ false → ⊥
      differ e = cc

  going :
      (start : ℕ) (adds : List Add) (b : B)
      → l.IsOpen start b
      → Fit adds b
      → Unused adds b
      → Going start adds b (built w adds b)
  going start [] b opened fit unused = record {
    opened = opened;
    looks = λ f. refl;
    later = ((λ o m. m), (λ t fs e. e));
  }
  going start (a ∷ adds) b opened (one, once, fit) unused =
      let g =
        add_one start a b opened one (unused (field_of a) (or_left _ _ (eq_self (field_of a)))) in
      let b' = one_more a b in
      let rest =
        going start adds b' g.opened (Fit-Later adds b b' g.later fit)
          (Unused-next start a adds b once unused g) in
      behind a g rest
    where
      eq_self : (n : ℕ) → (n == n) ≡ true
      eq_self n = ground arith

      behind :
          (a : Add)
          → Going start (a ∷ []) b (one_more a b)
          → Going start adds (one_more a b) (built w adds (one_more a b))
          → Going start (a ∷ adds) b (built w (a ∷ adds) b)
      behind (element size field value) g r = record {
        opened = r.opened;
        looks = λ f. r.looks f ∙ ap (latest f adds) (g.looks f);
        later = Later-trans b _ _ g.later r.later;
      }
      behind (link field o) g r = record {
        opened = r.opened;
        looks = λ f. r.looks f ∙ ap (latest f adds) (g.looks f);
        later = Later-trans b _ _ g.later r.later;
      }

  -- A table that was finished, with the builder behind it.
  pub record Stored (made : ℕ × B) (b : B) : Type 0 where
    pub free : l.IsFree made.1
    pub is_made : l.IsMade made.0 made.1
    pub nonzero : (made.0 == 0) ≡ false
    pub entries : Entries
    pub table : l.table made.1 made.0 ≡ some entries
    pub later : Later b made.1

  pub record Finished (adds : List Add) (b : B) : Type 0 where
    pub stored : Stored (finished w adds b) b
    pub looks : (f : ℕ) → assoc f stored.entries ≡ latest f adds none

  pub finished_lem : (adds : List Add) (b : B) → l.IsFree b → Fit adds b → Finished adds b
  finished_lem adds b free fit =
      let (start, b0) = w.start_table b in
      let s = l.starts b free in
      let g = going start adds b0 s.0 (Fit-Later adds b b0 s.2 fit) (λ f there. ap (assoc f) s.1) in
      let e = l.ends start (built w adds b0) g.opened in
      record {
        stored = record {
          free = e.0;
          is_made = e.1;
          nonzero = e.2;
          entries = l.pending (built w adds b0);
          table = e.3;
          later = Later-trans b _ _ s.2 (Later-trans b0 _ _ g.later e.4);
        };
        looks = λ f. g.looks f ∙ ap (λ xs. latest f adds (assoc f xs)) s.1;
      }

  -- What is read from a finished table, now or later.
  pub scalar_back :
      (size t f v : ℕ) (fs : Entries) (b : B)
      → l.IsReadable b
      → l.table b t ≡ some fs
      → assoc f fs ≡ scalar_or size v none
      → (reads b).get_field size (l.place b t) f 0 ≡ v
  scalar_back size t f v fs b r at e = elim (Bool-cases (v == 0)) [
    | inl zero_v ↦ (l.misses t size f 0 fs b r at (rw zero_v at e)).0 ∙ sym (==→eq v 0 zero_v)
    | inr other ↦ l.gets t size f v 0 fs b r at (rw other at e)
  ]

  pub bool_back :
      (t f : ℕ) (x : Bool) (fs : Entries) (b : B)
      → l.IsReadable b
      → l.table b t ≡ some fs
      → assoc f fs ≡ scalar_or 1 (byte x) none
      → not ((reads b).get_field 1 (l.place b t) f 0 == 0) ≡ x
  bool_back t f x fs b r at e =
      ap (λ v. not (v == 0)) (scalar_back 1 t f (byte x) fs b r at e) ∙ byte_back x

  pub pointer_back :
      (t f o : ℕ) (fs : Entries) (b : B)
      → l.IsReadable b
      → l.table b t ≡ some fs
      → assoc f fs ≡ offset_or o none
      → (reads b).get_pointer (l.place b t) f ≡ pointer (l.place b) o
  pointer_back t f o fs b r at e = elim (Bool-cases (o == 0)) [
    | inl null ↦ rw null ((l.misses t 0 f 0 fs b r at (rw null at e)).1)
    | inr other ↦ rw other (l.points t f o fs b r at (rw other at e))
  ]
