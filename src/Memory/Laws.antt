-- ===== src/Memory/Laws.antt =====
-- What the heap operations do on blocks that exist.
use mathlib.Core.Path.{fun_ext}
use iocp_server.Base.{
  ℕ, zero, suc, ◌≤◌, ◌≡◌, refl, ap, ◌≢◌, true, List, [], ◌∷◌, none, some, arith, length, take, drop,
  leb, append-nil, ne→==, eq→==,
}
use iocp_server.Overlapped.{block, receive_buf}
use iocp_server.Memory.{World, update, read_chars, write_chars, delete_chars}

-- No block lies at or above the next address.
abbrev pub IsTidy : World → Type 0
IsTidy w = (a : ℕ) → w.next ≤ a → w.blocks a ≡ none

pub update-update :
    {V : Type 0} (f : ℕ → V) (a : ℕ) (u v : V) → update (update f a u) a v ≡ update f a v
update-update f a u v = fun_ext λ b. ground arith

pub update_self : {V : Type 0} (f : ℕ → V) (a : ℕ) (v : V) → update f a v a ≡ v
update_self f a v = rw (eq→== a a refl)

pub update_ne : {V : Type 0} (f : ℕ → V) (a b : ℕ) (v : V) → a ≢ b → update f a v b ≡ f b
update_ne f a b v h = rw (ne→== a b h)

-- A block put back as it was.
pub update_back : {V : Type 0} (f : ℕ → V) (a : ℕ) (v : V) → f a ≡ v → update f a v ≡ f
update_back f a v h = fun_ext λ b. ground arith

pub leb-true : (a b : ℕ) → a ≤ b → leb a b ≡ true
leb-true a b h = ground arith

pub take_all {ℓ} : {A : Type ℓ} (xs : List A) (n : ℕ) → n ≡ length xs → take n xs ≡ xs
take_all [] zero h = refl
take_all [] (suc n) h = absurd (omega arith)
take_all (x ∷ xs) zero h = absurd (omega arith)
take_all (x ∷ xs) (suc n) h = ap (λ l. x ∷ l) (take_all xs n (omega arith))

pub drop_all {ℓ} : {A : Type ℓ} (xs : List A) (n : ℕ) → length xs ≤ n → drop n xs ≡ []
drop_all [] zero h = refl
drop_all [] (suc n) h = refl
drop_all (x ∷ xs) zero h = absurd (omega arith)
drop_all (x ∷ xs) (suc n) h = drop_all xs n (omega arith)

pub read_chars_block :
    (w : World) (a n : ℕ) (bytes : List ℕ)
    → w.blocks a ≡ some bytes
    → n ≤ length bytes
    → read_chars (block a) n w ≡ some (take n bytes, w)
unfolding read_chars
read_chars_block w a n bytes h l = rw (h, leb-true n (length bytes) l)

pub write_chars_block :
    (w : World) (a : ℕ) (src bytes : List ℕ)
    → w.blocks a ≡ some bytes
    → length bytes ≡ length src
    → write_chars (block a) src w ≡ some (tt, record w { blocks = update w.blocks a (some src) })
unfolding write_chars
write_chars_block w a src bytes h l = rw (
  h,
  leb-true (length src) (length bytes) (omega arith),
  drop_all bytes (length src) (omega arith),
  append-nil,
)

pub delete_chars_block :
    (w : World) (a : ℕ) (bytes : List ℕ)
    → w.blocks a ≡ some bytes
    → delete_chars (block a) w ≡ some (tt, record w { blocks = update w.blocks a none })
unfolding delete_chars
delete_chars_block w a bytes h = rw h

pub delete_chars_freed : (w : World) (a : ℕ) → w.blocks a ≡ none → delete_chars (block a) w ≡ none
unfolding delete_chars
delete_chars_freed w a h = rw h

pub read_chars_received :
    (w : World) (id n : ℕ) (array : List ℕ)
    → w.received id ≡ some array
    → n ≤ length array
    → read_chars (receive_buf id) n w ≡ some (take n array, w)
unfolding read_chars
read_chars_received w id n array h l = rw (h, leb-true n (length array) l)
