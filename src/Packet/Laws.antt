-- ===== src/Packet/Laws.antt =====
-- `Packet` of IocpServer_1/CustomOverlapped.h and the block that it owns.
use iocp_server.Base.{
  ℕ, suc, ◌≤◌, ◌≡◌, refl, sym, ap, ◌∙◌, ◌≢◌, true, false, List, none, some, arith, length,
  replicate, take, length-replicate, length-take,
}
use iocp_server.Overlapped.{Address, block, receive_buf}
use iocp_server.Memory.{
  World, update, new_chars, copy_memory, delete_chars, read_chars, ◌>>=◌, ◌>>◌,
}
use iocp_server.Memory.Laws.{
  IsTidy, update-update, update_self, update_ne, update_back, take_all, read_chars_block,
  read_chars_received, write_chars_block, delete_chars_block, delete_chars_freed,
}
use iocp_server.Packet.{Packet, default_packet, duplicate, copy, assign, set_data, destroy}

-- The packet's buffer is the block at `a`, which holds `bytes`, as many as the packet says.
pub record Owns (w : World) (p : Packet) (a : ℕ) (bytes : List ℕ) : Type 0 where
  pub at : p.buffer ≡ block a
  pub holds : w.blocks a ≡ some bytes
  pub sized : length bytes ≡ p.data_size

-- A world with one more block, which holds `bytes`.
abbrev pub with_block : World → List ℕ → World
with_block w bytes = record w { next = suc w.next; blocks = update w.blocks w.next (some bytes) }

pub copy_memory_lem :
    (w : World) (from : Address) (n : ℕ) (bytes : List ℕ)
    → read_chars from n (with_block w (replicate n 0)) ≡ some (bytes, with_block w (replicate n 0))
    → length bytes ≡ n
    → copy_memory (block w.next) from n (with_block w (replicate n 0))
      ≡ some (tt, with_block w bytes)
unfolding copy_memory
copy_memory_lem w from n bytes r l =
    rw (r, ◌>>=◌)
      (write_chars_block (with_block w (replicate n 0)) w.next bytes (replicate n 0)
          (update_self w.blocks w.next (some (replicate n 0))) (length-replicate n 0 ∙ sym l)
        ∙ ap (λ f. some (tt, record w { next = suc w.next; blocks = f }))
            (update-update w.blocks w.next (some (replicate n 0)) (some bytes)))

some≢none : {x : List ℕ} → some x ≢ none
some≢none e = cc

pub le_self : (n : ℕ) → n ≤ n
le_self n = omega arith

-- A block that exists lies below the next address.
pub owned_ne_next :
    (w : World) (a : ℕ) (bytes : List ℕ) → IsTidy w → w.blocks a ≡ some bytes → w.next ≢ a
owned_ne_next w a bytes t h e = some≢none (sym h ∙ ap w.blocks (sym e) ∙ t w.next (le_self w.next))

pub duplicate_lem :
    (w : World) (a n : ℕ) (bytes : List ℕ)
    → IsTidy w
    → w.blocks a ≡ some bytes
    → length bytes ≡ n
    → duplicate (block a) n w ≡ some (block w.next, with_block w bytes)
unfolding duplicate new_chars
duplicate_lem w a n bytes t h l =
    let still : (with_block w (replicate n 0)).blocks a ≡ some bytes =
      update_ne w.blocks w.next a (some (replicate n 0)) (owned_ne_next w a bytes t h) ∙ h in
    let r = read_chars_block (with_block w (replicate n 0)) a n bytes still (omega arith) in
    rw (copy_memory_lem w (block a) n bytes (rw (take_all bytes n (sym l)) at r) l, ◌>>=◌)

-- In a heap with no block at the next address or above, the copy constructor allocates one block
-- with the bytes of the packet's own block, and the copy owns it; the original and every other
-- block are as before.
pub copy_lem :
    (w : World) (p : Packet) (a : ℕ) (bytes : List ℕ)
    → IsTidy w
    → Owns w p a bytes
    → (copy p w ≡ some (record p { buffer = block w.next }, with_block w bytes))
      × Owns (with_block w bytes) (record p { buffer = block w.next }) w.next bytes
      × Owns (with_block w bytes) p a bytes
      × (w.next ≢ a)
unfolding copy
copy_lem w p a bytes t o = (
  rw (o.at) (rw (duplicate_lem w a p.data_size bytes t o.holds o.sized, ◌>>=◌)),
  record { at = refl; holds = update_self w.blocks w.next (some bytes); sized = o.sized },
  record {
    at = o.at;
    holds = update_ne w.blocks w.next a (some bytes) (owned_ne_next w a bytes t o.holds) ∙ o.holds;
    sized = o.sized;
  },
  owned_ne_next w a bytes t o.holds,
)

-- A world without the block at `a`.
abbrev pub without_block : World → ℕ → World
without_block w a = record w { blocks = update w.blocks a none }

pub without_block-IsTidy : (w : World) (a : ℕ) → IsTidy w → IsTidy (without_block w a)
without_block-IsTidy w a t b h = ground (arith, t b)

-- In a heap with no block at the next address or above, assignment between two packets that own
-- different blocks frees the old block of the target, and gives it a new one with the source's bytes;
-- the source keeps its own. Assigning a packet to itself changes nothing.
pub assign_lem :
    (w : World) (p q : Packet) (a b : ℕ) (old bytes : List ℕ)
    → IsTidy w
    → Owns w p a old
    → Owns w q b bytes
    → a ≢ b
    → (assign false p q w
        ≡ some (record q { buffer = block w.next }, with_block (without_block w a) bytes))
      × Owns (with_block (without_block w a) bytes) q b bytes
      × ((with_block (without_block w a) bytes).blocks a ≡ none)
      × (assign true p p w ≡ some (p, w))
unfolding assign
assign_lem w p q a b old bytes t op oq ne =
    let w' = without_block w a in
    let still : w'.blocks b ≡ some bytes = update_ne w.blocks a b none ne ∙ oq.holds in
    let t' = without_block-IsTidy w a t in
    let freed : delete_chars p.buffer w ≡ some (tt, w') =
      rw (op.at) (delete_chars_block w a old op.holds) in
    let dup : duplicate q.buffer q.data_size w' ≡ some (block w.next, with_block w' bytes) =
      rw (oq.at) (duplicate_lem w' b q.data_size bytes t' still oq.sized) in
    (
      rw (freed, ◌>>=◌) (rw (dup, ◌>>=◌)),
      record {
        at = oq.at;
        holds =
            update_ne w'.blocks w.next b (some bytes) (owned_ne_next w' b bytes t' still) ∙ still;
        sized = oq.sized;
      },
      update_ne w'.blocks w.next a (some bytes) (owned_ne_next w a old t op.holds)
          ∙ update_self w.blocks a none,
      refl,
    )

-- In a heap with no block at the next address or above, a copy of a packet that owns a block, when
-- it is destroyed, leaves the blocks as they were: nothing leaks and nothing is freed twice.
pub copy-destroy :
    (w : World) (p : Packet) (a : ℕ) (bytes : List ℕ)
    → IsTidy w
    → Owns w p a bytes
    → (copy p >>= destroy) w ≡ some (tt, record w { next = suc w.next })
unfolding destroy
copy-destroy w p a bytes t o =
    rw ((copy_lem w p a bytes t o).0, ◌>>=◌)
      (delete_chars_block (with_block w bytes) w.next bytes
          (update_self w.blocks w.next (some bytes))
        ∙ ap (λ f. some (tt, record w { next = suc w.next; blocks = f }))
            (update-update w.blocks w.next (some bytes) none
              ∙ update_back w.blocks w.next none (t w.next (le_self w.next))))

-- A packet that owns a block can be destroyed once, and not twice.
pub destroy_twice :
    (w : World) (p : Packet) (a : ℕ) (bytes : List ℕ)
    → Owns w p a bytes
    → (destroy p w ≡ some (tt, without_block w a)) × ((destroy p >> destroy p) w ≡ none)
unfolding destroy
destroy_twice w p a bytes o =
    let once : delete_chars p.buffer w ≡ some (tt, without_block w a) =
      rw (o.at) (delete_chars_block w a bytes o.holds) in
    (
      once,
      rw (once, ◌>>=◌)
          (rw (o.at) (delete_chars_freed (without_block w a) a (update_self w.blocks a none))),
    )

-- `Set` on a fresh packet, from an array that a client owns and that holds enough: the packet owns a
-- new block with the first `n` bytes of the array.
pub set_data_lem :
    (w : World) (id source n : ℕ) (array : List ℕ)
    → w.received source ≡ some array
    → n ≤ length array
    → let p : Packet = record { client_id = id; buffer = block w.next; data_size = n } in
      (set_data default_packet id (receive_buf source) n w ≡ some (p, with_block w (take n array)))
      × Owns (with_block w (take n array)) p w.next (take n array)
unfolding set_data delete_chars new_chars
set_data_lem w id source n array h l =
    let w' = with_block w (replicate n 0) in
    let r : read_chars (receive_buf source) n w' ≡ some (take n array, w') =
      read_chars_received w' source n array h l in
    (
      rw (copy_memory_lem w (receive_buf source) n (take n array) r (length-take n array l), ◌>>=◌),
      record {
        at = refl;
        holds = update_self w.blocks w.next (some (take n array));
        sized = length-take n array l;
      },
    )

pub with_block-IsTidy : (w : World) (bytes : List ℕ) → IsTidy w → IsTidy (with_block w bytes)
with_block-IsTidy w bytes t b h =
    update_ne w.blocks w.next b (some bytes) (omega arith) ∙ t b (omega arith)
