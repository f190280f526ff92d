-- ===== src/Iocp/Filling.antt =====
-- A slot's block is freed, and a new one is filled, the way `Packet::operator=` does it.
use iocp_server.Base.{ℕ, ◌≡◌, ◌≢◌, refl, sym, ap, ◌∙◌, arith, inl, inr, List, Option, none, some}
use iocp_server.Overlapped.{Address, null, block}
use iocp_server.Memory.{World, update, delete_chars}
use iocp_server.Memory.Laws.{update_self, update_ne, delete_chars_block}
use iocp_server.Packet.{Packet, duplicate}
use iocp_server.Packet.Laws.{
  with_block, without_block, with_block-IsTidy, without_block-IsTidy, duplicate_lem, owned_ne_next,
  le_self,
}
use iocp_server.Iocp.Slots.{
  Owner, Sound, Loose, bytes_at, shows, Clean, Keeps, Keeps-refl, shows_null, shows_block,
  some_ne_none,
}

-- A step that changes one block, which belongs to the slot `key` or is new.
module _ {key b : ℕ} {owner : Owner} (o : Option ℕ) {w w' : World}
    (slots_apart : (k c : ℕ) → k ≢ key → owner c ≡ some k → b ≢ c)
    (loose_apart : (c : ℕ) (bytes : List ℕ) → owner c ≡ none → w.blocks c ≡ some bytes → b ≢ c)
    (same : (c : ℕ) → b ≢ c → w'.blocks c ≡ w.blocks c) (same_received : w'.received ≡ w.received)
    (same_events : w'.events ≡ w.events) where
  pub Keeps-update : Clean (update owner b o) w' → Keeps key owner (update owner b o) w w'
  Keeps-update clean = record {
    clean = clean;
    others = keep_slot;
    loose = keep_loose;
    received = same_received;
    events = same_events;
  }
    where
      keep_slot :
          (k : ℕ) (p : Packet)
          → k ≢ key
          → Sound owner w k p
          → Sound (update owner b o) w' k p × (shows w' p ≡ shows w p)
      keep_slot k p ne (inl e) = (inl e, shows_null w w' p e)
      keep_slot k p ne (inr (c, bytes, at, holds, sized, mine)) =
          let far = slots_apart k c ne mine in
          (
            inr (c, bytes, at, same c far ∙ holds, sized, update_ne owner b c o far ∙ mine),
            shows_block w w' p c at (same c far),
          )

      keep_loose :
          (p : Packet) → Loose owner w p → Loose (update owner b o) w' p × (shows w' p ≡ shows w p)
      keep_loose p (inl e) = (inl e, shows_null w w' p e)
      keep_loose p (inr (c, bytes, at, holds, sized, free)) =
          let far = loose_apart c bytes free holds in
          (
            inr (c, bytes, at, same c far ∙ holds, sized, update_ne owner b c o far ∙ free),
            shows_block w w' p c at (same c far),
          )

-- The slot's block is freed.
pub release_lem :
    (key : ℕ) (owner : Owner) (w : World) (slot : Packet)
    → Clean owner w
    → Sound owner w key slot
    → (owner' : Owner) × (w' : World) × (delete_chars slot.buffer w ≡ some (tt, w'))
      × Keeps key owner owner' w w'
unfolding delete_chars
release_lem key owner w slot c (inl e) = (owner, w, rw e refl, Keeps-refl key owner w c)
release_lem key owner w slot c (inr (b, bytes, at, holds, sized, mine)) = (
  update owner b none,
  without_block w b,
  rw at (delete_chars_block w b bytes holds),
  Keeps-update none (λ k d ne theirs e. ne (cc))
      (λ d bytes' free there e. some_ne_none (sym mine ∙ ap owner e ∙ free))
      (λ d far. update_ne w.blocks b d none far) refl refl
      (record {
        tidy = without_block-IsTidy w b c.tidy;
        unowned = λ d h. ground (arith, c.unowned d h);
      }),
)

-- The bytes of a loose packet are copied into a new block of the slot.
pub fill_lem :
    (key : ℕ) (owner : Owner) (w : World) (p : Packet)
    → Clean owner w
    → Loose owner w p
    → (owner' : Owner) × (w' : World) × (buffer : Address) × (duplicate p.buffer p.data_size w
        ≡ some (buffer, w'))
      × Keeps key owner owner' w w'
      × Sound owner' w' key (record p { buffer = buffer })
      × (shows w' (record p { buffer = buffer }) ≡ shows w p)
unfolding duplicate
fill_lem key owner w p c (inl e) = (
  owner,
  w,
  null,
  rw e refl,
  Keeps-refl key owner w c,
  inl refl,
  ap (λ a. (p.client_id, bytes_at w a)) (sym e),
)
fill_lem key owner w p c (inr (b, bytes, at, holds, sized, free)) = (
  update owner w.next (some key),
  with_block w bytes,
  block w.next,
  rw at (duplicate_lem w b p.data_size bytes c.tidy holds sized),
  Keeps-update (some key)
      (λ k d ne theirs e.
        some_ne_none (sym theirs ∙ ap owner (sym e) ∙ c.unowned w.next (le_self w.next)))
      (λ d bytes' loose there. owned_ne_next w d bytes' c.tidy there)
      (λ d far. update_ne w.blocks w.next d (some bytes) far) refl refl
      (record {
        tidy = with_block-IsTidy w bytes c.tidy;
        unowned =
            λ d h. update_ne owner w.next d (some key) (omega arith) ∙ c.unowned d (omega arith);
      }),
  inr (
    w.next,
    bytes,
    refl,
    update_self w.blocks w.next (some bytes),
    sized,
    update_self owner w.next (some key),
  ),
  rw (at, holds, update_self w.blocks w.next (some bytes)) refl,
)
