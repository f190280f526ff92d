-- ===== src/Iocp/Slots.antt =====
-- The slots of the four packet queues of IOCompletionPort.h, and the blocks that they own.
use iocp_server.Base.{
  ℕ, ◌≤◌, ◌≡◌, ◌≢◌, refl, sym, ap, subst, ◌∙◌, ◌⊎◌, inl, inr, List, [], Option, none, some, length,
}
use iocp_server.Overlapped.{Address, null, block}
use iocp_server.Memory.{World}
use iocp_server.Memory.Laws.{IsTidy}
use iocp_server.Packet.{Packet}

-- Which slot a block belongs to, if it belongs to one. Slots are numbered through all queues.
abbrev pub Owner : Type 0
Owner = ℕ → Option ℕ

-- The packet in the slot `key` has no block, or one that belongs to this slot and is as long as the
-- packet says.
abbrev pub Sound : Owner → World → ℕ → Packet → Type 0
Sound owner w key p =
    (p.buffer ≡ null)
    ⊎ ((b : ℕ) × (bytes : List ℕ) × (p.buffer ≡ block b)
        × (w.blocks b ≡ some bytes)
        × (length bytes ≡ p.data_size)
        × (owner b ≡ some key))

-- A packet that is in no slot.
abbrev pub Loose : Owner → World → Packet → Type 0
Loose owner w p =
    (p.buffer ≡ null)
    ⊎ ((b : ℕ) × (bytes : List ℕ) × (p.buffer ≡ block b)
        × (w.blocks b ≡ some bytes)
        × (length bytes ≡ p.data_size)
        × (owner b ≡ none))

abbrev pub or_empty : Option (List ℕ) → List ℕ
or_empty none = []
or_empty (some bytes) = bytes

abbrev pub bytes_at : World → Address → List ℕ
bytes_at w (block b) = or_empty (w.blocks b)
bytes_at w p = []

-- The client and the bytes of a packet.
abbrev pub shows : World → Packet → ℕ × List ℕ
shows w p = (p.client_id, bytes_at w p.buffer)

-- The heap has no blocks from the next address on, and they belong to no slot.
pub record Clean (owner : Owner) (w : World) : Type 0 where
  pub tidy : IsTidy w
  pub unowned : (b : ℕ) → w.next ≤ b → owner b ≡ none

-- What a step leaves of the slots other than `key`, and of the packets in no slot.
pub record Keeps (key : ℕ) (owner owner' : Owner) (w w' : World) : Type 0 where
  pub clean : Clean owner' w'
  pub others :
      (k : ℕ) (p : Packet)
      → k ≢ key
      → Sound owner w k p
      → Sound owner' w' k p × (shows w' p ≡ shows w p)
  pub loose : (p : Packet) → Loose owner w p → Loose owner' w' p × (shows w' p ≡ shows w p)
  pub received : w'.received ≡ w.received
  pub events : w'.events ≡ w.events

pub Keeps-refl : (key : ℕ) (owner : Owner) (w : World) → Clean owner w → Keeps key owner owner w w
Keeps-refl key owner w c = record {
  clean = c;
  others = λ k p ne s. (s, refl);
  loose = λ p s. (s, refl);
  received = refl;
  events = refl;
}

pub Keeps-trans :
    {key : ℕ} {o o' o'' : Owner} {w w' w'' : World}
    → Keeps key o o' w w'
    → Keeps key o' o'' w' w''
    → Keeps key o o'' w w''
Keeps-trans f g = record {
  clean = g.clean;
  others = λ k p ne s. let a = f.others k p ne s in let b = g.others k p ne a.0 in (b.0, b.1 ∙ a.1);
  loose = λ p s. let a = f.loose p s in let b = g.loose p a.0 in (b.0, b.1 ∙ a.1);
  received = g.received ∙ f.received;
  events = g.events ∙ f.events;
}

pub shows_null : (w w' : World) (p : Packet) → p.buffer ≡ null → shows w' p ≡ shows w p
shows_null w w' p e = rw e refl

pub shows_block :
    (w w' : World) (p : Packet) (b : ℕ)
    → p.buffer ≡ block b
    → w'.blocks b ≡ w.blocks b
    → shows w' p ≡ shows w p
shows_block w w' p b e same = rw (e, same) refl

pub some_ne_none : {x : ℕ} → some x ≢ none
some_ne_none e = cc

-- A step that leaves the blocks of slots alone.
pub Sound-same :
    {owner : Owner} (w w' : World)
    → ((b k : ℕ) → owner b ≡ some k → w'.blocks b ≡ w.blocks b)
    → (k : ℕ) (p : Packet) → Sound owner w k p
    → Sound owner w' k p × (shows w' p ≡ shows w p)
Sound-same w w' same k p (inl e) = (inl e, shows_null w w' p e)
Sound-same w w' same k p (inr (b, bytes, at, holds, sized, mine)) =
    let still = same b k mine in
    (inr (b, bytes, at, still ∙ holds, sized, mine), shows_block w w' p b at still)

-- What a step leaves of the blocks that belong to no slot.
pub Keeps-block :
    {key : ℕ} {o o' : Owner} {w w' : World} (a : ℕ) (bytes : List ℕ)
    → Keeps key o o' w w'
    → o a ≡ none
    → w.blocks a ≡ some bytes
    → (w'.blocks a ≡ some bytes) × (o' a ≡ none)
Keeps-block {o' = o'} {w = w} {w' = w'} a bytes k free holds =
    let p : Packet = record { client_id = 0; buffer = block a; data_size = length bytes } in
    let (still, shown) = k.loose p (inr (a, bytes, refl, holds, refl, free)) in
    back still (ap (λ x. x.1) shown ∙ rw holds refl)
  where
    back :
        Loose o' w' (record { client_id = 0; buffer = block a; data_size = length bytes })
        → bytes_at w' (block a) ≡ bytes
        → (w'.blocks a ≡ some bytes) × (o' a ≡ none)
    back (inl e) s = cc
    back (inr (b, bs, at, there, sized, loose)) s =
        let here : b ≡ a = cc in
        let found : w'.blocks a ≡ some bs = subst (λ c. w'.blocks c ≡ some bs) here there in
        (found ∙ ap some (sym (ap or_empty found) ∙ s), subst (λ c. o' c ≡ none) here loose)
