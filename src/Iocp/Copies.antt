-- ===== src/Iocp/Copies.antt =====
-- A copy of the packet in a slot, and what steps leave of all slots.
use iocp_server.Base.{ℕ, ◌≡◌, refl, sym, ap, ◌∙◌, arith, inl, inr, some}
use iocp_server.Overlapped.{null, block}
use iocp_server.Memory.{World}
use iocp_server.Memory.Laws.{update_self, update_ne}
use iocp_server.Packet.{Packet, copy, duplicate}
use iocp_server.Packet.Laws.{with_block, with_block-IsTidy, copy_lem, le_self}
use iocp_server.Iocp.Slots.{Owner, Sound, Loose, shows, Clean, Sound-same, some_ne_none}

-- What a step leaves of all slots.
abbrev pub Same : Owner → World → World → Type 0
Same owner w w' =
    (k : ℕ) (p : Packet) → Sound owner w k p → Sound owner w' k p × (shows w' p ≡ shows w p)

pub Same-trans : {o : Owner} (w w' w'' : World) → Same o w w' → Same o w' w'' → Same o w w''
Same-trans w w' w'' f g k p s = let a = f k p s in let b = g k p a.0 in (b.0, b.1 ∙ a.1)

-- A copy of a slot's packet.
pub record Copied (owner : Owner) (w : World) (slot : Packet) : Type 0 where
  pub packet : Packet
  pub world : World
  pub runs : copy slot w ≡ some (packet, world)
  pub clean : Clean owner world
  pub loose : Loose owner world packet
  pub shown : shows world packet ≡ shows w slot
  pub same : Same owner w world
  pub received : world.received ≡ w.received
  pub events : world.events ≡ w.events

pub copy_slot :
    (key : ℕ) (owner : Owner) (w : World) (slot : Packet)
    → Clean owner w
    → Sound owner w key slot
    → Copied owner w slot
unfolding copy duplicate
copy_slot key owner w slot c (inl e) = record {
  packet = record slot { buffer = null };
  world = w;
  runs = rw e refl;
  clean = c;
  loose = inl refl;
  shown = rw e refl;
  same = λ k p s. (s, refl);
  received = refl;
  events = refl;
}
copy_slot key owner w slot c (inr (b, bytes, at, holds, sized, mine)) = record {
  packet = record slot { buffer = block w.next };
  world = with_block w bytes;
  runs = (copy_lem w slot b bytes c.tidy (record { at = at; holds = holds; sized = sized })).0;
  clean = record {
    tidy = with_block-IsTidy w bytes c.tidy;
    unowned = λ d h. c.unowned d (omega arith);
  };
  loose = inr (
    w.next,
    bytes,
    refl,
    update_self w.blocks w.next (some bytes),
    sized,
    c.unowned w.next (le_self w.next),
  );
  shown = rw (at, holds, update_self w.blocks w.next (some bytes)) refl;
  same = Sound-same w (with_block w bytes) (λ d k theirs.
      update_ne w.blocks w.next d (some bytes)
        (λ e. some_ne_none (sym theirs ∙ ap owner (sym e) ∙ c.unowned w.next (le_self w.next))));
  received = refl;
  events = refl;
}
