-- ===== src/Iocp/Destroying.antt =====
-- The destructor of a packet that is in no slot.
use iocp_server.Base.{ℕ, ◌≡◌, ◌≢◌, refl, sym, ap, ◌∙◌, inl, inr, none, some}
use iocp_server.Overlapped.{block}
use iocp_server.Memory.{World, delete_chars}
use iocp_server.Memory.Laws.{update_ne, delete_chars_block}
use iocp_server.Packet.{Packet}
use iocp_server.Packet.Laws.{without_block, without_block-IsTidy}
use iocp_server.Iocp.Slots.{Owner, Sound, Loose, shows, Clean, some_ne_none, Sound-same}

-- The destructor of a loose packet frees its block, and nothing else.
pub record Destroyed (owner : Owner) (w : World) (p : Packet) : Type 0 where
  pub world : World
  pub runs : delete_chars p.buffer w ≡ some (tt, world)
  pub clean : Clean owner world
  pub slots :
      (k : ℕ) (q : Packet) → Sound owner w k q → Sound owner world k q × (shows world q ≡ shows w q)
  pub blocks : (a : ℕ) → p.buffer ≢ block a → world.blocks a ≡ w.blocks a
  pub received : world.received ≡ w.received
  pub events : world.events ≡ w.events

pub destroy-Loose :
    (owner : Owner) (w : World) (p : Packet) → Clean owner w → Loose owner w p → Destroyed owner w p
unfolding delete_chars
destroy-Loose owner w p c (inl e) = record {
  world = w;
  runs = rw e refl;
  clean = c;
  slots = λ k q s. (s, refl);
  blocks = λ a h. refl;
  received = refl;
  events = refl;
}
destroy-Loose owner w p c (inr (b, bytes, at, holds, sized, free)) = record {
  world = without_block w b;
  runs = rw at (delete_chars_block w b bytes holds);
  clean = record { tidy = without_block-IsTidy w b c.tidy; unowned = c.unowned };
  slots = Sound-same w (without_block w b) (λ d k mine.
      update_ne w.blocks b d none (λ e. some_ne_none (sym mine ∙ ap owner (sym e) ∙ free)));
  blocks = λ a h. update_ne w.blocks b a none (λ e. h (at ∙ ap block e));
  received = refl;
  events = refl;
}
