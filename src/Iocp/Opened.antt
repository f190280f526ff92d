-- ===== src/Iocp/Opened.antt =====
-- The queues of IOCompletionPort.h as its constructor leaves them.
use iocp_server.Base.{ℕ, refl, ap, inl, none, get_or-replicate}
use iocp_server.Memory.{World}
use iocp_server.Memory.Laws.{IsTidy}
use iocp_server.Packet.{default_packet}
use iocp_server.Queue
use iocp_server.Queue.{max_queue_size}
use iocp_server.Queue.Bounds.{init-IsValid}
use iocp_server.Iocp.{empty_queues}
use iocp_server.Iocp.Slots.{Owner}
use iocp_server.Iocp.Storing.{IsStore}
use iocp_server.Iocp.Delivery.{accepts, sends, receives, disconnects, queue_of, base_of, AreStores}

-- No slot has a block.
abbrev pub nobody : Owner
nobody a = none

init-IsStore : (base : ℕ) (w : World) → IsStore base nobody w (Queue.init default_packet)
unfolding Queue.init
init-IsStore base w = record {
  valid = unfold Queue.init in init-IsValid default_packet;
  sound = λ i l. inl (ap (λ p. p.buffer) (get_or-replicate max_queue_size i default_packet));
}

pub empty_queues-AreStores : (w : World) → IsTidy w → AreStores nobody w empty_queues
unfolding empty_queues
empty_queues-AreStores w h = record {
  clean = record { tidy = h; unowned = λ a l. refl };
  stores = λ j. elim j as (λ j. IsStore (base_of j) nobody w (queue_of j empty_queues)) [
    | accepts ↦ init-IsStore (base_of accepts) w
    | sends ↦ init-IsStore (base_of sends) w
    | receives ↦ init-IsStore (base_of receives) w
    | disconnects ↦ init-IsStore (base_of disconnects) w
  ];
}
