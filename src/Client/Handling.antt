-- ===== src/Client/Handling.antt =====
-- The events of the receive side, and `ReceiveInternalWork` on a queue of packets.
use iocp_server.Base.{
  ℕ, zero, suc, ◌<◌, ◌≡◌, ap, ◌∙◌, true, false, List, [], ◌∷◌, ◌++◌, Option, none, some, arith,
  length, take, if◌then◌else◌, Bool-cases, inl, inr, map, append-nil, append_assoc,
}
use iocp_server.Memory.{M, World, Event, wsa_recv, handled, ◌>>=◌, emit}
use iocp_server.Queue
use iocp_server.Queue.{CircleQueue}
use iocp_server.Queue.Bounds.{IsValid}
use iocp_server.Queue.Refine.{contents}
use iocp_server.Client.{
  Client, DataPacket, receive_ready, receiving, handle_packet, receive_internal_work, buffer_size,
}
use iocp_server.Client.Cutting.{packet_of}

-- What `ReceiveReady` leaves, and what it asks for.
abbrev pub readied : Client → Client
readied c = if c.is_connect then record c { receive_context = receiving c.id } else c

abbrev pub ready_events : Client → List Event
ready_events c = if c.is_connect then wsa_recv (receiving c.id) ∷ [] else []

abbrev pub log : World → List Event → World
log w es = record w { events = w.events ++ es }

pub receive_ready_lem :
    (c : Client) (w : World)
    → receive_ready c w ≡ some ((c.is_connect, readied c), log w (ready_events c))
unfolding receive_ready emit
receive_ready_lem c w = elim (Bool-cases c.is_connect) [
  | inl on ↦ rw on
  | inr off ↦ rw (off, append-nil)
]

abbrev pub report : ℕ → List ℕ → Event
report id bytes = handled id (take buffer_size bytes)

pub log-log : (w : World) (es fs : List Event) → log (log w es) fs ≡ log w (es ++ fs)
log-log w es fs = ap (λ l. record w { events = l }) (append_assoc w.events es fs)

pub handle_last :
    (again : Client → M Client) (packet : DataPacket) (c : Client) (w : World)
    → Queue.empty c.receive_data_queue ≡ true
    → handle_packet again (some packet) c w
      ≡ some (
        readied c,
        log w (handled packet.id (take packet.data_size packet.buffer) ∷ ready_events c),
      )
unfolding handle_packet emit
handle_last again packet c w e =
    let es = handled packet.id (take packet.data_size packet.buffer) ∷ [] in
    rw (e, ◌>>=◌)
      (rw (receive_ready_lem c (log w es), ◌>>=◌)
        (ap (λ v. some (readied c, v)) (log-log w es (ready_events c))))

pub handle_more :
    (again : Client → M Client) (packet : DataPacket) (c : Client) (w : World)
    → Queue.empty c.receive_data_queue ≡ false
    → handle_packet again (some packet) c w
      ≡ again c (log w (handled packet.id (take packet.data_size packet.buffer) ∷ []))
unfolding handle_packet emit
handle_more again packet c w e = rw e

-- With fuel for all packets, `ReceiveInternalWork` reports each packet in order, empties the queue,
-- and asks for more once.
pub work_lem :
    (fuel : ℕ) (c : Client) (w : World) (b : List ℕ) (bs : List (List ℕ))
    → IsValid c.receive_data_queue
    → contents none c.receive_data_queue ≡ map (packet_of c.id) (b ∷ bs)
    → length bs < fuel
    → (q : CircleQueue (Option DataPacket)) × (receive_internal_work fuel c w
        ≡ some (
          readied (record c { receive_data_queue = q }),
          log w (map (report c.id) (b ∷ bs) ++ ready_events c),
        ))
      × IsValid q
      × (contents none q ≡ [])
unfolding receive_internal_work
work_lem zero c w b bs v e h = absurd (omega arith)
work_lem (suc fuel) c w b [] v e h =
    let f = Queue.Use.front_cons none (packet_of c.id b) [] v e in
    let q = (Queue.pop none c.receive_data_queue).1 in
    let v' = Queue.Bounds.pop-IsValid none v in
    let c' = record c { receive_data_queue = q } in
    (
      q,
      ap (λ p. handle_packet (receive_internal_work fuel) p c' w) f.0
          ∙ handle_last _ _ c' w (Queue.Use.empty_nil none v' f.1),
      v',
      f.1,
    )
work_lem (suc fuel) c w b (b' ∷ bs) v e h =
    let f = Queue.Use.front_cons none (packet_of c.id b) (map (packet_of c.id) (b' ∷ bs)) v e in
    let c' = record c { receive_data_queue = (Queue.pop none c.receive_data_queue).1 } in
    let v' = Queue.Bounds.pop-IsValid none v in
    let later = work_lem fuel c' (log w (report c.id b ∷ [])) b' bs v' f.1 (omega arith) in
    (
      later.0,
      ap (λ p. handle_packet (receive_internal_work fuel) p c' w) f.0
          ∙ handle_more _ _ c' w (Queue.Use.empty_cons none _ _ v' f.1)
          ∙ later.1
          ∙ ap (λ u. some (readied (record c { receive_data_queue = later.0 }), u))
              (log-log w (report c.id b ∷ []) (map (report c.id) (b' ∷ bs) ++ ready_events c)),
      later.2,
      later.3,
    )
