-- ===== src/Client/Cutting.antt =====
-- The loop of `FeedBack_Receive` that cuts the buffer into packets and queues them.
use iocp_server.Base.{
  ℕ, zero, suc, ◌≤◌, ◌≡◌, refl, sym, ap, ◌∙◌, List, [], ◌∷◌, ◌++◌, Option, none, some, arith,
  length, take, drop, ltb, Bool-cases, inl, inr, map, append-nil, append_assoc, take_short,
  take-append, ◌==◌, ==→eq,
}
use iocp_server.Queue
use iocp_server.Queue.{CircleQueue}
use iocp_server.Queue.Bounds.{IsValid}
use iocp_server.Queue.Fifo.{put}
use iocp_server.Queue.Refine.{contents, push_refines, length-contents}
use iocp_server.Client.{Client, DataPacket, cut_packets, buffer_size}
use iocp_server.Client.Frames.{chunks, remainder}

abbrev pub packet_of : ℕ → List ℕ → Option DataPacket
packet_of id bytes = some (record { id = id; buffer = bytes; data_size = buffer_size })

-- A push keeps the first 99 of what there is.
put-take :
    {A : Type 0} (xs ys : List A) (x : A)
    → length xs ≤ 99
    → take 99 ((put xs x).1 ++ ys) ≡ take 99 (xs ++ x ∷ ys)
unfolding put
put-take xs ys x h = elim (Bool-cases (length xs == 99)) [
  | inl full ↦
      let e = ==→eq (length xs) 99 full in
      rw full (take-append 99 xs ys e ∙ sym (take-append 99 xs (x ∷ ys) e))
  | inr free ↦ rw free (ap (take 99) (append_assoc xs (x ∷ []) ys))
]

few : {A : Type 0} (q : CircleQueue (Option A)) → IsValid q → length (contents none q) ≤ 99
few q v = omega (arith, length-contents none q, v.input_in, v.output_in)

all_kept :
    {A : Type 0} (q : CircleQueue (Option A))
    → IsValid q
    → contents none q ≡ take 99 (contents none q ++ [])
all_kept q v =
    sym (ap (take 99) (append-nil (contents none q)) ∙ take_short 99 (contents none q) (few q v))

-- The queue takes what it has room for, and the rest of the packets are dropped.
pub cut_packets_lem :
    (fuel : ℕ) (c : Client)
    → IsValid c.receive_data_queue
    → (q : CircleQueue (Option DataPacket)) × (cut_packets fuel c
        ≡ record c { receive_data_queue = q; receive_buffer = remainder fuel c.receive_buffer })
      × IsValid q
      × (contents none q
          ≡ take 99 (
              contents none c.receive_data_queue
              ++ map (packet_of c.id) (chunks fuel c.receive_buffer)))
unfolding cut_packets
cut_packets_lem zero c v = (c.receive_data_queue, refl, v, all_kept c.receive_data_queue v)
cut_packets_lem (suc fuel) c v = elim (Bool-cases (ltb buffer_size (length c.receive_buffer))) [
  | inr done ↦ rw done (c.receive_data_queue, refl, v, all_kept c.receive_data_queue v)
  | inl more ↦
      let packet = packet_of c.id (take buffer_size c.receive_buffer) in
      let c' = record c {
        receive_data_queue = (Queue.push c.receive_data_queue packet).1;
        receive_buffer = drop buffer_size c.receive_buffer;
      } in
      let later = cut_packets_lem fuel c' (Queue.Bounds.push-IsValid packet v) in
      let queue = contents none c.receive_data_queue in
      let others = map (packet_of c.id) (chunks fuel c'.receive_buffer) in
      rw more (
        later.0,
        later.1,
        later.2,
        later.3
            ∙ ap (λ l. take 99 (l ++ others)) (ap (λ p. p.1) (push_refines none packet v))
            ∙ put-take queue others packet (few c.receive_data_queue v),
      )
]
