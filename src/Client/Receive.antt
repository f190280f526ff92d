-- ===== src/Client/Receive.antt =====
-- `FeedBack_Receive`: what one message does to an idle client.
use iocp_server.Base.{
  ℕ, ◌≤◌, ◌≡◌, ap, ◌∙◌, List, [], ◌∷◌, ◌++◌, Option, none, some, arith, length, take, if◌then◌else◌,
  map, length-append, take_short, map-take, length-take_le,
}
use iocp_server.Overlapped.{Address}
use iocp_server.Memory.{M, World, ◌>>=◌, pure, read_chars}
use iocp_server.Queue
use iocp_server.Queue.{CircleQueue}
use iocp_server.Queue.Bounds.{IsValid}
use iocp_server.Queue.Refine.{contents}
use iocp_server.Client.{
  Client, DataPacket, receive_ready, receive_internal_work, feedback_receive, buffer_size,
}
use iocp_server.Client.Cutting.{packet_of, cut_packets_lem}
use iocp_server.Client.Frames.{chunks, remainder, length-chunks, length-remainder}
use iocp_server.Client.Handling.{readied, ready_events, log, receive_ready_lem, report, work_lem}

-- Between two messages no packet waits, and at most ten bytes are kept.
pub record IsIdle (c : Client) : Type 0 where
  pub valid : IsValid c.receive_data_queue
  pub none_waits : contents none c.receive_data_queue ≡ []
  pub kept : length c.receive_buffer ≤ buffer_size

-- The test behind the loop of `FeedBack_Receive`.
abbrev dispatch : Client → M Client
dispatch c =
    if Queue.empty c.receive_data_queue
    then (do (ready, c') ← receive_ready c; pure c')
    else receive_internal_work Queue.max_queue_size c

dispatch_lem :
    (c : Client) (w : World) (bs : List (List ℕ))
    → IsValid c.receive_data_queue
    → contents none c.receive_data_queue ≡ map (packet_of c.id) bs
    → length bs ≤ 99
    → (q : CircleQueue (Option DataPacket)) × (dispatch c w
        ≡ some (
          readied (record c { receive_data_queue = q }),
          log w (map (report c.id) bs ++ ready_events c),
        ))
      × IsValid q
      × (contents none q ≡ [])
dispatch_lem c w [] v e h = (
  c.receive_data_queue,
  rw (Queue.Use.empty_nil none v e) (rw (receive_ready_lem c w, ◌>>=◌)),
  v,
  e,
)
dispatch_lem c w (b ∷ bs) v e h =
    let later = work_lem Queue.max_queue_size c w b bs v e (omega arith) in
    (later.0, rw (Queue.Use.empty_cons none _ _ v e) later.1, later.2, later.3)

-- The bytes that a message makes complete, cut into packets, and those that it leaves over.
abbrev pub frames : List ℕ → List (List ℕ)
frames bytes = chunks (length bytes) bytes

abbrev pub left_over : List ℕ → List ℕ
left_over bytes = remainder (length bytes) bytes

-- A message of any size to an idle client: `FeedBack_Receive` returns, its loop and its recursion end
-- within their fuel, and the client is idle again. Packets of ten
-- bytes are cut while more than ten are left, so that ten in a row may be kept, and the first 99
-- are reported, in order; the queue refuses further ones, and they are lost. What no packet is cut from is kept.
pub feedback_receive_any :
    (n : ℕ) (a : Address) (bytes : List ℕ) (c : Client) (w : World)
    → IsIdle c
    → read_chars a n w ≡ some (bytes, w)
    → (q : CircleQueue (Option DataPacket)) × (feedback_receive n a c w
        ≡ some (
          readied (record c {
            receive_data_queue = q;
            receive_buffer = left_over (c.receive_buffer ++ bytes);
          }),
          log w
              (map (report c.id) (take 99 (frames (c.receive_buffer ++ bytes))) ++ ready_events c),
        ))
      × IsIdle (record c {
        receive_data_queue = q;
        receive_buffer = left_over (c.receive_buffer ++ bytes);
      })
unfolding feedback_receive
feedback_receive_any n a bytes c w i r =
    let all = c.receive_buffer ++ bytes in
    let cut = cut_packets_lem (length all) (record c { receive_buffer = all }) i.valid in
    let cut_client = record c { receive_data_queue = cut.0; receive_buffer = left_over all } in
    let queued =
      cut.3
      ∙ ap (λ l. take 99 (l ++ map (packet_of c.id) (frames all))) i.none_waits
      ∙ map-take (packet_of c.id) 99 (frames all) in
    let done =
      dispatch_lem cut_client w (take 99 (frames all)) cut.2 queued
        (length-take_le 99 (frames all)) in
    (
      done.0,
      rw (r, ◌>>=◌) (ap (λ k. dispatch k w) cut.1 ∙ done.1),
      record {
        valid = done.2;
        none_waits = done.3;
        kept = length-remainder (length all) all (omega arith);
      },
    )

-- A message of at most 980 bytes to an idle client: packets of ten bytes are cut and reported, in
-- order, while more than ten are left; the rest is kept; a connected client posts `WSARecv` once, behind the
-- reports; the client is idle again, and the heap and its send side are as before.
pub feedback_receive_lem :
    (n : ℕ) (a : Address) (bytes : List ℕ) (c : Client) (w : World)
    → IsIdle c
    → read_chars a n w ≡ some (bytes, w)
    → length bytes ≤ 980
    → (q : CircleQueue (Option DataPacket)) × (feedback_receive n a c w
        ≡ some (
          readied (record c {
            receive_data_queue = q;
            receive_buffer = left_over (c.receive_buffer ++ bytes);
          }),
          log w (map (report c.id) (frames (c.receive_buffer ++ bytes)) ++ ready_events c),
        ))
      × IsIdle (record c {
        receive_data_queue = q;
        receive_buffer = left_over (c.receive_buffer ++ bytes);
      })
feedback_receive_lem n a bytes c w i r h =
    let all = c.receive_buffer ++ bytes in
    let few : take 99 (frames all) ≡ frames all = take_short 99 (frames all) (
      omega
        (arith, length-chunks (length all) all, length-append c.receive_buffer bytes, i.kept)) in
    let any = feedback_receive_any n a bytes c w i r in
    (
      any.0,
      any.1
          ∙ ap
              (λ l. some (
                readied (record c { receive_data_queue = any.0; receive_buffer = left_over all }),
                log w (map (report c.id) l ++ ready_events c),
              ))
              few,
      any.2,
    )
