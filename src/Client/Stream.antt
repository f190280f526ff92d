-- ===== src/Client/Stream.antt =====
-- A connection's stream: any number of messages in a row.
use iocp_server.Base.{
  ℕ, ◌+◌, ◌≤◌, ◌≡◌, refl, sym, ap, ap₂, ◌∙◌, true, List, [], ◌∷◌, ◌++◌, Option, none, some, arith,
  length, map, if◌then◌else◌, append-nil, append_assoc,
}
use iocp_server.Overlapped.{Address, null, block, accept_buf, receive_buf}
use iocp_server.Memory.{
  M, World, Event, accept_ex, wsa_send, handled, sent, wsa_recv, ◌>>=◌, pure, read_chars,
  read_block,
}
use iocp_server.Memory.Laws.{take_all}
use iocp_server.Queue.{CircleQueue}
use iocp_server.Client.{Client, DataPacket, feedback_receive, receiving, buffer_size}
use iocp_server.Client.Frames.{concat, All, concat-chunks, chunks_sized}
use iocp_server.Client.Receive.{IsIdle, frames, left_over, feedback_receive_lem}
use iocp_server.Client.Handling.{log, report, log-log}
use iocp_server.Client.Counting.{
  reported, recv_count, reported-append, recv_count-append, message_events, reported-message_events,
  recv_count-message_events,
}

-- What one completed `WSARecv` brings: `size` bytes behind `from`.
pub record Message : Type 0 where
  pub size : ℕ
  pub from : Address
  pub bytes : List ℕ

-- `FeedBack_Receive` for each message in turn.
pub receive_all : List Message → Client → M Client
receive_all [] c = pure c
receive_all (m ∷ ms) c = do c' ← feedback_receive m.size m.from c; receive_all ms c'

-- The bytes that the messages bring, in order.
abbrev pub bytes_of : List Message → List ℕ
bytes_of ms = concat (map (λ m. m.bytes) ms)

-- The message's bytes can be read, and are no more than a full queue of packets takes.
abbrev pub Fits : World → Message → Type 0
Fits w m = (read_chars m.from m.size w ≡ some (m.bytes, w)) × (length m.bytes ≤ 980)

read_block-log :
    (n : ℕ) (o : Option (List ℕ)) (w : World) (es : List Event) (bytes : List ℕ)
    → read_block n o w ≡ some (bytes, w)
    → read_block n o (log w es) ≡ some (bytes, log w es)
read_block-log n none w es bytes h = cc
read_block-log n (some bs) w es bytes h = ground arith

-- Reports do not touch the bytes that a message brings.
Fits-log : (w : World) (es : List Event) (m : Message) → Fits w m → Fits (log w es) m
unfolding read_chars
Fits-log w es m f = (go m.from f.0, f.1)
  where
    go :
        (a : Address)
        → read_chars a m.size w ≡ some (m.bytes, w)
        → read_chars a m.size (log w es) ≡ some (m.bytes, log w es)
    go null h = cc
    go (accept_buf id) h = cc
    go (block a) h = read_block-log m.size (w.blocks a) w es m.bytes h
    go (receive_buf id) h = read_block-log m.size (w.received id) w es m.bytes h

All-log :
    (w : World) (es : List Event) (ms : List Message) → All (Fits w) ms → All (Fits (log w es)) ms
All-log w es [] h = tt
All-log w es (m ∷ ms) h = (Fits-log w es m h.0, All-log w es ms h.1)

-- A report of this client has ten bytes.
abbrev pub IsFramed : ℕ → Event → Type 0
IsFramed k (handled id bytes) = (id ≡ k) × (length bytes ≡ 10)
IsFramed k (accept_ex c) = Unit {0}
IsFramed k (wsa_recv c) = Unit {0}
IsFramed k (wsa_send b c) = Unit {0}
IsFramed k (sent id bytes) = Unit {0}

IsFramed-append :
    (k : ℕ) (es fs : List Event)
    → All (IsFramed k) es
    → All (IsFramed k) fs
    → All (IsFramed k) (es ++ fs)
IsFramed-append k [] fs h g = g
IsFramed-append k (e ∷ es) fs h g = (h.0, IsFramed-append k es fs h.1 g)

IsFramed-reports :
    (k : ℕ) (bs : List (List ℕ))
    → All (λ b. length b ≡ buffer_size) bs
    → All (IsFramed k) (map (report k) bs)
IsFramed-reports k [] h = tt
IsFramed-reports k (b ∷ bs) h =
    ((refl, ap length (take_all b buffer_size (sym h.0)) ∙ h.0), IsFramed-reports k bs h.1)

IsFramed-message_events :
    (k : ℕ) (bs : List (List ℕ))
    → All (λ b. length b ≡ buffer_size) bs
    → All (IsFramed k) (message_events k bs)
unfolding message_events
IsFramed-message_events k bs h =
    IsFramed-append k (map (report k) bs) (wsa_recv (receiving k) ∷ []) (IsFramed-reports k bs h)
      (tt, tt)

-- Where a connected client stands after a stream: the calls have ended with `client` and with the
-- events `news`; the reports hold the bytes that were kept and then those of the messages, in order,
-- up to at most ten that are kept; each report has ten bytes; one `WSARecv` was posted for each message; and the client is still
-- connected, with no packet waiting.
pub record Streamed (ms : List Message) (c : Client) (w : World) : Type 0 where
  pub client : Client
  pub news : List Event
  pub runs : receive_all ms c w ≡ some (client, log w news)
  pub all_bytes : reported news ++ client.receive_buffer ≡ c.receive_buffer ++ bytes_of ms
  pub framed : All (IsFramed c.id) news
  pub asks : recv_count news ≡ length ms
  pub idle : IsIdle client
  pub connected : client.is_connect ≡ true

-- A connected client behind one message.
abbrev after_message : Client → CircleQueue (Option DataPacket) → List ℕ → Client
after_message c q all = record c {
  receive_data_queue = q;
  receive_buffer = left_over all;
  receive_context = receiving c.id;
}

message_lem :
    (m : Message) (c : Client) (w : World)
    → IsIdle c
    → c.is_connect ≡ true
    → Fits w m
    → let all = c.receive_buffer ++ m.bytes in
      (q : CircleQueue (Option DataPacket)) × (feedback_receive m.size m.from c w
        ≡ some (after_message c q all, log w (message_events c.id (frames all))))
      × IsIdle (after_message c q all)
unfolding message_events
message_lem m c w i e f =
    let all = c.receive_buffer ++ m.bytes in
    let one = feedback_receive_lem m.size m.from m.bytes c w i f.0 f.1 in
    let kept = record c { receive_data_queue = one.0; receive_buffer = left_over all } in
    (
      one.0,
      one.1
          ∙ ap
              (λ b. some (
                if b then after_message c one.0 all else kept,
                log w (
                    map (report c.id) (frames all)
                    ++ (if b then wsa_recv (receiving c.id) ∷ [] else [])),
              ))
              e,
      record { valid = one.2.valid; none_waits = one.2.none_waits; kept = one.2.kept },
    )

-- A connected, idle client that receives any number of messages of at most 980 bytes each, whose bytes
-- can be read, reports the bytes that it kept and those that arrive, in order and ten in each
-- report, up to at most ten that it keeps. It posts one `WSARecv` for each message, and is idle
-- and connected at the end.
pub stream_reported :
    (ms : List Message) (c : Client) (w : World)
    → IsIdle c
    → c.is_connect ≡ true
    → All (Fits w) ms
    → Streamed ms c w
unfolding receive_all
stream_reported [] c w i e f = record {
  client = c;
  news = [];
  runs = ap (λ l. some (c, record w { events = l })) (sym (append-nil w.events));
  all_bytes = sym (append-nil c.receive_buffer);
  framed = tt;
  asks = refl;
  idle = i;
  connected = e;
}
stream_reported (m ∷ ms) c w i e f =
    let all = c.receive_buffer ++ m.bytes in
    let one = message_lem m c w i e f.0 in
    let c' = after_message c one.0 all in
    let news = message_events c.id (frames all) in
    let later = stream_reported ms c' (log w news) one.2 e (All-log w news ms f.1) in
    record {
      client = later.client;
      news = news ++ later.news;
      runs =
          rw (one.1, ◌>>=◌)
            (later.runs ∙ ap (λ v. some (later.client, v)) (log-log w news later.news));
      all_bytes =
          ap (λ l. l ++ later.client.receive_buffer) (reported-append news later.news)
          ∙ append_assoc (reported news) (reported later.news) later.client.receive_buffer
          ∙ ap₂ ◌++◌ (reported-message_events c.id (frames all) (chunks_sized (length all) all))
              later.all_bytes
          ∙ sym (append_assoc (concat (frames all)) (left_over all) (bytes_of ms))
          ∙ ap (λ l. l ++ bytes_of ms) (concat-chunks (length all) all)
          ∙ append_assoc c.receive_buffer m.bytes (bytes_of ms);
      framed =
          IsFramed-append c.id news later.news
            (IsFramed-message_events c.id (frames all) (chunks_sized (length all) all))
            later.framed;
      asks =
          recv_count-append news later.news
          ∙ ap₂ ◌+◌ (recv_count-message_events c.id (frames all)) later.asks
          ∙ omega arith;
      idle = later.idle;
      connected = later.connected;
    }
