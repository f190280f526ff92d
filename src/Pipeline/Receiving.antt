-- ===== src/Pipeline/Receiving.antt =====
-- One packet of the receive queue, handed to `EchoServer::Receive`.
use iocp_server.Base.{
  ◌+◌, ℕ, ◌<◌, ◌≤◌, ◌≡◌, refl, sym, ap, ap₂, ◌∙◌, arith, inl, inr, Bool, true, false, List, [],
  ◌++◌, some, length, map, append-nil, ◌==◌, if◌then◌else◌,
}
use iocp_server.Memory.{World, Event, ◌>>=◌, read_chars}
use iocp_server.Memory.Laws.{take_all, read_chars_block}
use iocp_server.Packet.{Packet}
use iocp_server.Packet.Laws.{le_self}
use iocp_server.Client.{Client, receiving}
use iocp_server.Client.Frames.{concat, concat-chunks, chunks_sized}
use iocp_server.Client.Receive.{IsIdle, frames, left_over, feedback_receive_lem}
use iocp_server.Client.Handling.{readied, ready_events, log, report}
use iocp_server.Server.{Server, Outside, receive, client_finder}
use iocp_server.Server.Table.{lookup, assign}
use iocp_server.Iocp.Slots.{Owner, Loose, shows}
use iocp_server.Iocp.Working.{Handles}
use iocp_server.Pipeline.Reports.{
  offers, offers-reports, offers-ready, reported_of, reported_of-append, reported_of-reports,
  reported_of-ready, reads_of, reads_of-append, reads_of-reports, reads_of-ready,
  readied-is_connect, zero_add, recv_count-ready, send_count-ready,
}
use iocp_server.Client.Counting.{
  recv_count, recv_count-append, send_count, send_count-append, send_count-reports,
  recv_count-reports,
}

-- What `Receive` does for a known, idle client.
pub record Received (o : Outside) (p : Packet) (s : Server) (c : Client) (bytes : List ℕ)
    (v : World) : Type 0 where
  pub client : Client
  pub news : List Event
  pub runs :
      receive o p s v
      ≡ some (record s { clients = assign p.client_id client s.clients }, log v news)
  pub idle : IsIdle client
  pub same_id : client.id ≡ c.id
  pub reports :
      (k : ℕ)
      → reported_of k news ≡ (if c.id == k then concat (frames (c.receive_buffer ++ bytes)) else [])
  pub reads : (k : ℕ) → reads_of k news ≡ (if c.is_connect then if c.id == k then 1 else 0 else 0)
  pub connected : client.is_connect ≡ c.is_connect
  pub no_offer : offers news ≡ []
  pub asks_once : recv_count news ≤ 1
  pub no_send : send_count news ≡ 0
  pub all_bytes :
      concat (frames (c.receive_buffer ++ bytes)) ++ client.receive_buffer
      ≡ c.receive_buffer ++ bytes

-- A loose packet that shows at least one byte can be read.
read-Loose :
    (owner : Owner) (v : World) (p : Packet) (id : ℕ) (bytes : List ℕ)
    → Loose owner v p
    → shows v p ≡ (id, bytes)
    → 0 < length bytes
    → read_chars p.buffer p.data_size v ≡ some (bytes, v)
read-Loose owner v p id bytes (inl e) shown pos =
    let nothing : ◌≡◌ {A = List ℕ} [] bytes = rw e at (ap (λ x. x.1) shown) in
    absurd (omega (arith, ap length nothing))
read-Loose owner v p id bytes (inr (b, bs, at, holds, sized, free)) shown pos =
    let same : bs ≡ bytes = rw (at, holds) at (ap (λ x. x.1) shown) in
    rw at (
      read_chars_block v b p.data_size bs holds (omega arith)
      ∙ ap (λ l. some (l, v)) (take_all bs p.data_size (sym sized) ∙ same))

readied-IsIdle :
    (c : Client)
    → IsIdle c
    → IsIdle (readied c) × ((readied c).id ≡ c.id) × ((readied c).receive_buffer ≡ c.receive_buffer)
readied-IsIdle c i = by_cases c.is_connect
  where
    by_cases :
        (b : Bool)
        → let d = if b then record c { receive_context = receiving c.id } else c in
          IsIdle d × (d.id ≡ c.id) × (d.receive_buffer ≡ c.receive_buffer)
    by_cases true =
        (record { valid = i.valid; none_waits = i.none_waits; kept = i.kept }, refl, refl)
    by_cases false = (i, refl, refl)

pub receive-Received :
    (o : Outside) (owner : Owner) (p : Packet) (s : Server) (c : Client) (id : ℕ) (bytes : List ℕ)
    (v : World)
    → Loose owner v p
    → shows v p ≡ (id, bytes)
    → 0 < length bytes
    → length bytes ≤ 980
    → lookup id s.clients ≡ some c
    → IsIdle c
    → Received o p s c bytes v
unfolding receive client_finder
receive-Received o owner p s c id bytes v l shown pos h found i =
    let read = read-Loose owner v p id bytes l shown pos in
    let named : p.client_id ≡ id = ap (λ x. x.0) shown in
    let all = c.receive_buffer ++ bytes in
    let one = feedback_receive_lem p.data_size p.buffer bytes c v i read h in
    let d = record c { receive_data_queue = one.0; receive_buffer = left_over all } in
    let ready = readied-IsIdle d one.2 in
    let found' : lookup p.client_id s.clients ≡ some c =
      ap (λ k. lookup k s.clients) named ∙ found in
    record {
      client = readied d;
      news = map (report c.id) (frames all) ++ ready_events c;
      runs = rw (found', receive) (rw (one.1, ◌>>=◌) refl);
      idle = ready.0;
      same_id = ready.1;
      reports = λ k.
          reported_of-append k (map (report c.id) (frames all)) (ready_events c)
          ∙ ap₂ ◌++◌ (reported_of-reports k c.id (frames all) (chunks_sized (length all) all))
              (reported_of-ready k c)
          ∙ append-nil _;
      reads = λ k.
          reads_of-append k (map (report c.id) (frames all)) (ready_events c)
          ∙ ap₂ ◌+◌ (reads_of-reports k c.id (frames all)) (reads_of-ready k c)
          ∙ zero_add _;
      connected = readied-is_connect d;
      asks_once = omega (
        arith,
        recv_count-append (map (report c.id) (frames all)) (ready_events c),
        recv_count-reports c.id (frames all),
        recv_count-ready c,
      );
      no_send = omega (
        arith,
        send_count-append (map (report c.id) (frames all)) (ready_events c),
        send_count-reports c.id (frames all),
        send_count-ready c,
      );
      no_offer = offers-reports c.id (frames all) (ready_events c) ∙ offers-ready c;
      all_bytes = ap (λ l. concat (frames all) ++ l) ready.2 ∙ concat-chunks (length all) all;
    }

-- `Receive` reports, and leaves the heap as it is.
pub Received-Handles :
    {o : Outside} {p : Packet} {s : Server} {c : Client} {bytes : List ℕ} {v : World}
    → Received o p s c bytes v
    → Handles (receive o) p s v
Received-Handles {p = p} {s = s} {v = v} r = record {
  state = record s { clients = assign p.client_id r.client s.clients };
  world = log v r.news;
  runs = r.runs;
  blocks = refl;
  next = le_self v.next;
  received = refl;
}
