-- ===== src/Client/Dangling.antt =====
-- A queued request whose buffer was freed in the meantime.
use iocp_server.Base.{
  ℕ, Bool, ◌≡◌, refl, sym, ap, ap₂, ◌∙◌, true, List, [], ◌∷◌, Option, none, some, arith, length,
  ◌==◌, if◌then◌else◌,
}
use iocp_server.Overlapped.{block, CustomOverlapped}
use iocp_server.Memory.{M, World, update, pure, wsa_send, ◌>>=◌, ◌>>◌, load_context, read_chars}
use iocp_server.Memory.Laws.{update_self}
use iocp_server.Packet.{Packet, destroy}
use iocp_server.Packet.Laws.{Owns, without_block, destroy_twice}
use iocp_server.Queue
use iocp_server.Queue.{CircleQueue}
use iocp_server.Queue.Bounds.{IsValid}
use iocp_server.Queue.Refine.{contents}
use iocp_server.Queue.Fifo.{put}
use iocp_server.Client.{Client, send_request, release_request, feedback_send}
use iocp_server.Client.Handling.{log}
use iocp_server.Client.Send.{sending, with_context, send_request_lem, feedback_send_lem}

-- A context at the front of the send queue whose buffer has been freed since: `FeedBack_Send` has no
-- result, since it reads and then frees that buffer once more.
feedback_send_dangling :
    (c : Client) (w : World) (k a : ℕ) (rest : List (Option ℕ)) (context : CustomOverlapped)
    → IsValid c.send_data_queue
    → contents none c.send_data_queue ≡ some k ∷ rest
    → w.contexts k ≡ some context
    → context.wsabuf.buf ≡ block a
    → w.blocks a ≡ none
    → feedback_send c w ≡ none
unfolding feedback_send release_request load_context read_chars
feedback_send_dangling c w k a rest context v e h b gone =
    let f = (Queue.Use.front_cons none (some k) rest v e).0 in
    let c' = record c { send_data_queue = (Queue.pop none c.send_data_queue).1 } in
    ap (λ x. release_request x c' w) f ∙ rw (h, ◌>>=◌) (rw (b, ◌>>=◌) (rw (gone, ◌>>=◌)))

-- A request with the handler's own packet, which is destroyed when the handler returns.
abbrev pub request_once : Packet → Client → M (Bool × Client)
request_once p c = do answer ← send_request p.data_size p.buffer c; destroy p; pure answer

-- Where the request stands when the handler has returned: the only queued context names the buffer at
-- `a`, which is freed, so that `FeedBack_Send` has no result. With that buffer it would have one.
pub record Dangling (c : Client) (w : World) (p : Packet) (a : ℕ) (bytes : List ℕ) : Type 0 where
  pub client : Client
  pub world : World
  pub runs : request_once p c w ≡ some ((true, client), world)
  pub context : ℕ
  pub queued : contents none client.send_data_queue ≡ some context ∷ []
  pub names : world.contexts context ≡ some (sending c.id (length bytes) (block a))
  pub freed : world.blocks a ≡ none
  pub faults : feedback_send client world ≡ none
  pub returns :
      (client' : Client) × (world' : World) × (feedback_send client
          (record world { blocks = update world.blocks a (some bytes) })
        ≡ some (client', world'))

-- The path of `EchoServer::Send` and `FeedBack_Send` for the first request of a connected client: the
-- handler is called with a packet of its own, which owns its buffer and is destroyed when it
-- returns. The request is granted and the handler returns; the one queued context then names the
-- buffer that was freed with the packet, and the completion of the send has no result, which it
-- would have if the buffer were still there.
pub send-destroy-feedback :
    (c : Client) (w : World) (p : Packet) (a : ℕ) (bytes : List ℕ)
    → c.is_connect ≡ true
    → IsValid c.send_data_queue
    → contents none c.send_data_queue ≡ []
    → Owns w p a bytes
    → Dangling c w p a bytes
send-destroy-feedback c w p a bytes on v e o =
    let r = send_request_lem c w a bytes on v o.holds in
    let c' = record c { send_data_queue = r.queue } in
    let alone : contents none r.queue ≡ some w.next ∷ [] =
      r.queued
      ∙ ap (λ xs. (put xs (some w.next)).1) e
      ∙ Queue.Use.put_room [] (some w.next) (omega arith) in
    let request = sending c.id (length bytes) (block a) in
    let w1 = log (with_context w request) (
      if length (contents none r.queue) == 1
      then wsa_send c.send_context.wsabuf w.next ∷ []
      else []) in
    let w2 = without_block w1 a in
    let asked : send_request p.data_size p.buffer c w ≡ some ((true, c'), w1) =
      ap₂ (λ n b. send_request n b c w) (sym o.sized) o.at ∙ r.runs in
    let gone =
      destroy_twice w1 p a bytes (record { at = o.at; holds = o.holds; sized = o.sized }) in
    let names : w2.contexts w.next ≡ some request = update_self w.contexts w.next (some request) in
    let freed : w2.blocks a ≡ none = update_self w.blocks a none in
    let there : World = record w2 { blocks = update w2.blocks a (some bytes) } in
    record {
      client = c';
      world = w2;
      runs = rw (asked, ◌>>=◌) (rw (gone.0, ◌>>=◌) refl);
      context = w.next;
      queued = alone;
      names = names;
      freed = freed;
      faults = feedback_send_dangling c' w2 w.next a [] request r.valid alone names refl freed;
      returns = (
        _,
        _,
        (feedback_send_lem c' there w.next a [] bytes r.valid alone names
            (update_self w2.blocks a (some bytes))).0,
      );
    }
