-- ===== src/Client/Send.antt =====
-- The send side: what `SendRequest` queues and posts, and what `FeedBack_Send` frees.
use iocp_server.Base.{
  ℕ, suc, ◌≡◌, refl, sym, ap, ◌∙◌, true, false, List, [], ◌∷◌, Option, none, some, arith, length,
  take, ◌==◌, if◌then◌else◌, Bool-cases, inl, inr, append-nil, ==→eq, map,
}
use iocp_server.Overlapped.{Address, block, CustomOverlapped, Wsabuf, op_send}
use iocp_server.Memory.{
  World, M, Event, wsa_send, sent, pure, ◌>>=◌, update, emit, new_context, copy_memory,
  load_context, delete_context,
}
use iocp_server.Memory.Laws.{
  read_chars_block, write_chars_block, delete_chars_block, update_back, take_all,
}
use iocp_server.Queue
use iocp_server.Queue.{CircleQueue}
use iocp_server.Queue.Bounds.{IsValid}
use iocp_server.Queue.Refine.{contents}
use iocp_server.Queue.Fifo.{put}
use iocp_server.Client.{
  Client, send_request, send_connected, send_internal_work, post_send, release_request,
  feedback_send,
}
use iocp_server.Client.Handling.{log, log-log}

-- The context that `SendRequest` fills in: its buffer is the caller's.
abbrev pub sending : ℕ → ℕ → Address → CustomOverlapped
sending id size buffer = record {
  wsabuf = record { len = size; buf = buffer };
  operation_type = op_send;
  id = id;
}

abbrev pub with_context : World → CustomOverlapped → World
with_context w c = record w { next = suc w.next; contexts = update w.contexts w.next (some c) }

-- Copying a block's bytes onto themselves changes nothing.
copy_memory_same :
    (w : World) (a : ℕ) (bytes : List ℕ)
    → w.blocks a ≡ some bytes
    → copy_memory (block a) (block a) (length bytes) w ≡ some (tt, w)
unfolding copy_memory
copy_memory_same w a bytes h =
    let all : take (length bytes) bytes ≡ bytes = take_all bytes (length bytes) refl in
    let r = rw all at (read_chars_block w a (length bytes) bytes h (omega arith)) in
    rw (r, ◌>>=◌)
      (write_chars_block w a bytes bytes h refl
        ∙ ap (λ f. some (tt, record w { blocks = f })) (update_back w.blocks a (some bytes) h))

send_internal_work_lem :
    (c : Client) (w : World) (k : ℕ)
    → Queue.front none c.send_data_queue ≡ some k
    → send_internal_work c w ≡ some (tt, log w (wsa_send c.send_context.wsabuf k ∷ []))
unfolding send_internal_work post_send emit
send_internal_work_lem c w k e = ap (λ p. post_send c.send_context.wsabuf p w) e

-- The last test of `SendRequest`.
abbrev start_if_single : Client → M (Unit {0})
start_if_single c = if Queue.size c.send_data_queue == 1 then send_internal_work c else pure tt

start_if_single_lem :
    (c : Client) (w : World) (k : ℕ)
    → IsValid c.send_data_queue
    → (length (contents none c.send_data_queue) ≡ 1 → contents none c.send_data_queue ≡ some k ∷ [])
    → start_if_single c w
      ≡ some (
        tt,
        log w (
            if length (contents none c.send_data_queue) == 1
            then wsa_send c.send_context.wsabuf k ∷ []
            else []),
      )
start_if_single_lem c w k v single =
    let q = c.send_data_queue in
    ap (λ n. (if n == 1 then send_internal_work c else pure tt) w)
      (Queue.Refine.size_refines none v)
    ∙ elim (Bool-cases (length (contents none q) == 1)) [
      | inl one ↦
          let alone = single (==→eq (length (contents none q)) 1 one) in
          rw one (send_internal_work_lem c w k (Queue.Use.front_cons none (some k) [] v alone).0)
      | inr more ↦ rw (more, append-nil)
    ]

-- What `SendRequest` does with a buffer at `a`.
pub record Requested (c : Client) (w : World) (a : ℕ) (bytes : List ℕ) : Type 0 where
  pub queue : CircleQueue (Option ℕ)
  pub valid : IsValid queue
  pub queued : contents none queue ≡ (put (contents none c.send_data_queue) (some w.next)).1
  pub runs :
      send_request (length bytes) (block a) c w
      ≡ some (
        (true, record c { send_data_queue = queue }),
        log (with_context w (sending c.id (length bytes) (block a))) (
            if length (contents none queue) == 1
            then wsa_send c.send_context.wsabuf w.next ∷ []
            else []),
      )

-- `SendRequest` on a connected client with a readable buffer always answers true. It stores a context
-- that names the caller's buffer, and queues it unless the queue is full; it posts `WSASend` exactly
-- if the queue then holds this one request, so that one send is under way at a time. The buffer
-- handed to `WSASend` is that of `mSendContext`.
pub send_request_lem :
    (c : Client) (w : World) (a : ℕ) (bytes : List ℕ)
    → c.is_connect ≡ true
    → IsValid c.send_data_queue
    → w.blocks a ≡ some bytes
    → Requested c w a bytes
unfolding send_request send_connected new_context
send_request_lem c w a bytes on v h =
    let context : Option ℕ = some w.next in
    let q = (Queue.push c.send_data_queue context).1 in
    let c' = record c { send_data_queue = q } in
    let w' = with_context w (sending c.id (length bytes) (block a)) in
    let queued = ap (λ p. p.1) (Queue.Refine.push_refines none context v) in
    let valid = Queue.Bounds.push-IsValid context v in
    let single : length (contents none q) ≡ 1 → contents none q ≡ context ∷ [] = λ one.
      queued
      ∙ Queue.Use.put_single (contents none c.send_data_queue) context
          (ap length (sym queued) ∙ one) in
    record {
      queue = q;
      valid = valid;
      queued = queued;
      runs =
          ap (λ b. (if b then send_connected (length bytes) (block a) c else pure (false, c)) w) on
          ∙ (rw (copy_memory_same w' a bytes h, ◌>>=◌)
              (rw (start_if_single_lem c' w' w.next valid single, ◌>>=◌)));
    }

-- What `FeedBack_Send` posts for the requests that are left.
abbrev pub next_events : Wsabuf → List ℕ → List Event
next_events buffer [] = []
next_events buffer (k ∷ ks) = wsa_send buffer k ∷ []

-- The last test of `FeedBack_Send`.
abbrev send_next : Client → M (Unit {0})
send_next c = if Queue.empty c.send_data_queue then pure tt else send_internal_work c

send_next_lem :
    (c : Client) (w : World) (ks : List ℕ)
    → IsValid c.send_data_queue
    → contents none c.send_data_queue ≡ map some ks
    → send_next c w ≡ some (tt, log w (next_events c.send_context.wsabuf ks))
send_next_lem c w [] v e =
    rw (Queue.Use.empty_nil none v e)
      (ap (λ l. some (tt, record w { events = l })) (sym (append-nil w.events)))
send_next_lem c w (k ∷ ks) v e =
    let f = Queue.Use.front_cons none (some k) (map some ks) v e in
    rw f.3 (send_internal_work_lem c w k f.0)

-- A world without the context at `k` and the block at `a`.
abbrev pub without_request : World → ℕ → ℕ → World
without_request w k a = record w {
  blocks = update w.blocks a none;
  contexts = update w.contexts k none;
}

delete_context_live :
    (w : World) (k : ℕ) (context : CustomOverlapped)
    → w.contexts k ≡ some context
    → delete_context (some k) w ≡ some (tt, record w { contexts = update w.contexts k none })
unfolding delete_context
delete_context_live w k context h = rw h

-- `FeedBack_Send` for the oldest request, whose context and buffer exist: it reports the buffer's
-- bytes, frees the buffer and the context, takes the request out of the queue, and posts the next
-- request if there is one.
pub feedback_send_lem :
    (c : Client) (w : World) (k a : ℕ) (ks bytes : List ℕ)
    → IsValid c.send_data_queue
    → contents none c.send_data_queue ≡ map some (k ∷ ks)
    → w.contexts k ≡ some (sending c.id (length bytes) (block a))
    → w.blocks a ≡ some bytes
    → let q = (Queue.pop none c.send_data_queue).1 in
      (feedback_send c w
        ≡ some (
          record c { send_data_queue = q },
          log (without_request w k a) (sent c.id bytes ∷ next_events c.send_context.wsabuf ks),
        ))
      × (contents none q ≡ map some ks)
unfolding feedback_send release_request load_context emit
feedback_send_lem c w k a ks bytes v e h b =
    let f = Queue.Use.front_cons none (some k) (map some ks) v e in
    let c' = record c { send_data_queue = (Queue.pop none c.send_data_queue).1 } in
    let w1 = log w (sent c.id bytes ∷ []) in
    let w1' = record w1 { blocks = update w.blocks a none } in
    let w2 = without_request w1 k a in
    let r =
      rw (take_all bytes (length bytes) refl) at
        (read_chars_block w a (length bytes) bytes b (omega arith)) in
    (
      ap (λ x. release_request x c' w) f.0
          ∙ (rw (h, ◌>>=◌)
              (rw (r, ◌>>=◌)
                (rw (delete_chars_block w1 a bytes b, ◌>>=◌)
                  (rw (delete_context_live w1' k (sending c.id (length bytes) (block a)) h, ◌>>=◌)
                    (rw (send_next_lem c' w2 ks (Queue.Bounds.pop-IsValid none v) f.1, ◌>>=◌)
                      (ap (λ u. some (c', u))
                        (log-log (without_request w k a) (sent c.id bytes ∷ [])
                          (next_events c.send_context.wsabuf ks)))))))),
      f.1,
    )
