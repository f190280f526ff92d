-- ===== src/Iocp/Signals.antt =====
-- The completion of an accept in the loop of IOCompletionPort.h.
use iocp_server.Base.{
  ℕ, ◌≡◌, ◌≢◌, refl, inl, inr, Bool, true, false, some, get_or, set, ◌==◌, ne→==, eq→==, ==→eq,
  ==-false→ne, Bool-cases, if◌then◌else◌, ◌&&◌,
}
use iocp_server.Overlapped.{CustomOverlapped, null, op_accept}
use iocp_server.Memory.{World, ◌>>=◌, delete_chars}
use iocp_server.Packet.{Packet, default_packet, assign, duplicate, destroy, set_id}
use iocp_server.Queue.{CircleQueue, next_index}
use iocp_server.Iocp.{Queues, Completion, process_round, complete, dispatch, push_accept}
use iocp_server.Iocp.PacketQueue.{push_packet}

-- A packet without bytes.
abbrev pub bare : ℕ → Packet
bare id = record { client_id = id; buffer = null; data_size = 0 }

abbrev pub with_bare : ℕ → CircleQueue Packet → CircleQueue Packet
with_bare id q = record q {
  buffer = set q.buffer q.input_index (bare id);
  input_index = next_index q.input_index;
}

-- The packet in the slot that the next push overwrites.
abbrev pub old_slot : CircleQueue Packet → Packet
old_slot q = get_or q.buffer q.input_index default_packet

push-bare :
    (id : ℕ) (q : CircleQueue Packet) (w w' : World)
    → next_index q.input_index ≢ q.output_index
    → delete_chars (old_slot q).buffer w ≡ some (tt, w')
    → push_packet (bare id) q w ≡ some ((true, with_bare id q), w')
unfolding push_packet assign duplicate
push-bare id q w w' room h =
    rw (ne→== (next_index q.input_index) q.output_index room) (rw (h, ◌>>=◌))

push-bare_full :
    (id : ℕ) (q : CircleQueue Packet) (w : World)
    → next_index q.input_index ≡ q.output_index
    → push_packet (bare id) q w ≡ some ((false, q), w)
unfolding push_packet
push-bare_full id q w full = rw (eq→== (next_index q.input_index) q.output_index full)

and_false : (b : Bool) → (b && false) ≡ false
and_false true = refl
and_false false = refl

-- A successful completion of an accept, whatever its count of bytes, puts the client's identifier into
-- the accept queue, and does nothing else but to free the block that the slot had, if the queue has
-- room and the block can be freed. If the queue is full, the round changes nothing, so that the
-- connection is not reported.
pub accept_completion :
    (n : ℕ) (target : CustomOverlapped) (qs : Queues) (w w' : World)
    → target.operation_type ≡ op_accept
    → delete_chars (old_slot qs.accept_queue).buffer w ≡ some (tt, w')
    → let c : Completion = record {
      result = true;
      bytes_transferred = n;
      custom_overlapped = some target;
    } in
      process_round c qs w ≡ (
        if next_index qs.accept_queue.input_index == qs.accept_queue.output_index
        then some (qs, w)
        else some (record qs { accept_queue = with_bare target.id qs.accept_queue }, w'))
unfolding process_round complete dispatch push_accept destroy set_id delete_chars
accept_completion n target qs w w' a h =
    let q = qs.accept_queue in
    elim (Bool-cases (next_index q.input_index == q.output_index)) [
      | inl full ↦
          rw (full, a, and_false (n == 0))
            (rw (
              push-bare_full target.id q w (==→eq (next_index q.input_index) q.output_index full),
              ◌>>=◌,
            ))
      | inr room ↦
          rw (room, a, and_false (n == 0))
            (rw (
              push-bare target.id q w w'
                  (==-false→ne (next_index q.input_index) q.output_index room) h,
              ◌>>=◌,
            ))
    ]
