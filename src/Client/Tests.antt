-- ===== src/Client/Tests.antt =====
-- The theorems on clients, at client 3.
use iocp_server.Base.{
  ℕ, ◌≡◌, refl, true, List, [], ◌∷◌, ◌++◌, Option, none, some, map, arith, take, length, replicate,
  length-replicate, sym, ap, ◌∙◌,
}
use iocp_server.Overlapped.{block, zeroed}
use iocp_server.Memory.{World, sent, update, read_chars}
use iocp_server.Memory.Laws.{read_chars_block, take_all}
use iocp_server.Packet.{Packet}
use iocp_server.Queue
use iocp_server.Queue.{CircleQueue}
use iocp_server.Queue.Bounds.{IsValid, init-IsValid, push-IsValid}
use iocp_server.Queue.Refine.{contents}
use iocp_server.Client.{Client, DataPacket, create, feedback_receive, feedback_send}
use iocp_server.Client.Receive.{IsIdle, frames, left_over, feedback_receive_any}
use iocp_server.Client.Handling.{readied, ready_events, log, report}
use iocp_server.Client.Stream.{Message, Streamed, stream_reported}
use iocp_server.Client.Send.{
  Requested, sending, without_request, next_events, send_request_lem, feedback_send_lem,
}
use iocp_server.Client.Dangling.{Dangling, send-destroy-feedback}

-- A connected client that keeps three bytes.
abbrev keeper : Client
unfolding create
keeper = record (create zeroed 3) { is_connect = true; receive_buffer = 1 ∷ 2 ∷ 3 ∷ [] }

-- A block of nine bytes.
abbrev nine : List ℕ
nine = 4 ∷ 5 ∷ 6 ∷ 7 ∷ 8 ∷ 9 ∷ 10 ∷ 11 ∷ 12 ∷ []

abbrev one_block : World
one_block = record {
  next = 1;
  blocks = update (λ a. none) 0 (some nine);
  contexts = λ a. none;
  received = λ a. none;
  events = [];
}

keeper-IsIdle : IsIdle keeper
unfolding create Queue.init
keeper-IsIdle = record {
  valid = unfold Queue.init in init-IsValid none;
  none_waits = refl;
  kept = omega arith;
}

read_nine : read_chars (block 0) 9 one_block ≡ some (nine, one_block)
unfolding read_chars
read_nine = refl

-- Twelve bytes: one packet of ten, and two that are kept.
frames_of_twelve : left_over (1 ∷ 2 ∷ 3 ∷ nine) ≡ 11 ∷ 12 ∷ []
frames_of_twelve = refl

abbrev message : Message
message = record { size = 9; from = block 0; bytes = nine }

stream_reported_example : Streamed (message ∷ message ∷ []) keeper one_block
unfolding create
stream_reported_example =
    stream_reported (message ∷ message ∷ []) keeper one_block keeper-IsIdle refl
      ((read_nine, omega arith), ((read_nine, omega arith), tt))

send_queue-IsValid : IsValid keeper.send_data_queue
unfolding create
send_queue-IsValid = init-IsValid none

send_request_lem_example : Requested keeper one_block 0 nine
unfolding create
send_request_lem_example = send_request_lem keeper one_block 0 nine refl send_queue-IsValid refl

-- A client with a request under way, whose context is at 1.
abbrev busy : Client
unfolding create Queue.init Queue.push
busy = record keeper { send_data_queue = (Queue.push keeper.send_data_queue (some 1)).1 }

abbrev sending_world : World
sending_world = record one_block {
  next = 2;
  contexts = update (λ a. none) 1 (some (sending 3 9 (block 0)));
}

busy-IsValid : IsValid busy.send_data_queue
unfolding create busy Queue.push
busy-IsValid = push-IsValid (some 1) (init-IsValid none)

feedback_send_lem_example :
    let q = (Queue.pop none busy.send_data_queue).1 in
    (feedback_send busy sending_world
      ≡ some (
        record busy { send_data_queue = q },
        log
            (without_request sending_world 1 0)
            (sent 3 nine ∷ next_events busy.send_context.wsabuf []),
      ))
    × (contents none q ≡ [])
unfolding create Queue.init Queue.push
feedback_send_lem_example =
    feedback_send_lem busy sending_world 1 0 [] nine busy-IsValid refl refl refl

abbrev echo : Packet
echo = record { client_id = 3; buffer = block 0; data_size = 9 }

send-destroy-feedback_example : Dangling keeper one_block echo 0 nine
unfolding create Queue.init
send-destroy-feedback_example =
    send-destroy-feedback keeper one_block echo 0 nine refl (unfold Queue.init in init-IsValid none)
      refl (record { at = refl; holds = refl; sized = refl })

-- A message of more bytes than the queue takes.
abbrev long : List ℕ
long = replicate 1010 7

abbrev long_block : World
long_block = record one_block { blocks = update (λ a. none) 0 (some long) }

read_long : read_chars (block 0) 1010 long_block ≡ some (long, long_block)
read_long =
    let all : length long ≡ 1010 = length-replicate {A = ℕ} 1010 7 in
    read_chars_block long_block 0 1010 long refl (omega (arith, all))
    ∙ ap (λ l. some (l, long_block)) (take_all long 1010 (sym all))

feedback_receive_any_example :
    (q : CircleQueue (Option DataPacket)) × (feedback_receive 1010 (block 0) keeper long_block
      ≡ some (
        readied (record keeper {
          receive_data_queue = q;
          receive_buffer = left_over (keeper.receive_buffer ++ long);
        }),
        log long_block (
            map (report keeper.id) (take 99 (frames (keeper.receive_buffer ++ long)))
            ++ ready_events keeper),
      ))
    × IsIdle (record keeper {
      receive_data_queue = q;
      receive_buffer = left_over (keeper.receive_buffer ++ long);
    })
feedback_receive_any_example =
    feedback_receive_any 1010 (block 0) long keeper long_block keeper-IsIdle read_long
