-- ===== src/Iocp/Tests.antt =====
-- The theorems on the completion port, at client 3.
use iocp_server.Base.{◌≡◌, refl, true, false, [], ◌∷◌, none, some}
use iocp_server.Overlapped.{CustomOverlapped, block, op_accept}
use iocp_server.Memory.{World, update, delete_chars}
use iocp_server.Queue
use iocp_server.Iocp.{empty_queues, process_round}
use iocp_server.Iocp.Startup.{Answers, init, constructed, use_of, unused, init_left}
use iocp_server.Iocp.Signals.{with_bare, accept_completion}

-- One block, at 0, and client 3's array.
abbrev one_client : World
one_client = record {
  next = 1;
  blocks = update (λ a. none) 0 (some (5 ∷ 6 ∷ []));
  contexts = λ a. none;
  received = update (λ a. none) 3 (some (1 ∷ 2 ∷ 3 ∷ []));
  events = [];
}

-- Everything succeeds, but `WSAIoctl`.
abbrev answered : Answers
answered = record {
  started = true;
  socket = some 4;
  bound = true;
  listening = true;
  port = some 9;
  associated = true;
  accept_ex = none;
}

init_left_example :
    let a : Answers = record answered { associated = false } in
    let (calls, p) = init a constructed in
    (use_of a calls unused ≡ record unused { ports = 1 }) × (p.server_on ≡ true)
init_left_example = init_left (record answered { associated = false })

-- The context of an accept of client 3.
abbrev accepted : CustomOverlapped
accepted = record {
  wsabuf = record { len = 64; buf = block 0 };
  operation_type = op_accept;
  id = 3;
}

accept_completion_example :
    process_round
      (record { result = true; bytes_transferred = 0; custom_overlapped = some accepted })
      empty_queues
      one_client
    ≡ some
        (record empty_queues { accept_queue = with_bare 3 empty_queues.accept_queue }, one_client)
unfolding empty_queues Queue.init delete_chars
accept_completion_example =
    accept_completion 0 accepted empty_queues one_client one_client refl refl
