-- ===== src/Server/Tests.antt =====
-- The theorems on the server, at a table of two clients.
use iocp_server.Base.{
  ◌<◌, ℕ, ◌≡◌, refl, true, false, ◌≤◌, [], ◌∷◌, ◌++◌, ◌+◌, none, some, arith, add_int,
}
use iocp_server.Overlapped.{null, zeroed}
use iocp_server.Memory.{World, accept_ex, wsa_recv, ◌>>=◌}
use iocp_server.Packet.{Packet}
use iocp_server.Client.{Client, create, accepting, receiving}
use iocp_server.Client.Handling.{log}
use iocp_server.Server.{Server, Outside, accept, disconnect, prepare_socket}
use iocp_server.Server.Table.{lookup}
use iocp_server.Server.Accepting.{new_clients, tried_all, all_events, prepare_socket_lem}
use iocp_server.Server.Invariant.{IsValid}
use iocp_server.Server.Counting.{Counting, count_run, whole, count_run-bounds}
use iocp_server.Server.Stranding.{AllConnected, OthersConnected, disconnect-accept}

abbrev outside : Outside
outside = record { unset = zeroed; socket_error = λ id. 0 }

abbrev quiet : World
quiet = record {
  next = 0;
  blocks = λ a. none;
  contexts = λ a. none;
  received = λ a. none;
  events = [];
}

-- Client 0 is connected, client 1 is not.
abbrev joined : Client
unfolding create
joined = record (create zeroed 0) { is_connect = true }

abbrev two_clients : Server
unfolding create
two_clients = record {
  clients = (0, joined) ∷ (1, create zeroed 1) ∷ [];
  accumulated_client_id = 2;
  current_client_count = 1;
  current_client_max = 2;
}

abbrev packet_for : ℕ → Packet
packet_for id = record { client_id = id; buffer = null; data_size = 0 }

two_clients-IsValid : IsValid two_clients
unfolding create
two_clients-IsValid = record {
  table = record { numbered = (refl, refl, (refl, refl, tt)); issued = refl; maximum = refl };
  room = omega arith;
}

prepare_socket_lem_example :
    let cs = two_clients.clients ++ new_clients outside 1 2 in
    prepare_socket outside 1 two_clients quiet
    ≡ some (
      record {
        clients = tried_all outside cs;
        accumulated_client_id = 2 + 1;
        current_client_count = 1;
        current_client_max = add_int 2 1;
      },
      log quiet (all_events outside cs),
    )
unfolding create
prepare_socket_lem_example =
    prepare_socket_lem outside 1 two_clients quiet (refl, refl, (refl, refl, tt)) refl (omega arith)

-- Client 1 is asked to accept once more, and the new client 2 for the first time.
all_events_example :
    all_events outside (two_clients.clients ++ new_clients outside 1 2)
    ≡ accept_ex (accepting 1) ∷ accept_ex (accepting 2) ∷ []
unfolding create
all_events_example = refl

-- A connection that overlaps with a disconnection, and one that does not.
count_run-bounds_example :
    let idle : Counting = record {
      current_client_count = 5;
      accept_loaded = none;
      disconnect_loaded = none;
    } in
    let s = count_run (true ∷ false ∷ true ∷ false ∷ []) idle in
    ((count_run (whole (true ∷ false ∷ [])) idle).current_client_count + 1 ≡ 6)
    × (5 ≤ s.current_client_count + 1)
    × (s.current_client_count ≤ 6)
count_run-bounds_example =
    count_run-bounds (true ∷ false ∷ true ∷ false ∷ []) (true ∷ false ∷ []) 5 (omega arith)
      (omega arith) (omega arith) (omega arith)

others_connected : OthersConnected 1 two_clients.clients
unfolding create
others_connected = (λ ne. refl, (λ ne. absurd (ne refl), tt))

-- Client 0 leaves, and client 1 is accepted.
disconnect-accept_example :
    (s' : Server) × ((disconnect outside (packet_for 0) two_clients
          >>= accept outside (packet_for 1))
        quiet
      ≡ some (s', log quiet (wsa_recv (receiving 1) ∷ [])))
    × AllConnected s'.clients
    × (s'.current_client_count < s'.current_client_max)
unfolding create lookup
disconnect-accept_example =
    disconnect-accept outside (packet_for 0) (packet_for 1) joined (create zeroed 1) two_clients
      quiet two_clients-IsValid.table refl refl refl others_connected refl (omega arith)
      (omega arith)
