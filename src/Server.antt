-- ===== src/Server.antt =====
-- EchoServer of IocpServer_1/EchoServer.h: the table of clients, the counters, and the handlers that
-- the completion port calls with a packet. A client is stored back where the source changes it
-- through the pointer in the table.
pub mod Table
pub mod Counting
pub mod Invariant
pub mod Accepting
pub mod Disconnecting
pub mod Stranding
mod Tests
use iocp_server.Base.{
  ℕ, zero, suc, ◌-◌, Bool, true, false, List, [], ◌∷◌, Option, none, some, ◌==◌, ltb, leb_int,
  add_int, sub_int, if◌then◌else◌, not,
}
use iocp_server.Overlapped.{CustomOverlapped}
use iocp_server.Memory.{M, pure, ◌>>=◌, ◌>>◌}
use iocp_server.Packet.{Packet}
use iocp_server.Client.{Client, create, try_accept, feedback_accept, feedback_receive, send_request}
use Table.{Clients, lookup, assign}

-- CLIENT_INIT_COUNT and CLIENT_INCREASE
abbrev pub client_init_count : ℕ
client_init_count = 1

abbrev pub client_increase : ℕ
client_increase = 1

pub record Server : Type 0 where
  pub clients : Clients
  pub accumulated_client_id : ℕ
  pub current_client_count : ℕ
  pub current_client_max : ℕ

abbrev pub initial : Server
initial = record {
  clients = [];
  accumulated_client_id = 0;
  current_client_count = 0;
  current_client_max = 0;
}

-- What the server does not set itself: what a new client's contexts hold, and the error that
-- `getsockopt` reports for each socket.
pub record Outside : Type 0 where
  pub unset : CustomOverlapped
  pub socket_error : ℕ → ℕ

-- How often `currentId < limit` holds as `currentId` counts up to `limit = currentId + count`.
abbrev pub rounds_of : ℕ → ℕ → ℕ
rounds_of id count = if leb_int (add_int id count) id then 0 else sub_int (add_int id count) id

module _ (o : Outside) where
  -- `for (; currentId < limit; currentId++)` of `PrepareSocket`, with the rounds that are left.
  unfoldable pub add_clients : ℕ → ℕ → Clients → Clients
  add_clients zero id cs = cs
  add_clients (suc rounds) id cs =
      add_clients rounds (add_int id 1) (assign id (create o.unset id) cs)

  -- The loop of `PrepareSocket` over the whole table.
  unfoldable pub try_accept_all : Clients → M Clients
  try_accept_all [] = pure []
  try_accept_all ((id, c) ∷ cs) = do
    (asked, c') ← try_accept (o.socket_error id) c
    cs' ← try_accept_all cs
    pure ((id, c') ∷ cs')

  -- `PrepareSocket`, where its first loop makes so many rounds.
  unfoldable pub prepare_rounds : ℕ → ℕ → Server → M Server
  prepare_rounds rounds count s = do
    cs ← try_accept_all (add_clients rounds s.accumulated_client_id s.clients)
    pure (record {
      clients = cs;
      accumulated_client_id = add_int s.accumulated_client_id rounds;
      current_client_count = s.current_client_count;
      current_client_max = add_int s.current_client_max count;
    })

  unfoldable pub prepare_socket : ℕ → Server → M Server
  prepare_socket count s = prepare_rounds (rounds_of s.accumulated_client_id count) count s

  -- `ClientFinder`
  unfoldable pub client_finder : ℕ → Server → Option Client
  client_finder id s = lookup id s.clients

  -- `isEmpty` of `Accept`, with what follows it.
  unfoldable pub top_up : Server → M Server
  top_up s =
      if leb_int (sub_int s.current_client_max s.current_client_count) 0
      then prepare_socket client_increase s
      else pure s

  -- The body of `Accept` behind its test of the pointer.
  unfoldable pub accept_found : ℕ → Client → Server → M Server
  accept_found id c s = do
    c' ← feedback_accept true c
    top_up (record s {
      clients = assign id c' s.clients;
      current_client_count = add_int s.current_client_count 1;
    })

  unfoldable pub accept : Packet → Server → M Server
  accept packet s = elim (client_finder packet.client_id s) [
    | none ↦ pure s
    | some c ↦ accept_found packet.client_id c s
  ]

  unfoldable pub send : Packet → Server → M Server
  send packet s = elim (client_finder packet.client_id s) [
    | none ↦ pure s
    | some c ↦ do
      (sending, c') ← send_request packet.data_size packet.buffer c
      pure (record s { clients = assign packet.client_id c' s.clients })
  ]

  unfoldable pub receive : Packet → Server → M Server
  receive packet s = elim (client_finder packet.client_id s) [
    | none ↦ pure s
    | some c ↦ do
      c' ← feedback_receive packet.data_size packet.buffer c
      pure (record s { clients = assign packet.client_id c' s.clients })
  ]

  unfoldable pub disconnect : Packet → Server → M Server
  disconnect packet s = elim (client_finder packet.client_id s) [
    | none ↦ pure s
    | some c ↦ do
      (asked, c') ← try_accept (o.socket_error packet.client_id) c
      pure (record s {
        clients = assign packet.client_id c' s.clients;
        current_client_count = sub_int s.current_client_count 1;
      })
  ]
