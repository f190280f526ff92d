-- ===== src/Server/Invariant.antt =====
-- The table of clients and the counters of IocpServer_1/EchoServer.h under `Accept`.
use iocp_server.Base.{ℕ, ◌+◌, ◌<◌, ◌≡◌, ◌≢◌, true, [], ◌∷◌, some, length}
use iocp_server.Memory.{World, wsa_recv, ◌>>=◌}
use iocp_server.Packet.{Packet}
use iocp_server.Client.{Client, feedback_accept, receiving}
use iocp_server.Client.Handling.{log, receive_ready_lem}
use iocp_server.Server.{Server, Outside, accept, top_up}
use iocp_server.Server.Table.{IsNumbered, lookup}

-- The table and the two counters that `PrepareSocket` keeps.
pub record IsTable (s : Server) : Type 0 where
  pub numbered : IsNumbered 0 s.clients
  pub issued : s.accumulated_client_id ≡ length s.clients
  pub maximum : s.current_client_max ≡ s.accumulated_client_id

-- With it, more clients than are counted as connected.
pub record IsValid (s : Server) : Type 0 where
  pub table : IsTable s
  pub room : s.current_client_count < s.current_client_max

-- A client that has just been connected.
abbrev pub connected : Client → Client
connected c = record c { is_connect = true; receive_context = receiving c.id }

pub feedback_accept_lem :
    (c : Client) (w : World)
    → feedback_accept true c w ≡ some (connected c, log w (wsa_recv (receiving c.id) ∷ []))
unfolding feedback_accept
feedback_accept_lem c w = rw (receive_ready_lem (record c { is_connect = true }) w, ◌>>=◌)

module _ (o : Outside) where
  -- What `Accept` achieves for a client of the table: it returns; the client is connected and
  -- counted; the table is in order; and some client is still to be connected.
  pub record Accepted (p : Packet) (s : Server) (w : World) : Type 0 where
    pub server : Server
    pub world : World
    pub returns : accept o p s w ≡ some (server, world)
    pub valid : IsValid server
    pub counted : server.current_client_count ≡ s.current_client_count + 1
    pub client : Client
    pub found : lookup p.client_id server.clients ≡ some client
    pub on : client.is_connect ≡ true
    pub others :
        (i : ℕ) (d : Client)
        → p.client_id ≢ i
        → lookup i s.clients ≡ some d
        → d.is_connect ≡ true
        → lookup i server.clients ≡ some d

  record ToppedUp (s : Server) (w : World) : Type 0 where
    server : Server
    world : World
    returns : top_up o s w ≡ some (server, world)
    valid : IsValid server
    counted : server.current_client_count ≡ s.current_client_count
    keeps :
        (i : ℕ) (d : Client)
        → lookup i s.clients ≡ some d
        → d.is_connect ≡ true
        → lookup i server.clients ≡ some d
