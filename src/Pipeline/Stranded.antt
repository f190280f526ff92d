-- ===== src/Pipeline/Stranded.antt =====
-- The server once all clients of its table are connected.
use iocp_server.Base.{
  ℕ, ◌≡◌, refl, ◌∙◌, inl, inr, true, List, [], ◌∷◌, ◌++◌, some, Option-cases, sub_int, ap₂,
}
use iocp_server.Memory.{World, Event, M, pure, ◌>>=◌}
use iocp_server.Packet.{Packet}
use iocp_server.Client.{Client}
use iocp_server.Server.{Server, Outside, client_finder, receive, disconnect}
use iocp_server.Server.Table.{lookup, assign, found-All, assign-All}
use iocp_server.Server.Accepting.{tried, accept_events, try_accept_lem}
use iocp_server.Server.Stranding.{AllConnected}
use iocp_server.Iocp.{Queues}
use iocp_server.Iocp.Workers.{Callbacks}
use iocp_server.Iocp.Slots.{Owner, shows}
use iocp_server.Iocp.Delivery.{Which, accepts, sends, receives, disconnects, AreStores}
use iocp_server.Iocp.Routes.{Item, views}
use iocp_server.Iocp.System.{Turn, run, calls, AreTurns, AllFit}
use iocp_server.Iocp.Contract.{Contract, Served, Serves, Calls}
use iocp_server.Iocp.Interleaving.{set, run-Turned}
use iocp_server.Pipeline.Reports.{offers, offers-append}
use iocp_server.Pipeline.Receiving.{receive-Received}
use iocp_server.Pipeline.AtRest.{IsAtRest, tried-IsAtRest}
use iocp_server.Pipeline.Steady.{IsSteady}
use iocp_server.Pipeline.Accepting.{Logged, pure-Logged}
use iocp_server.Pipeline.Serving.{Fits, handler, Logged-Served, stored}

abbrev IsConnected : ℕ × Client → Type 0
IsConnected x = x.1.is_connect ≡ true

-- Every client is connected.
abbrev pub IsStranded : Server → Type 0
IsStranded s = IsSteady s × AllConnected s.clients

-- What is completed while every client is connected: no connection, as none is asked for.
abbrev pub FitsStranded : Which → Item → Type 0
FitsStranded accepts x = ⊥
FitsStranded sends x = ⊥
FitsStranded receives x = Fits receives x
FitsStranded disconnects x = Unit {0}

-- No call asks for a connection, or ends one.
abbrev pub StaysStranded : Which → Item → Server → List Event → Server → Type 0
StaysStranded k x s news s' = (offers news ≡ []) × AllConnected s'.clients

abbrev pub stranded_contract : Contract Server
stranded_contract = record { Inv = IsStranded; Fits = FitsStranded; Step = StaysStranded }

Stays-Served :
    {k : Which} {f : Packet → Server → M Server} {p : Packet} {s : Server} {w : World}
    → Logged (StaysStranded k (shows w p) s) (f p s) w
    → Served stranded_contract k f p s w
Stays-Served l = Logged-Served stranded_contract l (l.steady, l.does.1)

unknown-Logged :
    (k : Which) (x : Item) (s : Server) (w : World)
    → IsStranded s
    → Logged (StaysStranded k x s) (pure s) w
unknown-Logged k x s w (h, on) = pure-Logged (StaysStranded k x s) s w h (refl, on)

-- A connected client is not offered.
connected-quiet :
    (error : ℕ) (c : Client) → c.is_connect ≡ true → offers (accept_events error c) ≡ []
connected-quiet error c on = rw on refl

connected-tried : (error : ℕ) (c : Client) → c.is_connect ≡ true → (tried error c).is_connect ≡ true
connected-tried error c on = rw on refl

module _ (o : Outside) where
  disconnect-stranded : Serves stranded_contract disconnects (disconnect o)
  unfolding disconnect client_finder
  disconnect-stranded owner p s w (h, on) fits loose =
      Stays-Served (elim (Option-cases (lookup p.client_id s.clients)) [
        | inl unknown ↦
            rw (unknown, disconnect) (unknown-Logged disconnects (shows w p) s w (h, on))
        | inr (c, known) ↦
            let id = p.client_id in
            let error = o.socket_error id in
            let joined = found-All IsConnected id c s.clients on known in
            let count = sub_int s.current_client_count 1 in
            rw (known, disconnect)
              (record {
                state = record s {
                  clients = assign id (tried error c) s.clients;
                  current_client_count = count;
                };
                news = accept_events error c;
                runs = rw (try_accept_lem error c w, ◌>>=◌) refl;
                steady =
                    stored o id c (tried error c) count s h known (
                      tried-IsAtRest error id c
                        (found-All IsAtRest id c s.clients h.at_rest known));
                does = (
                  connected-quiet error c joined,
                  assign-All IsConnected id (tried error c) s.clients on
                      (connected-tried error c joined),
                );
              })
      ])

  receive-stranded : Serves stranded_contract receives (receive o)
  unfolding receive client_finder
  receive-stranded owner p s w (h, on) (pos, fits) loose =
      Stays-Served (elim (Option-cases (lookup p.client_id s.clients)) [
        | inl unknown ↦ rw (unknown, receive) (unknown-Logged receives (shows w p) s w (h, on))
        | inr (c, known) ↦
            let id = p.client_id in
            let rest = found-All IsAtRest id c s.clients h.at_rest known in
            let joined = found-All IsConnected id c s.clients on known in
            let r =
              receive-Received o owner p s c id (shows w p).1 w loose refl pos fits known rest.0 in
            record {
              state = record s { clients = assign id r.client s.clients };
              news = r.news;
              runs = r.runs;
              steady =
                  stored o id c r.client s.current_client_count s h known
                    (r.idle, r.same_id ∙ rest.1);
              does = (
                r.no_offer,
                assign-All IsConnected id r.client s.clients on (r.connected ∙ joined),
              );
            }
      ])

  handler-stranded : (k : Which) → Serves stranded_contract k (handler o k)
  handler-stranded accepts = λ owner p s w h fits loose. absurd fits
  handler-stranded sends = λ owner p s w h fits loose. absurd fits
  handler-stranded receives = receive-stranded
  handler-stranded disconnects = disconnect-stranded

no_offers :
    (called : List (Which × Item)) (s s' : Server) (news : List Event)
    → Calls stranded_contract called s news s'
    → offers news ≡ []
no_offers [] s s' news (nothing, same) = rw nothing
no_offers ((k, x) ∷ called) s s' news (first, middle, rest, step, later, e) =
    rw e (offers-append first rest ∙ ap₂ ◌++◌ step.0 (no_offers called middle s' rest later))

-- What a run leaves of a server whose clients are all connected.
pub record Stranded (o : Outside) (cbs : Callbacks Server) (ts : List Turn) (w : World)
    (qs : Queues) (s : Server) : Type 0 where
  pub world : World
  pub queues : Queues
  pub state : Server
  pub news : List Event
  pub runs : run (set (handler o) cbs) ts qs s w ≡ some ((queues, state), world)
  pub logged : world.events ≡ w.events ++ news
  pub not_offered : offers news ≡ []
  pub all_connected : AllConnected state.clients

-- In a table whose clients are all connected, at rest, and have identifiers that were issued, below
-- 2 ^ 31: while no connection and no send completes, and what is read has 1 to 980 bytes and is in
-- a client's array, the server returns in any order of rounds, and however many clients disconnect,
-- it asks for no connection, and every client is still marked as connected.
pub run-Stranded :
    (o : Outside) (cbs : Callbacks Server) (ts : List Turn) (owner : Owner) (w : World)
    (qs : Queues) (s : Server)
    → AreStores owner w qs
    → AllFit FitsStranded (views w qs)
    → IsStranded s
    → AreTurns FitsStranded w.received ts
    → Stranded o cbs ts w qs s
run-Stranded o cbs ts owner w qs s st fit inv h =
    let t =
      run-Turned (handler o) cbs stranded_contract (handler-stranded o) ts owner w qs s st fit inv
        h in
    record {
      world = t.world;
      queues = t.queues;
      state = t.state;
      news = t.news;
      runs = t.runs;
      logged = t.logged;
      not_offered = no_offers (calls ts w.received (views w qs)) s t.state t.news t.called_in_order;
      all_connected = t.inv.1;
    }
