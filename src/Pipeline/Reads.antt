-- ===== src/Pipeline/Reads.antt =====
-- The reads of the echo server on its completion port: those that are asked for, and those that are
-- handled, with the queue of IocpServer_1/IOCompletionPort.h that drops what it has no room for.
use iocp_server.Base.{
  ℕ, ◌+◌, ◌≤◌, ◌≡◌, sym, append-nil, ap, ◌∙◌, List, [], ◌∷◌, ◌++◌, some, arith, length,
}
use iocp_server.Memory.{World, Event}
use iocp_server.Client.{Client}
use iocp_server.Client.Counting.{recv_count, recv_count-append}
use iocp_server.Server.{Server, Outside}
use iocp_server.Server.Table.{lookup}
use iocp_server.Iocp.{Queues}
use iocp_server.Iocp.Workers.{Callbacks}
use iocp_server.Iocp.Slots.{Owner}
use iocp_server.Iocp.Delivery.{Which, accepts, receives, AreStores}
use iocp_server.Iocp.Routes.{Item, views}
use iocp_server.Iocp.System.{Turn, follow, calls, AreTurns, AllFit}
use iocp_server.Iocp.Contract.{Calls}
use iocp_server.Iocp.Conserved.{taken}
use iocp_server.Iocp.Reading.{arrived, asked_by, AreAsked, accepted-arrived}
use iocp_server.Iocp.Catching.{
  catch_up, follow-catch_up, AreTurns-catch_up, AreAsked-catch_up, arrived-catch_up, taken-catch_up,
}
use iocp_server.Packet.Laws.{le_self}
use iocp_server.Pipeline.Reports.{reported_of}
use iocp_server.Pipeline.Accounts.{bytes_for}
use iocp_server.Pipeline.Steady.{IsSteady}
use iocp_server.Pipeline.Serving.{Fits, echo_contract}
use iocp_server.Pipeline.Echo.{Echoed, echo_run-Echoed}

-- Each call asks for a read at most, and calls for sends and disconnections ask for none.
recv_count-Calls :
    (called : List (Which × Item)) (s s' : Server) (news : List Event)
    → Calls echo_contract called s news s'
    → recv_count news ≤ asked_by called
recv_count-Calls [] s s' news (nothing, same) = rw nothing (omega arith)
recv_count-Calls ((k, x) ∷ called) s s' news (first, middle, rest, step, later, e) = rw e (
    omega
      (arith, recv_count-append first rest, step.1, recv_count-Calls called middle s' rest later))

-- What a run of the server does with the reads of its clients.
pub record AllRead (o : Outside) (cbs : Callbacks Server) (ts : List Turn) (w : World) (qs : Queues)
    (s : Server) : Type 0 where
  pub echoed : Echoed o cbs ts w qs s
  pub asks : recv_count echoed.turned.news ≤ asked_by (calls ts w.received (views w qs))
  pub no_byte_lost :
      (j : ℕ) (c : Client) (found : lookup j s.clients ≡ some c)
      → reported_of j echoed.turned.news
          ++ (echoed.account j c found).client.receive_buffer
          ++ bytes_for j (views echoed.turned.world echoed.turned.queues receives)
        ≡ c.receive_buffer
          ++ bytes_for j (views w qs receives)
          ++ bytes_for j (arrived ts w.received)

-- Under the conditions of a safe run (queues that own their blocks and hold what fits, a table at rest
-- whose identifiers were issued, below 2 ^ 31, reads of 1 to 980 bytes that are in a client's
-- array, no completed send): the server asks for at most one read for each accept and each read
-- that it handles. If no more reads complete than `due`, those under way at first, and one for each
-- accept and each read handled so far, and if the reads that wait at first, `due` and the accepts
-- handled in the run are at most 99 together, then no byte is lost: for each client of the table,
-- the bytes that are reported, kept and waiting are those that were kept and waiting before and
-- those of all its reads, in order.
pub echo_run-AllRead :
    (o : Outside) (cbs : Callbacks Server) (ts : List Turn) (owner : Owner) (w : World)
    (qs : Queues) (s : Server) (due : ℕ)
    → AreStores owner w qs
    → AllFit Fits (views w qs)
    → IsSteady s
    → AreTurns Fits w.received ts
    → AreAsked due ts w.received (views w qs)
    → length (views w qs receives) + due + length (taken accepts (calls ts w.received (views w qs)))
      ≤ 99
    → AllRead o cbs ts w qs s
echo_run-AllRead o cbs ts owner w qs s due st fit steady h asked few =
    let called = calls ts w.received (views w qs) in
    let r = echo_run-Echoed o cbs ts owner w qs s st fit steady h in
    let t = r.turned in
    record {
      echoed = r;
      asks = recv_count-Calls called s t.state t.news t.called_in_order;
      no_byte_lost = λ j c found.
          r.nothing_lost j c found
          ∙ ap (λ l. c.receive_buffer ++ bytes_for j (views w qs receives) ++ bytes_for j l)
              (accepted-arrived ts w.received (views w qs) due asked few);
    }

-- The rounds that the receive worker needs for what waits after `ts`.
abbrev pub to_catch_up : List Turn → World → Queues → List Turn
to_catch_up ts w qs = catch_up (length ((follow ts w.received (views w qs)).1 receives))

-- A run after which no read waits.
pub record AllHandled (o : Outside) (cbs : Callbacks Server) (ts us : List Turn) (w : World)
    (qs : Queues) (s : Server) : Type 0 where
  pub all_read : AllRead o cbs (ts ++ us) w qs s
  pub nothing_waits : views all_read.echoed.turned.world all_read.echoed.turned.queues receives ≡ []
  pub all_reported :
      (j : ℕ) (c : Client) (found : lookup j s.clients ≡ some c)
      → reported_of j all_read.echoed.turned.news
          ++ (all_read.echoed.account j c found).client.receive_buffer
        ≡ c.receive_buffer
          ++ bytes_for j (views w qs receives)
          ++ bytes_for j (arrived ts w.received)

-- Under the conditions under which no byte is lost, for a run `ts` in any order of rounds: let the
-- receive worker then make a round for each read that waits. After that no read waits, and for each
-- client of the table, the bytes that are reported and those that the client keeps are those that
-- it kept and that waited before, and those of all its reads in `ts`, in order.
pub echo_run-AllHandled :
    (o : Outside) (cbs : Callbacks Server) (ts : List Turn) (owner : Owner) (w : World)
    (qs : Queues) (s : Server) (due : ℕ)
    → AreStores owner w qs
    → AllFit Fits (views w qs)
    → IsSteady s
    → AreTurns Fits w.received ts
    → AreAsked due ts w.received (views w qs)
    → length (views w qs receives) + due + length (taken accepts (calls ts w.received (views w qs)))
      ≤ 99
    → AllHandled o cbs ts (to_catch_up ts w qs) w qs s
echo_run-AllHandled o cbs ts owner w qs s due st fit steady h asked few =
    let before = views w qs in
    let n = length ((follow ts w.received before).1 receives) in
    let r =
      echo_run-AllRead o cbs (ts ++ catch_up n) owner w qs s due st fit steady
        (AreTurns-catch_up Fits ts n w.received h)
        (AreAsked-catch_up ts n due w.received before asked)
        (omega (arith, few, ap length (taken-catch_up ts n w.received before))) in
    let empty =
      r.echoed.turned.seen receives ∙ follow-catch_up ts n w.received before (le_self n) in
    record {
      all_read = r;
      nothing_waits = empty;
      all_reported = λ j c found.
          let known =
            reported_of j r.echoed.turned.news
            ++ (r.echoed.account j c found).client.receive_buffer in
          sym (append-nil known)
          ∙ ap (λ l. known ++ bytes_for j l) (sym empty)
          ∙ r.no_byte_lost j c found
          ∙ ap (λ l. c.receive_buffer ++ bytes_for j (before receives) ++ bytes_for j l)
              (arrived-catch_up ts n w.received);
    }
