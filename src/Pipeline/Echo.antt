-- ===== src/Pipeline/Echo.antt =====
-- The echo server on its completion port: the loop, the four workers, and the handlers of
-- IocpServer_1/EchoServer.h, their rounds in any order.
use iocp_server.Base.{ℕ, ◌≡◌, sym, ap, ◌∙◌, List, ◌++◌, some, append_assoc}
use iocp_server.Memory.{World}
use iocp_server.Client.{Client}
use iocp_server.Client.Counting.{send_count}
use iocp_server.Server.{Server, Outside}
use iocp_server.Server.Table.{lookup}
use iocp_server.Iocp.{Queues}
use iocp_server.Iocp.Workers.{Callbacks}
use iocp_server.Iocp.Slots.{Owner}
use iocp_server.Iocp.Delivery.{receives, AreStores}
use iocp_server.Iocp.Routes.{views}
use iocp_server.Iocp.System.{Turn, run, follow, calls, AreTurns, AllFit}
use iocp_server.Iocp.Turns.{Turned}
use iocp_server.Iocp.Interleaving.{set, run-Turned}
use iocp_server.Iocp.Conserved.{taken, accepted, queue_conserved}
use iocp_server.Pipeline.Reports.{reported_of}
use iocp_server.Pipeline.Accounts.{bytes_for}
use iocp_server.Pipeline.Steady.{IsSteady}
use iocp_server.Pipeline.Serving.{Fits, echo_contract, handler, handler-Serves}
use iocp_server.Pipeline.Calls.{Account, Calls-Account, send_count-Calls, bytes_for-append}

-- Windows, the loop and the four workers with the server's handlers take whole rounds in any order,
-- from queues that own their blocks and hold what fits, and a table whose clients have no packet
-- waiting and whose identifiers were issued, below 2 ^ 31. Every completion's bytes are in a
-- client's array, what is read is between 1 and 980 bytes, and no send completes. Then every round
-- returns: no memory is read after it was freed, or freed twice, and no block has two owners. The
-- four queues hold what the routing and the workers make of four bounded lists, the handlers are
-- called with the items that the workers take out, in that order, and the table is left as such.
pub echo_run-Turned :
    (o : Outside) (cbs : Callbacks Server) (ts : List Turn) (owner : Owner) (w : World)
    (qs : Queues) (s : Server)
    → AreStores owner w qs
    → AllFit Fits (views w qs)
    → IsSteady s
    → AreTurns Fits w.received ts
    → Turned echo_contract
        (follow ts w.received (views w qs))
        (calls ts w.received (views w qs))
        qs
        s
        w
        (run (set (handler o) cbs) ts qs s)
echo_run-Turned o cbs ts owner w qs s st fit rest h =
    run-Turned (handler o) cbs echo_contract (handler-Serves o) ts owner w qs s st fit rest h

-- What a run of the server does for the clients of its table.
pub record Echoed (o : Outside) (cbs : Callbacks Server) (ts : List Turn) (w : World) (qs : Queues)
    (s : Server) : Type 0 where
  pub turned :
      Turned echo_contract
        (follow ts w.received (views w qs))
        (calls ts w.received (views w qs))
        qs
        s
        w
        (run (set (handler o) cbs) ts qs s)
  pub never_sends : send_count turned.news ≡ 0
  pub account :
      (j : ℕ) (c : Client)
      → lookup j s.clients ≡ some c
      → Account j c (calls ts w.received (views w qs)) turned.news turned.state
  pub nothing_lost :
      (j : ℕ) (c : Client) (found : lookup j s.clients ≡ some c)
      → reported_of j turned.news
          ++ (account j c found).client.receive_buffer
          ++ bytes_for j (views turned.world turned.queues receives)
        ≡ c.receive_buffer
          ++ bytes_for j (views w qs receives)
          ++ bytes_for j (accepted receives ts w.received (views w qs))

-- Under the conditions of a safe run (queues that own their blocks and hold what fits, a table at rest
-- whose identifiers were issued, below 2 ^ 31, reads of 1 to 980 bytes that are in a client's
-- array, no completed send), in any order of rounds: for each client of the table, the bytes that
-- are reported, that it keeps, and that still wait for it in the receive queue are those that it
-- kept before, those that waited, and those of each of its reads that met room in the queue, in
-- order. A client is connected once it was accepted, and a connected client asks for one read for
-- each accept and each read that is handled for it. No send is ever asked for.
pub echo_run-Echoed :
    (o : Outside) (cbs : Callbacks Server) (ts : List Turn) (owner : Owner) (w : World)
    (qs : Queues) (s : Server)
    → AreStores owner w qs
    → AllFit Fits (views w qs)
    → IsSteady s
    → AreTurns Fits w.received ts
    → Echoed o cbs ts w qs s
echo_run-Echoed o cbs ts owner w qs s st fit steady h =
    let before = views w qs in
    let t = echo_run-Turned o cbs ts owner w qs s st fit steady h in
    let account : (j : ℕ) (c : Client)
        → lookup j s.clients ≡ some c
        → Account j c (calls ts w.received before) t.news t.state =
      λ j c found.
        Calls-Account j (calls ts w.received before) s t.state t.news c t.called_in_order found in
    record {
      turned = t;
      never_sends =
          send_count-Calls (calls ts w.received before) s t.state t.news t.called_in_order;
      account = account;
      nothing_lost = λ j c found.
          let a = account j c found in
          let handed = taken receives (calls ts w.received before) in
          ap (λ l. reported_of j t.news ++ a.client.receive_buffer ++ bytes_for j l)
            (t.seen receives)
          ∙ ap (λ l. l ++ bytes_for j ((follow ts w.received before).1 receives)) a.all_bytes
          ∙ append_assoc c.receive_buffer (bytes_for j handed) _
          ∙ ap (λ l. c.receive_buffer ++ l)
              (sym (bytes_for-append j handed ((follow ts w.received before).1 receives))
                ∙ ap (bytes_for j) (queue_conserved receives ts w.received before)
                ∙ bytes_for-append j (before receives) (accepted receives ts w.received before))
          ∙ sym (append_assoc c.receive_buffer (bytes_for j (before receives)) _);
    }
