-- ===== src/Pipeline/Reporting.antt =====
-- The completion loop of IOCompletionPort.h and then the worker of the receive queue with
-- `EchoServer::Receive`: from completed reads to the lines that the server writes.
use iocp_server.Base.{◌+◌, ℕ, ◌≡◌, refl, ap, ◌∙◌, List, [], ◌++◌, some, length}
use iocp_server.Memory.{World, Event, M, pure, ◌>>=◌}
use iocp_server.Client.Frames.{All}
use iocp_server.Server.{Server, Outside, receive}
use iocp_server.Server.Table.{Clients}
use iocp_server.Iocp.{Queues, Completion, process, worker}
use iocp_server.Iocp.Slots.{Owner}
use iocp_server.Iocp.Storing.{IsStore, kept-IsStore}
use iocp_server.Iocp.Delivery.{
  Which, accepts, sends, receives, disconnects, queue_of, base_of, AreStores,
}
use iocp_server.Iocp.Routes.{Lists, Item, views, goes_all, AllReady}
use iocp_server.Iocp.Process.{process-Routed}
use iocp_server.Pipeline.Reports.{reported_of}
use iocp_server.Pipeline.Draining.{drain}
use iocp_server.Pipeline.Accounts.{buffer_of, bytes_for, AllIdle, IsFor}

-- The loop over the completions `cs`, and `n` rounds of the receive queue's worker.
unfoldable pub receive_run : Outside → List Completion → ℕ → Queues → Server → M (Queues × Server)
receive_run o cs n qs s = do
  qs' ← process cs qs
  (q, s') ← worker (some (receive o)) n qs'.receive_queue s
  pure (record qs' { receive_queue = q }, s')

-- What is in the receive queue behind the loop: what waited, and the reads that met room.
abbrev pub queued : World → List Completion → Queues → List Item
queued w cs qs = goes_all w cs (views w qs) receives

abbrev pub without_received : Lists → Lists
without_received ls accepts = ls accepts
without_received ls sends = ls sends
without_received ls receives = []
without_received ls disconnects = ls disconnects

-- What the loop and the worker do.
pub record Reported (o : Outside) (cs : List Completion) (w : World) (qs : Queues) (s : Server)
    : Type 0 where
  pub owner' : Owner
  pub world : World
  pub queues : Queues
  pub clients : Clients
  pub news : List Event
  pub runs :
      receive_run o cs (length (queued w cs qs)) qs s w
      ≡ some ((queues, record s { clients = clients }), world)
  pub stores : AreStores owner' world queues
  pub seen : (j : Which) → views world queues j ≡ without_received (goes_all w cs (views w qs)) j
  pub events : world.events ≡ w.events ++ news
  pub all_bytes :
      (k : ℕ)
      → reported_of k news ++ buffer_of k clients
        ≡ buffer_of k s.clients ++ bytes_for k (queued w cs qs)
  pub idle : AllIdle clients

-- The loop and then the worker return for every sequence of completions whose buffers hold what was
-- transferred, if every message of the receive queue is for a client of the table, all of whom are
-- idle, and has between 1 and 980 bytes. Of each client, the bytes that are then reported and the
-- ones that it keeps are the ones that it kept before and the ones that waited in the receive queue
-- for it behind the loop, in
-- order; a read that meets a full queue is not among them. The receive queue is empty, and the other three hold what the loop left there.
pub receive_run-Reported :
    (o : Outside) (cs : List Completion) (owner : Owner) (w : World) (qs : Queues) (s : Server)
    → AreStores owner w qs
    → AllReady owner w cs
    → All (IsFor s.clients) (queued w cs qs)
    → AllIdle s.clients
    → Reported o cs w qs s
unfolding receive_run
receive_run-Reported o cs owner w qs s st ready known idle =
    let r = process-Routed cs owner w qs st ready in
    let d =
      drain o (base_of receives) r.owner' r.world r.queues.receive_queue s (queued w cs qs)
        r.stores.clean (r.stores.stores receives) (r.seen receives) known idle in
    let after : Queues = record r.queues { receive_queue = d.queue } in
    let kept : (j : Which)
        → IsStore (base_of j) r.owner' d.world (queue_of j r.queues)
          × (views d.world r.queues j ≡ views r.world r.queues j) =
      λ j. kept-IsStore (λ i p l sound. d.same (base_of j + i) p sound) (r.stores.stores j) in
    record {
      owner' = r.owner';
      world = d.world;
      queues = after;
      clients = d.clients;
      news = d.news;
      runs = rw (r.runs, ◌>>=◌) (rw (d.runs, ◌>>=◌) refl);
      stores = record {
        clean = d.clean;
        stores = λ j. elim j as (λ j. IsStore (base_of j) r.owner' d.world (queue_of j after)) [
          | receives ↦ d.store
          | accepts ↦ (kept accepts).0
          | sends ↦ (kept sends).0
          | disconnects ↦ (kept disconnects).0
        ];
      };
      seen = λ j.
          elim j as (λ j. views d.world after j ≡ without_received (goes_all w cs (views w qs)) j) [
            | receives ↦ d.nothing_left
            | accepts ↦ (kept accepts).1 ∙ r.seen accepts
            | sends ↦ (kept sends).1 ∙ r.seen sends
            | disconnects ↦ (kept disconnects).1 ∙ r.seen disconnects
          ];
      events = d.events ∙ ap (λ l. l ++ d.news) r.events;
      all_bytes = d.all_bytes;
      idle = d.idle;
    }
