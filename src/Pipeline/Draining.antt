-- ===== src/Pipeline/Draining.antt =====
-- The worker of the receive queue with `EchoServer::Receive`, until the queue is empty.
use iocp_server.Base.{
  ℕ, ◌<◌, ◌≤◌, ◌≡◌, refl, sym, ap, ◌∙◌, Bool, true, false, List, [], ◌∷◌, ◌++◌, some, length,
  append-nil, append_assoc, ◌==◌, if◌then◌else◌, some-injective,
}
use iocp_server.Memory.{World, Event, ◌>>=◌}
use iocp_server.Packet.{Packet}
use iocp_server.Queue.{CircleQueue}
use iocp_server.Client.{Client}
use iocp_server.Client.Frames.{All, concat}
use iocp_server.Client.Receive.{IsIdle, frames}
use iocp_server.Server.{Server, Outside, receive}
use iocp_server.Server.Table.{Clients, lookup, assign}
use iocp_server.Iocp.{worker, worker_round}
use iocp_server.Iocp.Slots.{Owner, Loose, shows, Clean}
use iocp_server.Iocp.Storing.{IsStore, view}
use iocp_server.Iocp.Working.{worker_round-Worked}
use iocp_server.Iocp.Copies.{Same, Same-trans}
use iocp_server.Pipeline.Receiving.{Received, receive-Received, Received-Handles}
use iocp_server.Pipeline.Reports.{reported_of, reported_of-append}
use iocp_server.Pipeline.Accounts.{
  buffer_of, bytes_for, AllIdle, IsFor, All-IsFor-assign, AllIdle-assign, one_step,
}

-- A round of the worker, for a packet of a known client.
record Handled (o : Outside) (base : ℕ) (owner : Owner) (w : World) (q : CircleQueue Packet)
    (s : Server) (x : ℕ × List ℕ) (rest : List (ℕ × List ℕ)) (c : Client) : Type 0 where
  queue : CircleQueue Packet
  client : Client
  world : World
  news : List Event
  runs :
      worker_round (some (receive o)) q s w
      ≡ some ((queue, record s { clients = assign x.0 client s.clients }), world)
  store : IsStore base owner world queue
  seen : view world queue ≡ rest
  same : Same owner w world
  clean : Clean owner world
  events : world.events ≡ w.events ++ news
  idle : IsIdle client
  same_id : client.id ≡ c.id
  reports :
      (k : ℕ)
      → reported_of k news ≡ (if c.id == k then concat (frames (c.receive_buffer ++ x.1)) else [])
  all_bytes :
      concat (frames (c.receive_buffer ++ x.1)) ++ client.receive_buffer ≡ c.receive_buffer ++ x.1

one_packet :
    (o : Outside) (base : ℕ) (owner : Owner) (w : World) (q : CircleQueue Packet) (s : Server)
    (x : ℕ × List ℕ) (rest : List (ℕ × List ℕ)) (c : Client)
    → Clean owner w
    → IsStore base owner w q
    → view w q ≡ x ∷ rest
    → lookup x.0 s.clients ≡ some c
    → IsIdle c
    → 0 < length x.1
    → length x.1 ≤ 980
    → Handled o base owner w q s x rest c
one_packet o base owner w q s x rest c clean st e found idle pos fits =
    let get : (p : Packet) (v : World) → shows v p ≡ x → Loose owner v p → Received o p s c x.1 v =
      λ p v shown loose. receive-Received o owner p s c x.0 x.1 v loose shown pos fits found idle in
    let round =
      worker_round-Worked (receive o) base owner w q s x rest clean st e
        (λ p v shown loose same_received same_events. Received-Handles (get p v shown loose)) in
    let r = get round.packet round.before round.shown round.loose in
    let both = some-injective (sym round.handled.runs ∙ r.runs) in
    record {
      queue = round.queue;
      client = r.client;
      world = round.world;
      news = r.news;
      runs =
          round.runs
          ∙ ap (λ t. some ((round.queue, t), round.world))
              (ap (λ y. y.0) both
                ∙ ap (λ k. record s { clients = assign k r.client s.clients })
                    (ap (λ y. y.0) round.shown));
      store = round.store;
      seen = round.seen;
      same = round.same;
      clean = round.clean;
      events = round.events ∙ ap (λ y. y.1.events) both ∙ ap (λ l. l ++ r.news) round.earlier;
      idle = r.idle;
      same_id = r.same_id;
      reports = r.reports;
      all_bytes = r.all_bytes;
    }

-- The worker has handled all packets, and the queue is empty.
pub record Drained (o : Outside) (base : ℕ) (owner : Owner) (w : World) (q : CircleQueue Packet)
    (s : Server) (xs : List (ℕ × List ℕ)) : Type 0 where
  pub queue : CircleQueue Packet
  pub clients : Clients
  pub world : World
  pub news : List Event
  pub runs :
      worker (some (receive o)) (length xs) q s w
      ≡ some ((queue, record s { clients = clients }), world)
  pub clean : Clean owner world
  pub store : IsStore base owner world queue
  pub nothing_left : view world queue ≡ []
  pub same : Same owner w world
  pub events : world.events ≡ w.events ++ news
  pub all_bytes :
      (k : ℕ) → reported_of k news ++ buffer_of k clients ≡ buffer_of k s.clients ++ bytes_for k xs
  pub idle : AllIdle clients

-- Every byte that waits in the receive queue is reported to its own client, in order, or kept in
-- that client's receive buffer.
pub drain :
    (o : Outside) (base : ℕ) (owner : Owner) (w : World) (q : CircleQueue Packet) (s : Server)
    (xs : List (ℕ × List ℕ))
    → Clean owner w
    → IsStore base owner w q
    → view w q ≡ xs
    → All (IsFor s.clients) xs
    → AllIdle s.clients
    → Drained o base owner w q s xs
unfolding worker
drain o base owner w q s [] clean st e h idle = record {
  queue = q;
  clients = s.clients;
  world = w;
  news = [];
  runs = refl;
  clean = clean;
  store = st;
  nothing_left = e;
  same = λ k p sound. (sound, refl);
  events = sym (append-nil w.events);
  all_bytes = λ k. sym (append-nil (buffer_of k s.clients));
  idle = idle;
}
drain o base owner w q s (x ∷ xs) clean st e h idle =
    let (c, found, pos, fits) = h.0 in
    let ok = idle x.0 c found in
    let step = one_packet o base owner w q s x xs c clean st e found ok.0 pos fits in
    let d = step.client in
    let after : Server = record s { clients = assign x.0 d s.clients } in
    let rest =
      drain o base owner step.world step.queue after xs step.clean step.store step.seen
        (All-IsFor-assign x.0 d s.clients xs h.1)
        (AllIdle-assign x.0 d s.clients idle step.idle (step.same_id ∙ ok.1)) in
    record {
      queue = rest.queue;
      clients = rest.clients;
      world = rest.world;
      news = step.news ++ rest.news;
      runs = rw (step.runs, ◌>>=◌) rest.runs;
      clean = rest.clean;
      store = rest.store;
      nothing_left = rest.nothing_left;
      same = Same-trans w step.world rest.world step.same rest.same;
      events =
          rest.events
          ∙ ap (λ l. l ++ rest.news) step.events
          ∙ append_assoc w.events step.news rest.news;
      all_bytes = λ k.
          let one =
            one_step k x.0 c d s.clients x.1 step.news found ok.1 step.reports step.all_bytes in
          ap (λ l. l ++ buffer_of k rest.clients) (reported_of-append k step.news rest.news)
          ∙ append_assoc (reported_of k step.news) (reported_of k rest.news)
              (buffer_of k rest.clients)
          ∙ ap (λ l. reported_of k step.news ++ l) (rest.all_bytes k)
          ∙ sym (append_assoc (reported_of k step.news) _ (bytes_for k xs))
          ∙ ap (λ l. l ++ bytes_for k xs) one
          ∙ append_assoc (buffer_of k s.clients) _ (bytes_for k xs)
          ∙ ap (λ l. buffer_of k s.clients ++ l) (join (x.0 == k) x.1 (bytes_for k xs));
      idle = rest.idle;
    }
  where
    join : (b : Bool) (l m : List ℕ) → (if b then l else []) ++ m ≡ (if b then l ++ m else m)
    join true l m = refl
    join false l m = refl
