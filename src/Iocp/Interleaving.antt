-- ===== src/Iocp/Interleaving.antt =====
-- The loop and the workers of IOCompletionPort.h in any order of their rounds.
use iocp_server.Base.{
  ◌++◌, append-nil, append_assoc, ℕ, ◌≡◌, refl, sym, ap, subst, ◌∙◌, List, [], ◌∷◌, none, some,
}
use iocp_server.Memory.{World, M, ◌>>=◌, update}
use iocp_server.Packet.{Packet}
use iocp_server.Client.Frames.{All}
use iocp_server.Iocp.{Queues}
use iocp_server.Iocp.Workers.{
  Callbacks, setting, accept_worker, send_worker, receive_worker, disconnect_worker,
}
use iocp_server.Iocp.Slots.{Owner}
use iocp_server.Iocp.Delivery.{
  Which, accepts, sends, receives, disconnects, AreStores, AreStores-same,
}
use iocp_server.Iocp.Routes.{views, route, deliver}
use iocp_server.Iocp.Rounds.{process_round-Routed}
use iocp_server.Iocp.Process.{Leaves, IsReady-kept}
use iocp_server.Iocp.Opened.{nobody}
use iocp_server.Iocp.System.{
  oldest, calls_of, calls, Turn, fills, completes, works, work_round, turn, run, Arrays, just,
  arrays_after, lists_after, follow, IsTurn, AreTurns, AllFit, without_oldest,
}
use iocp_server.Iocp.Contract.{Contract, Serves, Calls, Calls-append}
use iocp_server.Iocp.Turns.{Turned, deliver-AllFit, one_worker, one_worker-Turned}

-- The handlers that `Setting` stores, by their queues.
abbrev pub set : {S : Type 0} → (Which → Packet → S → M S) → Callbacks S → Callbacks S
set f = setting (f accepts) (f receives) (f sends) (f disconnects)

work_round-one_worker :
    {S : Type 0} (f : Which → Packet → S → M S) (cbs : Callbacks S) (k : Which) (qs : Queues)
    (s : S)
    → work_round (set f cbs) k qs s ≡ one_worker k (f k) qs s
unfolding work_round accept_worker send_worker receive_worker disconnect_worker setting one_worker
work_round-one_worker f cbs accepts qs s = refl
work_round-one_worker f cbs sends qs s = refl
work_round-one_worker f cbs receives qs s = refl
work_round-one_worker f cbs disconnects qs s = refl

-- A client's array is behind the same pointer in every world with these arrays.
nobody-Leaves :
    (owner : Owner) (arrays : Arrays) (w : World)
    → w.received ≡ arrays
    → Leaves nobody owner (just arrays) w
nobody-Leaves owner arrays w e = record {
  blocks = λ a bytes free holds. absurd (none_ne_some holds);
  received = e;
}
  where
    none_ne_some : {bytes : List ℕ} → none ≡ some bytes → ⊥
    none_ne_some e = cc

module _ {S : Type 0} (f : Which → Packet → S → M S) (cbs : Callbacks S) (C : Contract S)
    (serves : (k : Which) → Serves C k (f k)) where
  turn-Turned :
      (t : Turn) (owner : Owner) (w : World) (qs : Queues) (s : S)
      → AreStores owner w qs
      → AllFit C.Fits (views w qs)
      → C.Inv s
      → IsTurn C.Fits w.received t
      → Turned C
          (arrays_after t w.received, lists_after t w.received (views w qs))
          (calls_of t (views w qs))
          qs
          s
          w
          (turn (set f cbs) t qs s)
  unfolding turn
  turn-Turned (fills id array) owner w qs s st fit inv h =
      let w' : World = record w { received = update w.received id (some array) } in
      let kept =
        AreStores-same w w' (λ b k mine. refl)
          (record { tidy = st.clean.tidy; unowned = st.clean.unowned }) st in
      record {
        owner' = owner;
        world = w';
        queues = qs;
        state = s;
        runs = refl;
        stores = kept.0;
        arrays = refl;
        seen = kept.1;
        fit = λ j. subst (All (C.Fits j)) (sym (kept.1 j)) (fit j);
        inv = inv;
        news = [];
        logged = sym (append-nil w.events);
        called_in_order = (refl, refl);
      }
  turn-Turned (completes c) owner w qs s st fit inv (ready, fits) =
      let (ready', same_route) =
        IsReady-kept (just w.received) w c.result c.bytes_transferred c.custom_overlapped
          (nobody-Leaves owner w.received w refl) ready in
      let r = process_round-Routed c owner w qs st ready' in
      let seen : (j : Which)
          → views r.world r.queues j ≡ lists_after (completes c) w.received (views w qs) j =
        λ j. r.seen j ∙ ap (λ x. deliver x (views w qs) j) same_route in
      let all =
        deliver-AllFit C.Fits
          (route (just w.received) c.result c.bytes_transferred c.custom_overlapped) (views w qs)
          fits fit in
      record {
        owner' = r.owner';
        world = r.world;
        queues = r.queues;
        state = s;
        runs = rw (r.runs, ◌>>=◌) refl;
        stores = r.stores;
        arrays = r.received;
        seen = seen;
        fit = λ j. subst (All (C.Fits j)) (sym (seen j)) (all j);
        inv = inv;
        news = [];
        logged = r.events ∙ sym (append-nil w.events);
        called_in_order = (refl, refl);
      }
  turn-Turned (works k) owner w qs s st fit inv h =
      subst (Turned C (w.received, without_oldest k (views w qs)) (oldest k (views w qs k)) qs s w)
        (sym (work_round-one_worker f cbs k qs s))
        (one_worker-Turned C owner w qs s st fit inv k (f k) (serves k))

  -- Windows, the loop and the four workers take turns in any order. The bytes of a completion are in
  -- a client's array, what is routed to a queue fits it, and each handler returns for what fits its
  -- queue, keeps the invariant, and leaves the heap's blocks alone. Then every turn returns: no
  -- block is read after it was freed, or freed twice. The four queues hold what the routing and
  -- the workers make of four bounded lists. The handlers are called with the items that the
  -- workers take out, in that order, and the state has the invariant.
  pub run-Turned :
      (ts : List Turn) (owner : Owner) (w : World) (qs : Queues) (s : S)
      → AreStores owner w qs
      → AllFit C.Fits (views w qs)
      → C.Inv s
      → AreTurns C.Fits w.received ts
      → Turned C
          (follow ts w.received (views w qs))
          (calls ts w.received (views w qs))
          qs
          s
          w
          (run (set f cbs) ts qs s)
  unfolding run
  run-Turned [] owner w qs s st fit inv h = record {
    owner' = owner;
    world = w;
    queues = qs;
    state = s;
    runs = refl;
    stores = st;
    arrays = refl;
    seen = λ j. refl;
    fit = fit;
    inv = inv;
    news = [];
    logged = sym (append-nil w.events);
    called_in_order = (refl, refl);
  }
  run-Turned (t ∷ ts) owner w qs s st fit inv h =
      let one = turn-Turned t owner w qs s st fit inv h.0 in
      let rest =
        run-Turned ts one.owner' one.world one.queues one.state one.stores one.fit one.inv
          (subst (λ a. AreTurns C.Fits a ts) (sym one.arrays) h.1) in
      let after : follow ts one.world.received (views one.world one.queues)
          ≡ follow ts (arrays_after t w.received) (lists_after t w.received (views w qs)) =
        λ i. follow ts (one.arrays i) (λ j. one.seen j i) in
      let later : calls ts one.world.received (views one.world one.queues)
          ≡ calls ts (arrays_after t w.received) (lists_after t w.received (views w qs)) =
        λ i. calls ts (one.arrays i) (λ j. one.seen j i) in
      record {
        owner' = rest.owner';
        world = rest.world;
        queues = rest.queues;
        state = rest.state;
        runs = rw (one.runs, ◌>>=◌) rest.runs;
        stores = rest.stores;
        arrays = rest.arrays ∙ ap (λ x. x.0) after;
        seen = λ j. rest.seen j ∙ ap (λ x. x.1 j) after;
        fit = rest.fit;
        inv = rest.inv;
        news = one.news ++ rest.news;
        logged =
            rest.logged
            ∙ ap (λ l. l ++ rest.news) one.logged
            ∙ append_assoc w.events one.news rest.news;
        called_in_order =
            Calls-append C (calls_of t (views w qs)) _ s one.state rest.state one.news rest.news
              one.called_in_order
              (subst (λ cs. Calls C cs one.state rest.news rest.state) later rest.called_in_order);
      }
