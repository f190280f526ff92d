-- ===== src/Iocp/Turns.antt =====
-- A turn of IOCompletionPort.h's loop or of one of its workers, against the four lists.
use iocp_server.Base.{
  ◌≡◌, refl, sym, ap, subst, ◌∙◌, inl, inr, Bool-cases, List, [], ◌∷◌, ◌++◌, Option, none, some,
  length, ◌==◌, some-injective, append-nil, ap₂,
}
use iocp_server.Memory.{World, Event, M, pure, ◌>>=◌}
use iocp_server.Packet.{Packet}
use iocp_server.Client.Frames.{All}
use iocp_server.Queue
use iocp_server.Queue.{CircleQueue}
use iocp_server.Queue.Fifo.{put, rest as tail}
use iocp_server.Iocp.{Queues, worker_round}
use iocp_server.Iocp.Slots.{Owner, Loose, shows, Clean}
use iocp_server.Iocp.Storing.{IsStore, view}
use iocp_server.Iocp.Copies.{Same}
use iocp_server.Iocp.Delivery.{
  Which, same, queue_of, with_queue, base_of, AreStores, AreStores-with, same→eq,
}
use iocp_server.Iocp.Routes.{Item, Lists, views, deliver}
use iocp_server.Iocp.Settling.{none_left}
use iocp_server.Iocp.Working.{worker_round-Worked}
use iocp_server.Iocp.System.{Arrays, without_oldest, oldest, AllFit, FitsRoute}
use iocp_server.Iocp.Contract.{Contract, Served, Serves, Calls, Calls-one}

-- What a turn or several turns do, given what becomes of the arrays and the lists, and which calls are
-- made.
pub record Turned {S : Type 0} (C : Contract S) (after : Arrays × Lists)
    (called : List (Which × Item)) (qs : Queues) (s : S) (w : World) (m : M (Queues × S))
    : Type 0 where
  pub owner' : Owner
  pub world : World
  pub queues : Queues
  pub state : S
  pub runs : m w ≡ some ((queues, state), world)
  pub stores : AreStores owner' world queues
  pub arrays : world.received ≡ after.0
  pub seen : (j : Which) → views world queues j ≡ after.1 j
  pub fit : AllFit C.Fits (views world queues)
  pub inv : C.Inv state
  pub news : List Event
  pub logged : world.events ≡ w.events ++ news
  pub called_in_order : Calls C called s news state

All-tail : {A : Type 0} (P : A → Type 0) (xs : List A) → All P xs → All P (tail xs)
All-tail P [] h = tt
All-tail P (x ∷ xs) h = h.1

All-snoc :
    {A : Type 0} (P : A → Type 0) (xs : List A) (x : A) → All P xs → P x → All P (xs ++ x ∷ [])
All-snoc P [] x h hx = (hx, tt)
All-snoc P (y ∷ xs) x h hx = (h.0, All-snoc P xs x h.1 hx)

All-put : {A : Type 0} (P : A → Type 0) (xs : List A) (x : A) → All P xs → P x → All P (put xs x).1
unfolding put
All-put P xs x h hx = elim (Bool-cases (length xs == 99)) [
  | inl full ↦ rw full h
  | inr free ↦ rw free (All-snoc P xs x h hx)
]

pub deliver-AllFit :
    (Fits : Which → Item → Type 0) (r : Option (Which × Item)) (ls : Lists)
    → FitsRoute Fits r
    → AllFit Fits ls
    → AllFit Fits (deliver r ls)
deliver-AllFit Fits none ls h a j = a j
deliver-AllFit Fits (some (k, x)) ls h a j = elim (Bool-cases (same k j)) [
  | inl here ↦ rw here (
      subst (λ i. All (Fits i) (put (ls i) x).1) (same→eq k j here)
        (All-put (Fits k) (ls k) x (a k) h))
  | inr there ↦ rw there (a j)
]

without_oldest-AllFit :
    (Fits : Which → Item → Type 0) (k : Which) (ls : Lists)
    → AllFit Fits ls
    → AllFit Fits (without_oldest k ls)
without_oldest-AllFit Fits k ls a j = elim (Bool-cases (same k j)) [
  | inl here ↦ rw here (All-tail (Fits j) (ls j) (a j))
  | inr there ↦ rw there (a j)
]

-- A worker with its handler, at the queue `k`.
unfoldable pub one_worker : {S : Type 0} → Which → (Packet → S → M S) → Queues → S → M (Queues × S)
one_worker k f qs s = do
  (q, s') ← worker_round (some f) (queue_of k qs) s
  pure (with_queue k q qs, s')

module _ {S : Type 0} (C : Contract S) (owner : Owner) (w : World) (qs : Queues) (s : S)
    (st : AreStores owner w qs) (fit : AllFit C.Fits (views w qs)) (inv : C.Inv s) where
  -- The queue `k` is now `q`, which shows all but the oldest item.
  stepped :
      (k : Which) (q : CircleQueue Packet) (s' : S) (w' : World) (m : M (Queues × S))
      (called : List (Which × Item)) (news : List Event)
      → m w ≡ some ((with_queue k q qs, s'), w')
      → Same owner w w'
      → Clean owner w'
      → IsStore (base_of k) owner w' q
      → view w' q ≡ tail (views w qs k)
      → w'.received ≡ w.received
      → C.Inv s'
      → w'.events ≡ w.events ++ news
      → Calls C called s news s'
      → Turned C (w.received, without_oldest k (views w qs)) called qs s w m
  stepped k q s' w' m called news runs kept c store left received inv' logged made =
      let all = AreStores-with k q owner w w' qs st kept c store in
      let seen : (j : Which) → views w' (with_queue k q qs) j ≡ without_oldest k (views w qs) j =
        λ j. all.1 j ∙ elim (Bool-cases (same k j)) [
          | inl here ↦ rw here (left ∙ ap (λ i. tail (views w qs i)) (same→eq k j here))
          | inr there ↦ rw there refl
        ] in
      record {
        owner' = owner;
        world = w';
        queues = with_queue k q qs;
        state = s';
        runs = runs;
        stores = all.0;
        arrays = received;
        seen = seen;
        fit = λ j.
            subst (All (C.Fits j)) (sym (seen j))
              (without_oldest-AllFit C.Fits k (views w qs) fit j);
        inv = inv';
        news = news;
        logged = logged;
        called_in_order = made;
      }

  pub one_worker-Turned :
      (k : Which) (f : Packet → S → M S)
      → Serves C k f
      → Turned C
          (w.received, without_oldest k (views w qs))
          (oldest k (views w qs k))
          qs
          s
          w
          (one_worker k f qs s)
  unfolding one_worker worker_round Queue.empty
  one_worker-Turned k f serves = by_view (views w qs k) refl
    where
      by_view :
          (xs : List Item)
          → views w qs k ≡ xs
          → Turned C
              (w.received, without_oldest k (views w qs))
              (oldest k xs)
              qs
              s
              w
              (one_worker k f qs s)
      by_view [] e =
          stepped k (queue_of k qs) s w (one_worker k f qs s) [] []
            (rw (none_left (base_of k) owner w (queue_of k qs) (st.stores k) e) refl)
            (λ i p sound. (sound, refl)) st.clean (st.stores k) (e ∙ sym (ap tail e)) refl inv
            (sym (append-nil w.events)) (refl, refl)
      by_view (x ∷ rest) e =
          let fx : C.Fits k x = (subst (All (C.Fits k)) e (fit k)).0 in
          let serve : (p : Packet) (v : World)
              → shows v p ≡ x
              → Loose owner v p
              → Served C k f p s v =
            λ p v shown loose. serves owner p s v inv (subst (C.Fits k) (sym shown) fx) loose in
          let round =
            worker_round-Worked f (base_of k) owner w (queue_of k qs) s x rest st.clean
              (st.stores k) e (λ p v shown loose same_r same_e. (serve p v shown loose).handles) in
          let h = serve round.packet round.before round.shown round.loose in
          let both = some-injective (sym h.handles.runs ∙ round.handled.runs) in
          let step : C.Step k x s h.news round.handled.state =
            subst (λ y. C.Step k y s h.news round.handled.state) round.shown
              (subst (C.Step k (shows round.before round.packet) s h.news) (ap (λ y. y.0) both)
                h.step) in
          stepped k round.queue round.handled.state round.world (one_worker k f qs s) ((k, x) ∷ [])
            (h.news ++ []) (rw (round.runs, ◌>>=◌) refl) round.same round.clean round.store
            (round.seen ∙ sym (ap tail e)) round.received (subst C.Inv (ap (λ y. y.0) both) h.inv)
            (round.events
              ∙ sym (ap (λ y. y.1.events) both)
              ∙ h.logged
              ∙ ap₂ ◌++◌ round.earlier (sym (append-nil h.news)))
            (Calls-one C k x s round.handled.state h.news step)
