-- ===== src/Iocp/Contract.antt =====
-- What the completion port of IOCompletionPort.h asks of the handlers that `Setting` stores, and what
-- a sequence of their calls then does.
use iocp_server.Base.{◌≡◌, refl, ap, ◌∙◌, List, [], ◌∷◌, ◌++◌, append_assoc}
use iocp_server.Memory.{World, Event, M}
use iocp_server.Packet.{Packet}
use iocp_server.Iocp.Slots.{Owner, Loose, shows}
use iocp_server.Iocp.Delivery.{Which}
use iocp_server.Iocp.Routes.{Item}
use iocp_server.Iocp.Working.{Handles}

-- An invariant of the handlers' state, the items that they take, and what a call for an item does to
-- the state and to the events.
pub record Contract (S : Type 0) : Type 1 where
  pub Inv : S → Type 0
  pub Fits : Which → Item → Type 0
  pub Step : Which → Item → S → List Event → S → Type 0

module _ {S : Type 0} (C : Contract S) where
  -- A call that returns, keeps the invariant, and leaves the blocks of the heap alone.
  pub record Served (k : Which) (f : Packet → S → M S) (p : Packet) (s : S) (w : World)
      : Type 0 where
    pub handles : Handles f p s w
    pub inv : C.Inv handles.state
    pub news : List Event
    pub logged : handles.world.events ≡ w.events ++ news
    pub step : C.Step k (shows w p) s news handles.state

  abbrev pub Serves : Which → (Packet → S → M S) → Type 0
  Serves k f =
      (owner : Owner) (p : Packet) (s : S) (w : World)
      → C.Inv s
      → C.Fits k (shows w p)
      → Loose owner w p
      → Served k f p s w

  -- The calls for these items, one after the other.
  abbrev pub Calls : List (Which × Item) → S → List Event → S → Type 0
  Calls [] s news s' = (news ≡ []) × (s' ≡ s)
  Calls ((k, x) ∷ calls) s news s' =
      (first : List Event) × (middle : S) × (rest : List Event) × C.Step k x s first middle
      × Calls calls middle rest s'
      × (news ≡ first ++ rest)

  pub Calls-one :
      (k : Which) (x : Item) (s s' : S) (news : List Event)
      → C.Step k x s news s'
      → Calls ((k, x) ∷ []) s (news ++ []) s'
  Calls-one k x s s' news step = (news, s', [], step, (refl, refl), refl)

  pub Calls-append :
      (calls more : List (Which × Item)) (s s' s'' : S) (es fs : List Event)
      → Calls calls s es s'
      → Calls more s' fs s''
      → Calls (calls ++ more) s (es ++ fs) s''
  Calls-append [] more s s' s'' es fs (nothing, same) later = rw (nothing, ← same) later
  Calls-append ((k, x) ∷ calls) more s s' s'' es fs (first, middle, rest, step, then, e) later = (
    first,
    middle,
    rest ++ fs,
    step,
    Calls-append calls more middle s' s'' rest fs then later,
    ap (λ l. l ++ fs) e ∙ append_assoc first rest fs,
  )
