-- ===== src/Pipeline/AtRest.antt =====
-- Tables of EchoServer.h whose clients have no packet waiting, and what keeps them so.
use iocp_server.Base.{ℕ, zero, suc, ◌≡◌, refl, arith, inl, inr, [], ◌∷◌, none, Bool-cases}
use iocp_server.Overlapped.{CustomOverlapped}
use iocp_server.Queue
use iocp_server.Queue.Bounds.{init-IsValid}
use iocp_server.Client.{Client, create}
use iocp_server.Client.Frames.{All}
use iocp_server.Client.Receive.{IsIdle}
use iocp_server.Server.{Server, Outside, add_clients}
use iocp_server.Server.Table.{Clients, assign, assign-All}
use iocp_server.Server.Accepting.{asks, tried, tried_all}

-- A client under its own identifier, with no packet waiting.
abbrev pub IsAtRest : ℕ × Client → Type 0
IsAtRest (id, c) = IsIdle c × (c.id ≡ id)

abbrev pub EachAtRest : Server → Type 0
EachAtRest s = All IsAtRest s.clients

pub create-IsAtRest : (unset : CustomOverlapped) (id : ℕ) → IsAtRest (id, create unset id)
unfolding create Queue.init
create-IsAtRest unset id = (
  record { valid = unfold Queue.init in init-IsValid none; none_waits = refl; kept = omega arith },
  refl,
)

pub tried-IsAtRest : (error id : ℕ) (c : Client) → IsAtRest (id, c) → IsAtRest (id, tried error c)
tried-IsAtRest error id c (i, e) = elim (Bool-cases (asks error c)) [
  | inl posted ↦ rw posted (record { valid = i.valid; none_waits = i.none_waits; kept = i.kept }, e)
  | inr quiet ↦ rw quiet (i, e)
]

module _ (o : Outside) where
  pub add_clients-IsAtRest :
      (rounds id : ℕ) (cs : Clients) → All IsAtRest cs → All IsAtRest (add_clients o rounds id cs)
  unfolding add_clients
  add_clients-IsAtRest zero id cs h = h
  add_clients-IsAtRest (suc rounds) id cs h =
      add_clients-IsAtRest rounds _ (assign id (create o.unset id) cs)
        (assign-All IsAtRest id (create o.unset id) cs h (create-IsAtRest o.unset id))

  pub tried_all-IsAtRest : (cs : Clients) → All IsAtRest cs → All IsAtRest (tried_all o cs)
  tried_all-IsAtRest [] h = tt
  tried_all-IsAtRest ((id, c) ∷ cs) h =
      (tried-IsAtRest (o.socket_error id) id c h.0, tried_all-IsAtRest cs h.1)
