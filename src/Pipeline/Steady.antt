-- ===== src/Pipeline/Steady.antt =====
-- Between two calls of the handlers of IocpServer_1/EchoServer.h: no client has a packet waiting, and the
-- identifiers of the table have been issued.
use iocp_server.Base.{ℕ, zero, suc, ◌+◌, ◌^◌, ◌<◌, ◌≤◌, ◌≡◌, refl, ◌∙◌, arith, [], ◌∷◌, add_int}
use iocp_server.Client.{Client, create}
use iocp_server.Client.Frames.{All}
use iocp_server.Server.{Server, Outside, add_clients, rounds_of, client_increase}
use iocp_server.Server.Table.{Clients, lookup, assign, lookup-assign_ne, assign-All}
use iocp_server.Server.Accepting.{tried_all}
use iocp_server.Pipeline.AtRest.{EachAtRest}

abbrev pub IsBelow : ℕ → ℕ × Client → Type 0
IsBelow n x = x.0 < n

abbrev pub AllBelow : ℕ → Clients → Type 0
AllBelow n cs = All (IsBelow n) cs

pub record IsSteady (s : Server) : Type 0 where
  pub at_rest : EachAtRest s
  pub issued : AllBelow s.accumulated_client_id s.clients
  pub in_range : s.accumulated_client_id < 2 ^ 31

widen : (n m : ℕ) (cs : Clients) → n ≤ m → AllBelow n cs → AllBelow m cs
widen n m [] l h = tt
widen n m ((i, d) ∷ cs) l h = (omega (arith, h.0), widen n m cs l h.1)

-- `PrepareSocket` for one more client stops short of the largest `int`.
pub rounds_of-in_range : (id : ℕ) → id < 2 ^ 31 → id + rounds_of id client_increase < 2 ^ 31
rounds_of-in_range id h = ground arith

pub add_int_lem : (id n : ℕ) → id + n < 2 ^ 31 → add_int id n ≡ id + n
add_int_lem id n h = omega arith

module _ (o : Outside) where
  pub tried_all-AllBelow : (n : ℕ) (cs : Clients) → AllBelow n cs → AllBelow n (tried_all o cs)
  tried_all-AllBelow n [] h = tt
  tried_all-AllBelow n ((i, d) ∷ cs) h = (h.0, tried_all-AllBelow n cs h.1)

  -- New clients get identifiers that no client has.
  pub add_clients-AllBelow :
      (rounds id : ℕ) (cs : Clients)
      → id + rounds < 2 ^ 31
      → AllBelow id cs
      → AllBelow (id + rounds) (add_clients o rounds id cs)
        × ((j : ℕ) → j < id → lookup j (add_clients o rounds id cs) ≡ lookup j cs)
  unfolding add_clients
  add_clients-AllBelow zero id cs h below =
      (widen id (id + zero) cs (omega arith) below, λ j l. refl)
  add_clients-AllBelow (suc rounds) id cs h below =
      let c = create o.unset id in
      let next = add_int_lem id 1 (omega arith) in
      let rest = add_clients-AllBelow rounds (id + 1) (assign id c cs) (omega arith) (
        assign-All (IsBelow (id + 1)) id c cs (widen id (id + 1) cs (omega arith) below)
          (omega arith)) in
      rw next (
        widen (id + 1 + rounds) (id + suc rounds) _ (omega arith) rest.0,
        λ j l. rest.1 j (omega arith) ∙ lookup-assign_ne id j c cs (λ e. absurd (omega (arith, e))),
      )
