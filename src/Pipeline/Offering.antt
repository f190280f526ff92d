-- ===== src/Pipeline/Offering.antt =====
-- `TryAccept`, for one client or for all: its events, and what it leaves of a client.
use iocp_server.Base.{ℕ, ◌+◌, ◌≡◌, refl, ap₂, ◌∙◌, arith, inl, inr, [], ◌∷◌, ◌++◌, Bool-cases}
use iocp_server.Client.{Client}
use iocp_server.Server.Table.{Clients}
use iocp_server.Server.{Outside}
use iocp_server.Server.Accepting.{asks, tried, accept_events, all_events}
use iocp_server.Client.Counting.{recv_count, recv_count-append, send_count, send_count-append}
use iocp_server.Pipeline.Reports.{reported_of, reported_of-append, reads_of, reads_of-append}

pub accept_events-quiet :
    (j error : ℕ) (c : Client)
    → (reported_of j (accept_events error c) ≡ []) × (reads_of j (accept_events error c) ≡ 0)
accept_events-quiet j error c = elim (Bool-cases (asks error c)) [
  | inl posted ↦ rw posted (refl, refl)
  | inr quiet ↦ rw quiet (refl, refl)
]

pub recv_count-accept_events : (error : ℕ) (c : Client) → recv_count (accept_events error c) ≡ 0
recv_count-accept_events error c = elim (Bool-cases (asks error c)) [
  | inl posted ↦ rw posted refl
  | inr quiet ↦ rw quiet refl
]

pub send_count-accept_events : (error : ℕ) (c : Client) → send_count (accept_events error c) ≡ 0
send_count-accept_events error c = elim (Bool-cases (asks error c)) [
  | inl posted ↦ rw posted refl
  | inr quiet ↦ rw quiet refl
]

pub send_count-all_events : (o : Outside) (cs : Clients) → send_count (all_events o cs) ≡ 0
send_count-all_events o [] = refl
send_count-all_events o ((id, c) ∷ cs) = omega (
  arith,
  send_count-append (accept_events (o.socket_error id) c) (all_events o cs),
  send_count-accept_events (o.socket_error id) c,
  send_count-all_events o cs,
)

pub recv_count-all_events : (o : Outside) (cs : Clients) → recv_count (all_events o cs) ≡ 0
recv_count-all_events o [] = refl
recv_count-all_events o ((id, c) ∷ cs) = omega (
  arith,
  recv_count-append (accept_events (o.socket_error id) c) (all_events o cs),
  recv_count-accept_events (o.socket_error id) c,
  recv_count-all_events o cs,
)

pub tried_same :
    (error : ℕ) (c : Client)
    → ((tried error c).receive_buffer ≡ c.receive_buffer)
      × ((tried error c).is_connect ≡ c.is_connect)
tried_same error c = elim (Bool-cases (asks error c)) [
  | inl posted ↦ rw posted (refl, refl)
  | inr quiet ↦ rw quiet (refl, refl)
]

pub all_events-quiet :
    (o : Outside) (j : ℕ) (cs : Clients)
    → (reported_of j (all_events o cs) ≡ []) × (reads_of j (all_events o cs) ≡ 0)
all_events-quiet o j [] = (refl, refl)
all_events-quiet o j ((id, c) ∷ cs) =
    let es = accept_events (o.socket_error id) c in
    let one = accept_events-quiet j (o.socket_error id) c in
    let rest = all_events-quiet o j cs in
    (
      reported_of-append j es (all_events o cs) ∙ ap₂ ◌++◌ one.0 rest.0,
      reads_of-append j es (all_events o cs) ∙ ap₂ ◌+◌ one.1 rest.1,
    )
