-- ===== src/Server/Counting.antt =====
-- `currentClientCount` of IocpServer_1/EchoServer.h under its two writers: `Accept`, which the accept
-- worker runs, and `Disconnect`, which the disconnect worker runs. Each loads the counter and then
-- stores what it loaded plus or minus one, and the other may go between the two accesses.
use iocp_server.Base.{
  ℕ, zero, suc, ◌+◌, ◌^◌, ◌/◌, ◌<◌, ◌≤◌, ◌≡◌, arith, Bool, true, false, List, [], ◌∷◌, Option, none,
  some, add_int, sub_int,
}

-- `accept_loaded` and `disconnect_loaded` are what a worker holds between its load and its store.
pub record Counting : Type 0 where
  pub current_client_count : ℕ
  pub accept_loaded : Option ℕ
  pub disconnect_loaded : Option ℕ

-- The next access of the accept worker.
unfoldable pub count_accept : Option ℕ → Counting → Counting
count_accept none s = record s { accept_loaded = some s.current_client_count }
count_accept (some count) s = record s {
  current_client_count = add_int count 1;
  accept_loaded = none;
}

-- The next access of the disconnect worker.
unfoldable pub count_disconnect : Option ℕ → Counting → Counting
count_disconnect none s = record s { disconnect_loaded = some s.current_client_count }
count_disconnect (some count) s = record s {
  current_client_count = sub_int count 1;
  disconnect_loaded = none;
}

-- A turn is the accept worker's where it is `true`.
unfoldable pub count_turn : Bool → Counting → Counting
count_turn true s = count_accept s.accept_loaded s
count_turn false s = count_disconnect s.disconnect_loaded s

unfoldable pub count_run : List Bool → Counting → Counting
count_run [] s = s
count_run (t ∷ ts) s = count_run ts (count_turn t s)

sum_lem : (v : ℕ) → v + 1 < 2 ^ 32 → add_int v 1 ≡ v + 1
sum_lem v h = omega arith

difference_lem : (v : ℕ) → 0 < v → v < 2 ^ 32 → suc (sub_int v 1) ≡ v
difference_lem v h l = omega arith

-- How many turns of a schedule are a worker's.
abbrev pub turns_of : Bool → List Bool → ℕ
turns_of b [] = 0
turns_of true (true ∷ ts) = suc (turns_of true ts)
turns_of true (false ∷ ts) = turns_of true ts
turns_of false (true ∷ ts) = turns_of false ts
turns_of false (false ∷ ts) = suc (turns_of false ts)

-- Every other access is a store; a worker that has loaded stores next.
abbrev pub stores : Option ℕ → ℕ → ℕ
stores none turns = turns / 2
stores (some count) turns = suc turns / 2

abbrev IsWithin : ℕ → ℕ → Option ℕ → Type 0
IsWithin low high none = Unit {0}
IsWithin low high (some count) = (low ≤ count) × (count ≤ high)

widen :
    (low high low' high' : ℕ) (loaded : Option ℕ)
    → low' ≤ low
    → high ≤ high'
    → IsWithin low high loaded
    → IsWithin low' high' loaded
widen low high low' high' none l h w = tt
widen low high low' high' (some count) l h w = (omega (arith, w.0), omega (arith, w.1))

abbrev counted : ℕ → Option ℕ → Option ℕ → Counting
counted count a d = record {
  current_client_count = count;
  accept_loaded = a;
  disconnect_loaded = d;
}

within :
    (ts : List Bool) (count low high : ℕ) (a d : Option ℕ)
    → low ≤ count
    → count ≤ high
    → IsWithin low high a
    → IsWithin low high d
    → stores d (turns_of false ts) ≤ low
    → high + stores a (turns_of true ts) < 2 ^ 32
    → let s = count_run ts (counted count a d) in
      (low ≤ s.current_client_count + stores d (turns_of false ts))
      × (s.current_client_count ≤ high + stores a (turns_of true ts))
unfolding count_run count_turn count_accept count_disconnect
within [] count low high a d l h wa wd few room = (omega arith, omega arith)
within (true ∷ ts) count low high none d l h wa wd few room =
    within ts count low high (some count) d l h (l, h) wd few (omega arith)
within (true ∷ ts) count low high (some v) d l h wa wd few room =
    let w = sum_lem v (omega (arith, wa.1)) in
    let rest =
      within ts (add_int v 1) low (suc high) none d (omega (arith, w, wa.0))
        (omega (arith, w, wa.1)) tt (widen low high low (suc high) d (omega arith) (omega arith) wd)
        few (omega arith) in
    (rest.0, omega (arith, rest.1))
within (false ∷ ts) count low high a none l h wa wd few room =
    within ts count low high a (some count) l h wa (l, h) (omega arith) room
within (false ∷ ts) count (suc low) high a (some v) l h wa wd few room =
    let w = difference_lem v (omega (arith, wd.0)) (omega (arith, wd.1)) in
    let rest =
      within ts (sub_int v 1) low high a none (omega (arith, w, wd.0)) (omega (arith, w, wd.1))
        (widen (suc low) high low high a (omega arith) (omega arith) wa) tt (omega arith) room in
    (omega (arith, rest.0), rest.1)
within (false ∷ ts) count zero high a (some v) l h wa wd few room = absurd (omega arith)

-- Updates that do not overlap: each load is followed by its store.
abbrev pub whole : List Bool → List Bool
whole [] = []
whole (u ∷ us) = u ∷ u ∷ whole us

whole_lem :
    (us : List Bool) (count : ℕ)
    → turns_of false us ≤ count
    → count + turns_of true us < 2 ^ 32
    → (count_run (whole us) (counted count none none)).current_client_count + turns_of false us
      ≡ count + turns_of true us
unfolding count_run count_turn count_accept count_disconnect
whole_lem [] count few room = omega arith
whole_lem (true ∷ us) count few room =
    let w = sum_lem count (omega arith) in
    omega (arith, w, whole_lem us (add_int count 1) (omega (arith, w)) (omega (arith, w)))
whole_lem (false ∷ us) count few room =
    let w = difference_lem count (omega arith) (omega arith) in
    omega (arith, w, whole_lem us (sub_int count 1) (omega (arith, w)) (omega (arith, w)))

-- While the counter has room for the updates, updates that do not overlap count the connections less
-- the disconnections. However the accesses of the two workers are interleaved, the counter ends no
-- lower than if no connection had been counted, and no higher than if no disconnection had been.
pub count_run-bounds :
    (ts us : List Bool) (count : ℕ)
    → turns_of false ts / 2 ≤ count
    → count + turns_of true ts / 2 < 2 ^ 32
    → turns_of false us ≤ count
    → count + turns_of true us < 2 ^ 32
    → let idle : Counting = record {
      current_client_count = count;
      accept_loaded = none;
      disconnect_loaded = none;
    } in
      let s = count_run ts idle in
      ((count_run (whole us) idle).current_client_count + turns_of false us
        ≡ count + turns_of true us)
      × (count ≤ s.current_client_count + turns_of false ts / 2)
      × (s.current_client_count ≤ count + turns_of true ts / 2)
count_run-bounds ts us count few room few' room' =
    let bounds = within ts count count count none none (omega arith) (omega arith) tt tt few room in
    (whole_lem us count few' room', bounds.0, bounds.1)

-- A connection and a disconnection that overlap: the connection is not counted.
connection_lost :
    (count : ℕ)
    → 0 < count
    → count + 1 < 2 ^ 32
    → (count_run (true ∷ false ∷ true ∷ false ∷ []) (counted count none none)).current_client_count
        + 1
      ≡ count
unfolding count_run count_turn count_accept count_disconnect
connection_lost count pos room = omega arith
