-- ===== src/Pipeline/Accounts.antt =====
-- The bytes that a table of clients keeps, and the ones that come in.
use iocp_server.Base.{
  ℕ, ◌<◌, ◌≤◌, ◌≡◌, sym, ap, subst, ◌∙◌, inl, inr, true, false, List, [], ◌∷◌, ◌++◌, Option, none,
  some, length, append-nil, ◌==◌, if◌then◌else◌, Bool-cases, ==→eq, ==-false→ne,
}
use iocp_server.Memory.{Event}
use iocp_server.Client.{Client}
use iocp_server.Client.Frames.{All, concat}
use iocp_server.Client.Receive.{IsIdle, frames}
use iocp_server.Server.Table.{Clients, lookup, assign, lookup-assign_at, lookup-assign_ne}
use iocp_server.Pipeline.Reports.{reported_of}

abbrev pub buffer_or : Option Client → List ℕ
buffer_or none = []
buffer_or (some c) = c.receive_buffer

-- The bytes that a client keeps.
abbrev pub buffer_of : ℕ → Clients → List ℕ
buffer_of k cs = buffer_or (lookup k cs)

-- The bytes for one client, in order.
abbrev pub bytes_for : ℕ → List (ℕ × List ℕ) → List ℕ
bytes_for k [] = []
bytes_for k ((id, bytes) ∷ xs) =
    let rest = bytes_for k xs in if id == k then bytes ++ rest else rest

-- Every client is idle, and carries its key.
abbrev pub AllIdle : Clients → Type 0
AllIdle cs = (k : ℕ) (c : Client) → lookup k cs ≡ some c → IsIdle c × (c.id ≡ k)

-- A message for a client of the table, of at least one byte and no more than its queue takes.
abbrev pub IsFor : Clients → ℕ × List ℕ → Type 0
IsFor cs x = (c : Client) × (lookup x.0 cs ≡ some c) × (0 < length x.1) × (length x.1 ≤ 980)

-- Storing a client that is there.
pub IsFor-assign :
    (id : ℕ) (d : Client) (cs : Clients) (x : ℕ × List ℕ) → IsFor cs x → IsFor (assign id d cs) x
IsFor-assign id d cs x (c, found, pos, fits) = elim (Bool-cases (id == x.0)) [
  | inl here ↦ (d, lookup-assign_at id x.0 d cs (==→eq id x.0 here), pos, fits)
  | inr there ↦ (c, lookup-assign_ne id x.0 d cs (==-false→ne id x.0 there) ∙ found, pos, fits)
]

pub All-IsFor-assign :
    (id : ℕ) (d : Client) (cs : Clients) (xs : List (ℕ × List ℕ))
    → All (IsFor cs) xs
    → All (IsFor (assign id d cs)) xs
All-IsFor-assign id d cs [] h = tt
All-IsFor-assign id d cs (x ∷ xs) h = (IsFor-assign id d cs x h.0, All-IsFor-assign id d cs xs h.1)

pub AllIdle-assign :
    (id : ℕ) (d : Client) (cs : Clients)
    → AllIdle cs
    → IsIdle d
    → d.id ≡ id
    → AllIdle (assign id d cs)
AllIdle-assign id d cs all idle named k c found = elim (Bool-cases (id == k)) [
  | inl here ↦
      let e = ==→eq id k here in
      let after = lookup-assign_at id k d cs e in
      let same : d ≡ c = cc in (subst IsIdle same idle, ap (λ x. x.id) (sym same) ∙ named ∙ e)
  | inr there ↦ all k c (sym (lookup-assign_ne id k d cs (==-false→ne id k there)) ∙ found)
]

-- What a packet's handling adds for one client.
pub one_step :
    (k id : ℕ) (c d : Client) (cs : Clients) (bytes : List ℕ) (news : List Event)
    → lookup id cs ≡ some c
    → c.id ≡ id
    → ((j : ℕ)
        → reported_of j news
          ≡ (if c.id == j then concat (frames (c.receive_buffer ++ bytes)) else []))
    → concat (frames (c.receive_buffer ++ bytes)) ++ d.receive_buffer ≡ c.receive_buffer ++ bytes
    → reported_of k news ++ buffer_of k (assign id d cs)
      ≡ buffer_of k cs ++ (if id == k then bytes else [])
one_step k id c d cs bytes news found named reports all = elim (Bool-cases (id == k)) [
  | inl here ↦
      let e = ==→eq id k here in
      let own : (c.id == k) ≡ true = ap (λ j. j == k) named ∙ here in
      let told : reported_of k news ≡ concat (frames (c.receive_buffer ++ bytes)) =
        rw own at (reports k) in
      let before : lookup k cs ≡ some c = subst (λ j. lookup j cs ≡ some c) e found in
      let after = lookup-assign_at id k d cs e in rw (here, told, before, after) all
  | inr there ↦
      let own : (c.id == k) ≡ false = ap (λ j. j == k) named ∙ there in
      let told : reported_of k news ≡ [] = rw own at (reports k) in
      let after = lookup-assign_ne id k d cs (==-false→ne id k there) in
      rw (there, told, after) (sym (append-nil _))
]
