-- ===== src/Server/Table.antt =====
-- The ordered map `mClientDataConMap` of IocpServer_1/EchoServer.h, as a list in the order of its
-- keys, with the documented behaviour of `find` and `operator[]`.
use iocp_server.Base.{
  some-injective, ap₂, subst, ℕ, suc, ◌+◌, sym, ap, ◌∙◌, ◌++◌, ne→==, le→ltb-false, Bool-cases, inl,
  inr, ==→eq, ==-false→ne, ◌≤◌, ◌<◌, ◌≡◌, ◌≢◌, refl, arith, List, [], ◌∷◌, Option, none, some, ◌==◌,
  ltb, length, if◌then◌else◌,
}
use iocp_server.Client.{Client}
use iocp_server.Client.Frames.{All}

abbrev pub Clients : Type 0
Clients = List (ℕ × Client)

-- `find`
unfoldable pub lookup : ℕ → Clients → Option Client
lookup k [] = none
lookup k ((j, c) ∷ cs) = if j == k then some c else lookup k cs

-- `map[k] = c`
unfoldable pub assign : ℕ → Client → Clients → Clients
assign k c [] = (k, c) ∷ []
assign k c ((j, d) ∷ cs) =
    let later = assign k c cs in
    if j == k then (k, c) ∷ cs else if ltb k j then (k, c) ∷ (j, d) ∷ cs else (j, d) ∷ later

pub lookup-assign_self : (k : ℕ) (c : Client) (cs : Clients) → lookup k (assign k c cs) ≡ some c
unfolding lookup assign
lookup-assign_self k c [] = ground arith
lookup-assign_self k c ((j, d) ∷ cs) = ground (arith, lookup-assign_self k c cs)

pub lookup-assign_at :
    (k i : ℕ) (c : Client) (cs : Clients) → k ≡ i → lookup i (assign k c cs) ≡ some c
lookup-assign_at k i c cs e =
    subst (λ j. lookup j (assign k c cs) ≡ some c) e (lookup-assign_self k c cs)

pub lookup-assign_ne :
    (k i : ℕ) (c : Client) (cs : Clients) → k ≢ i → lookup i (assign k c cs) ≡ lookup i cs
unfolding lookup assign
lookup-assign_ne k i c [] h = ground arith
lookup-assign_ne k i c ((j, d) ∷ cs) h = ground (arith, lookup-assign_ne k i c cs)

-- The keys are `k`, `k + 1`, and so on, and each client carries its key.
abbrev pub IsNumbered : ℕ → Clients → Type 0
IsNumbered k [] = Unit {0}
IsNumbered k ((j, c) ∷ cs) = (j ≡ k) × (c.id ≡ j) × IsNumbered (suc k) cs

-- A key behind the last one is added at the end.
pub assign_new :
    (k i : ℕ) (c : Client) (cs : Clients)
    → IsNumbered k cs
    → i ≡ k + length cs
    → assign i c cs ≡ cs ++ (i, c) ∷ []
unfolding assign
assign_new k i c [] n e = refl
assign_new k i c ((j, d) ∷ cs) n e = rw (
  ne→== j i (omega (arith, n.0)),
  le→ltb-false i j (omega (arith, n.0)),
  assign_new (suc k) i c cs n.2 (omega arith),
)

pub IsNumbered-append :
    (k i : ℕ) (c : Client) (cs : Clients)
    → IsNumbered k cs
    → i ≡ k + length cs
    → c.id ≡ i
    → IsNumbered k (cs ++ (i, c) ∷ [])
IsNumbered-append k i c [] n e h = (omega arith, h, tt)
IsNumbered-append k i c ((j, d) ∷ cs) n e h =
    (n.0, n.1, IsNumbered-append (suc k) i c cs n.2 (omega arith) h)

pub lookup_above :
    (k i : ℕ) (d : Client) (cs : Clients) → IsNumbered k cs → lookup i cs ≡ some d → k ≤ i
unfolding lookup
lookup_above k i d [] n e = cc
lookup_above k i d ((j, b) ∷ cs) n e = elim (Bool-cases (j == i)) [
  | inl here ↦ omega (arith, ==→eq j i here, n.0)
  | inr there ↦ omega (arith, lookup_above (suc k) i d cs n.2 (rw there at e))
]

-- Storing a client under a key that is there keeps the numbering and the size.
pub assign-IsNumbered :
    (k i : ℕ) (c d : Client) (cs : Clients)
    → IsNumbered k cs
    → lookup i cs ≡ some d
    → c.id ≡ i
    → IsNumbered k (assign i c cs) × (length (assign i c cs) ≡ length cs)
unfolding assign lookup
assign-IsNumbered k i c d [] n e h = cc
assign-IsNumbered k i c d ((j, b) ∷ cs) n e h = elim (Bool-cases (j == i)) [
  | inl here ↦ rw here ((sym (==→eq j i here) ∙ n.0, h, n.2), refl)
  | inr there ↦
      let e' : lookup i cs ≡ some d = rw there at e in
      let above = lookup_above (suc k) i d cs n.2 e' in
      let later = assign-IsNumbered (suc k) i c d cs n.2 e' h in
      rw (there, le→ltb-false i j (omega (arith, n.0))) ((n.0, n.1, later.0), ap suc later.1)
]

pub lookup-id :
    (k i : ℕ) (d : Client) (cs : Clients) → IsNumbered k cs → lookup i cs ≡ some d → d.id ≡ i
unfolding lookup
lookup-id k i d [] n e = cc
lookup-id k i d ((j, b) ∷ cs) n e = elim (Bool-cases (j == i)) [
  | inl here ↦
      let found : some b ≡ some d = rw here at e in
      let same : b ≡ d = cc in ap (λ c. c.id) (sym same) ∙ n.1 ∙ ==→eq j i here
  | inr there ↦ lookup-id (suc k) i d cs n.2 (rw there at e)
]

-- The keys that are there are those from the first on.
pub lookup_present :
    (k i : ℕ) (cs : Clients)
    → IsNumbered k cs
    → k ≤ i
    → i < k + length cs
    → (d : Client) × (lookup i cs ≡ some d)
unfolding lookup
lookup_present k i [] n l h = absurd (omega arith)
lookup_present k i ((j, b) ∷ cs) n l h = elim (Bool-cases (j == i)) [
  | inl here ↦ rw here (b, refl)
  | inr there ↦
      rw there
        (lookup_present (suc k) i cs n.2 (omega (arith, n.0, ==-false→ne j i there)) (omega arith))
]

pub lookup-append :
    (i : ℕ) (d : Client) (cs ds : Clients) → lookup i cs ≡ some d → lookup i (cs ++ ds) ≡ some d
unfolding lookup
lookup-append i d [] ds e = cc
lookup-append i d ((j, b) ∷ cs) ds e = ground (arith, lookup-append i d cs ds)

-- What holds of every entry.
module _ (P : ℕ × Client → Type 0) where
  pub found-All : (k : ℕ) (c : Client) (cs : Clients) → All P cs → lookup k cs ≡ some c → P (k, c)
  unfolding lookup
  found-All k c [] h e = cc
  found-All k c ((j, d) ∷ cs) h e = elim (Bool-cases (j == k)) [
    | inl here ↦
        let same : d ≡ c = some-injective (rw here at e) in
        subst P (ap₂ (λ i x. (i, x)) (==→eq j k here) same) h.0
    | inr there ↦ found-All k c cs h.1 (rw there at e)
  ]

  pub assign-All : (k : ℕ) (c : Client) (cs : Clients) → All P cs → P (k, c) → All P (assign k c cs)
  unfolding assign
  assign-All k c [] h hc = (hc, tt)
  assign-All k c ((j, d) ∷ cs) h hc = elim (Bool-cases (j == k)) [
    | inl here ↦ rw here (hc, h.1)
    | inr there ↦ elim (Bool-cases (ltb k j)) [
      | inl before ↦ rw (there, before) (hc, h)
      | inr behind ↦ rw (there, behind) (h.0, assign-All k c cs h.1 hc)
    ]
  ]
