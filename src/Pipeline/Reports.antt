-- ===== src/Pipeline/Reports.antt =====
-- What the events of ClientDataSet.h's receiving side say of one client: the bytes that are reported,
-- and the reads that are asked for.
use iocp_server.Base.{
  suc, ◌+◌, ◌≤◌, ℕ, ◌≡◌, refl, sym, ap, ap₂, ◌∙◌, arith, inl, inr, Bool, true, false, List, [], ◌∷◌,
  ◌++◌, length, map, append_assoc, ◌==◌, if◌then◌else◌, Bool-cases,
}
use iocp_server.Memory.{Event, accept_ex, wsa_recv, wsa_send, handled, sent}
use iocp_server.Memory.Laws.{take_all}
use iocp_server.Client.{Client, buffer_size, receiving}
use iocp_server.Client.Frames.{concat, All}
use iocp_server.Client.Counting.{recv_count, send_count}
use iocp_server.Client.Handling.{readied, ready_events, report}

-- The bytes of the reports for one client, in order.
abbrev pub reported_of : ℕ → List Event → List ℕ
reported_of k [] = []
reported_of k (handled id bytes ∷ es) =
    let rest = reported_of k es in if id == k then bytes ++ rest else rest
reported_of k (accept_ex c ∷ es) = reported_of k es
reported_of k (wsa_recv c ∷ es) = reported_of k es
reported_of k (wsa_send b c ∷ es) = reported_of k es
reported_of k (sent id bytes ∷ es) = reported_of k es

pub reported_of-append :
    (k : ℕ) (es fs : List Event) → reported_of k (es ++ fs) ≡ reported_of k es ++ reported_of k fs
reported_of-append k [] fs = refl
reported_of-append k (handled id b ∷ es) fs = elim (Bool-cases (id == k)) [
  | inl mine ↦ rw mine (
      ap (λ l. b ++ l) (reported_of-append k es fs)
      ∙ sym (append_assoc b (reported_of k es) (reported_of k fs)))
  | inr other ↦ rw other (reported_of-append k es fs)
]
reported_of-append k (accept_ex c ∷ es) fs = reported_of-append k es fs
reported_of-append k (wsa_recv c ∷ es) fs = reported_of-append k es fs
reported_of-append k (wsa_send b c ∷ es) fs = reported_of-append k es fs
reported_of-append k (sent id b ∷ es) fs = reported_of-append k es fs

pub reported_of-reports :
    (k id : ℕ) (bs : List (List ℕ))
    → All (λ b. length b ≡ buffer_size) bs
    → reported_of k (map (report id) bs) ≡ (if id == k then concat bs else [])
reported_of-reports k id bs h = elim (Bool-cases (id == k)) [
  | inl mine ↦ rw mine (own bs mine h)
  | inr other ↦ rw other (others bs other)
]
  where
    own :
        (bs : List (List ℕ))
        → (id == k) ≡ true
        → All (λ b. length b ≡ buffer_size) bs
        → reported_of k (map (report id) bs) ≡ concat bs
    own [] e h = refl
    own (b ∷ bs) e h = rw e (ap₂ ◌++◌ (take_all b buffer_size (sym h.0)) (own bs e h.1))

    others : (bs : List (List ℕ)) → (id == k) ≡ false → reported_of k (map (report id) bs) ≡ []
    others [] e = refl
    others (b ∷ bs) e = rw e (others bs e)

pub reported_of-ready : (k : ℕ) (c : Client) → reported_of k (ready_events c) ≡ []
reported_of-ready k c = by_cases c.is_connect
  where
    by_cases : (b : Bool) → reported_of k (if b then wsa_recv (receiving c.id) ∷ [] else []) ≡ []
    by_cases true = refl
    by_cases false = refl

-- How often a read is asked for, for one client.
abbrev pub reads_of : ℕ → List Event → ℕ
reads_of k [] = 0
reads_of k (wsa_recv c ∷ es) = let rest = reads_of k es in if c.id == k then suc rest else rest
reads_of k (handled id bytes ∷ es) = reads_of k es
reads_of k (accept_ex c ∷ es) = reads_of k es
reads_of k (wsa_send b c ∷ es) = reads_of k es
reads_of k (sent id bytes ∷ es) = reads_of k es

pub reads_of-append :
    (k : ℕ) (es fs : List Event) → reads_of k (es ++ fs) ≡ reads_of k es + reads_of k fs
reads_of-append k [] fs = omega arith
reads_of-append k (wsa_recv c ∷ es) fs = ground (arith, reads_of-append k es fs)
reads_of-append k (handled id b ∷ es) fs = reads_of-append k es fs
reads_of-append k (accept_ex c ∷ es) fs = reads_of-append k es fs
reads_of-append k (wsa_send b c ∷ es) fs = reads_of-append k es fs
reads_of-append k (sent id b ∷ es) fs = reads_of-append k es fs

pub reads_of-reports : (k id : ℕ) (bs : List (List ℕ)) → reads_of k (map (report id) bs) ≡ 0
reads_of-reports k id [] = refl
reads_of-reports k id (b ∷ bs) = reads_of-reports k id bs

pub reads_of-ready :
    (k : ℕ) (c : Client)
    → reads_of k (ready_events c) ≡ (if c.is_connect then if c.id == k then 1 else 0 else 0)
reads_of-ready k c = by_cases c.is_connect
  where
    by_cases :
        (b : Bool)
        → reads_of k (if b then wsa_recv (receiving c.id) ∷ [] else [])
          ≡ (if b then if c.id == k then 1 else 0 else 0)
    by_cases true = refl
    by_cases false = refl

pub readied-is_connect : (c : Client) → (readied c).is_connect ≡ c.is_connect
readied-is_connect c = elim (Bool-cases c.is_connect) [ inl on ↦ rw on | inr off ↦ rw off ]

pub zero_add : (n : ℕ) → 0 + n ≡ n
zero_add n = omega arith

-- The clients for which a connection is asked for.
abbrev pub offers : List Event → List ℕ
offers [] = []
offers (accept_ex c ∷ es) = c.id ∷ offers es
offers (wsa_recv c ∷ es) = offers es
offers (handled id bytes ∷ es) = offers es
offers (wsa_send b c ∷ es) = offers es
offers (sent id bytes ∷ es) = offers es

pub offers-reports :
    (id : ℕ) (bs : List (List ℕ)) (es : List Event) → offers (map (report id) bs ++ es) ≡ offers es
offers-reports id [] es = refl
offers-reports id (b ∷ bs) es = offers-reports id bs es

pub offers-ready : (c : Client) → offers (ready_events c) ≡ []
offers-ready c = elim (Bool-cases c.is_connect) [ inl on ↦ rw on | inr off ↦ rw off ]

pub offers-append : (es fs : List Event) → offers (es ++ fs) ≡ offers es ++ offers fs
offers-append [] fs = refl
offers-append (accept_ex c ∷ es) fs = ap (λ l. c.id ∷ l) (offers-append es fs)
offers-append (wsa_recv c ∷ es) fs = offers-append es fs
offers-append (handled id bytes ∷ es) fs = offers-append es fs
offers-append (wsa_send b c ∷ es) fs = offers-append es fs
offers-append (sent id bytes ∷ es) fs = offers-append es fs

pub send_count-ready : (c : Client) → send_count (ready_events c) ≡ 0
send_count-ready c = elim (Bool-cases c.is_connect) [ inl on ↦ rw on refl | inr off ↦ rw off refl ]

pub recv_count-ready : (c : Client) → recv_count (ready_events c) ≤ 1
recv_count-ready c = elim (Bool-cases c.is_connect) [
  | inl on ↦ rw on (omega arith)
  | inr off ↦ rw off (omega arith)
]
