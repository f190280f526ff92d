-- ===== src/Client/Counting.antt =====
-- What a list of events reports of a client's bytes, and how many reads and sends it asks for.
use iocp_server.Base.{
  ℕ, suc, ◌+◌, ◌≡◌, refl, sym, ap, ap₂, ◌∙◌, List, [], ◌∷◌, ◌++◌, arith, length, map, append-nil,
  append_assoc,
}
use iocp_server.Memory.{Event, accept_ex, wsa_recv, wsa_send, handled, sent}
use iocp_server.Memory.Laws.{take_all}
use iocp_server.Client.{buffer_size, receiving}
use iocp_server.Client.Frames.{concat, All}
use iocp_server.Client.Handling.{report}

-- The bytes of all reports, in order.
abbrev pub reported : List Event → List ℕ
reported [] = []
reported (handled id bytes ∷ es) = bytes ++ reported es
reported (accept_ex c ∷ es) = reported es
reported (wsa_recv c ∷ es) = reported es
reported (wsa_send b c ∷ es) = reported es
reported (sent id bytes ∷ es) = reported es

abbrev pub recv_count : List Event → ℕ
recv_count [] = 0
recv_count (wsa_recv c ∷ es) = suc (recv_count es)
recv_count (handled id bytes ∷ es) = recv_count es
recv_count (accept_ex c ∷ es) = recv_count es
recv_count (wsa_send b c ∷ es) = recv_count es
recv_count (sent id bytes ∷ es) = recv_count es

-- How often a send is asked for.
abbrev pub send_count : List Event → ℕ
send_count [] = 0
send_count (wsa_send b c ∷ es) = suc (send_count es)
send_count (handled id bytes ∷ es) = send_count es
send_count (accept_ex c ∷ es) = send_count es
send_count (wsa_recv c ∷ es) = send_count es
send_count (sent id bytes ∷ es) = send_count es

pub send_count-append : (es fs : List Event) → send_count (es ++ fs) ≡ send_count es + send_count fs
send_count-append [] fs = omega arith
send_count-append (wsa_send b c ∷ es) fs = omega (arith, send_count-append es fs)
send_count-append (handled id b ∷ es) fs = send_count-append es fs
send_count-append (accept_ex c ∷ es) fs = send_count-append es fs
send_count-append (wsa_recv c ∷ es) fs = send_count-append es fs
send_count-append (sent id b ∷ es) fs = send_count-append es fs

pub send_count-reports : (id : ℕ) (bs : List (List ℕ)) → send_count (map (report id) bs) ≡ 0
send_count-reports id [] = refl
send_count-reports id (b ∷ bs) = send_count-reports id bs

pub reported-append : (es fs : List Event) → reported (es ++ fs) ≡ reported es ++ reported fs
reported-append [] fs = refl
reported-append (handled id b ∷ es) fs =
    ap (λ l. b ++ l) (reported-append es fs) ∙ sym (append_assoc b (reported es) (reported fs))
reported-append (accept_ex c ∷ es) fs = reported-append es fs
reported-append (wsa_recv c ∷ es) fs = reported-append es fs
reported-append (wsa_send b c ∷ es) fs = reported-append es fs
reported-append (sent id b ∷ es) fs = reported-append es fs

pub recv_count-append : (es fs : List Event) → recv_count (es ++ fs) ≡ recv_count es + recv_count fs
recv_count-append [] fs = omega arith
recv_count-append (wsa_recv c ∷ es) fs = omega (arith, recv_count-append es fs)
recv_count-append (handled id b ∷ es) fs = recv_count-append es fs
recv_count-append (accept_ex c ∷ es) fs = recv_count-append es fs
recv_count-append (wsa_send b c ∷ es) fs = recv_count-append es fs
recv_count-append (sent id b ∷ es) fs = recv_count-append es fs

pub reported-reports :
    (id : ℕ) (bs : List (List ℕ))
    → All (λ b. length b ≡ buffer_size) bs
    → reported (map (report id) bs) ≡ concat bs
reported-reports id [] h = refl
reported-reports id (b ∷ bs) h =
    ap₂ ◌++◌ (take_all b buffer_size (sym h.0)) (reported-reports id bs h.1)

pub recv_count-reports : (id : ℕ) (bs : List (List ℕ)) → recv_count (map (report id) bs) ≡ 0
recv_count-reports id [] = refl
recv_count-reports id (b ∷ bs) = recv_count-reports id bs

-- The events of one message.
unfoldable pub message_events : ℕ → List (List ℕ) → List Event
message_events id bs = map (report id) bs ++ wsa_recv (receiving id) ∷ []

pub reported-message_events :
    (id : ℕ) (bs : List (List ℕ))
    → All (λ b. length b ≡ buffer_size) bs
    → reported (message_events id bs) ≡ concat bs
unfolding message_events
reported-message_events id bs h =
    reported-append (map (report id) bs) (wsa_recv (receiving id) ∷ [])
    ∙ append-nil _
    ∙ reported-reports id bs h

pub recv_count-message_events :
    (id : ℕ) (bs : List (List ℕ)) → recv_count (message_events id bs) ≡ 1
unfolding message_events
recv_count-message_events id bs = omega (
  arith,
  recv_count-append (map (report id) bs) (wsa_recv (receiving id) ∷ []),
  recv_count-reports id bs,
)
