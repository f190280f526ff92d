-- ===== src/Pipeline/Calls.antt =====
-- What a sequence of calls of the handlers of IocpServer_1/EchoServer.h does for one client.
use iocp_server.Base.{
  ℕ, ◌+◌, arith, ◌≡◌, refl, sym, ap, ap₂, ◌∙◌, Bool, ◌||◌, List, [], ◌∷◌, ◌++◌, some, append-nil,
  append_assoc, if◌then◌else◌, ◌==◌, Bool-cases, inl, inr,
}
use iocp_server.Memory.{Event}
use iocp_server.Client.{Client}
use iocp_server.Client.Counting.{send_count, send_count-append}
use iocp_server.Server.{Server}
use iocp_server.Server.Table.{lookup}
use iocp_server.Iocp.Delivery.{Which, accepts, sends, receives, disconnects}
use iocp_server.Iocp.Routes.{Item}
use iocp_server.Iocp.Contract.{Calls}
use iocp_server.Iocp.Conserved.{taken}
use iocp_server.Pipeline.Reports.{reported_of, reported_of-append, reads_of, reads_of-append}
use iocp_server.Pipeline.Accounts.{bytes_for}
use iocp_server.Pipeline.Effects.{bytes_in, joins_in, posts_in}
use iocp_server.Pipeline.Serving.{echo_contract}

-- Whether a client is connected, and how many reads it has asked for, after these calls.
abbrev pub joined : ℕ → Bool → List (Which × Item) → Bool
joined j connected [] = connected
joined j connected ((k, x) ∷ cs) = joined j (connected || joins_in k x j) cs

abbrev pub reads_due : ℕ → Bool → List (Which × Item) → ℕ
reads_due j connected [] = 0
reads_due j connected ((k, x) ∷ cs) =
    let now = connected || joins_in k x j in
    (if now then posts_in k x j else 0) + reads_due j now cs

-- What the calls leave of client `j`, and what they report of it.
pub record Account (j : ℕ) (c : Client) (called : List (Which × Item)) (news : List Event)
    (s' : Server) : Type 0 where
  pub client : Client
  pub found : lookup j s'.clients ≡ some client
  pub all_bytes :
      reported_of j news ++ client.receive_buffer
      ≡ c.receive_buffer ++ bytes_for j (taken receives called)
  pub connected : client.is_connect ≡ joined j c.is_connect called
  pub reads : reads_of j news ≡ reads_due j c.is_connect called

pub bytes_for-taken :
    (j : ℕ) (k : Which) (x : Item) (cs : List (Which × Item))
    → bytes_for j (taken receives ((k, x) ∷ cs)) ≡ bytes_in k x j ++ bytes_for j (taken receives cs)
bytes_for-taken j accepts x cs = refl
bytes_for-taken j sends x cs = refl
bytes_for-taken j disconnects x cs = refl
bytes_for-taken j receives x cs = elim (Bool-cases (x.0 == j)) [
  | inl mine ↦ rw mine
  | inr other ↦ rw other
]

pub Calls-Account :
    (j : ℕ) (called : List (Which × Item)) (s s' : Server) (news : List Event) (c : Client)
    → Calls echo_contract called s news s'
    → lookup j s.clients ≡ some c
    → Account j c called news s'
Calls-Account j [] s s' news c (nothing, same) found =
    rw (nothing, same)
      (record {
        client = c;
        found = found;
        all_bytes = sym (append-nil c.receive_buffer);
        connected = refl;
        reads = refl;
      })
Calls-Account j ((k, x) ∷ called) s s' news c (first, middle, rest, step, later_calls, e) found =
    let one = step.0 j c found in
    let later = Calls-Account j called middle s' rest one.client later_calls one.found in
    rw e (record {
      client = later.client;
      found = later.found;
      all_bytes =
          ap (λ l. l ++ later.client.receive_buffer) (reported_of-append j first rest)
          ∙ append_assoc (reported_of j first) (reported_of j rest) later.client.receive_buffer
          ∙ ap (λ l. reported_of j first ++ l) later.all_bytes
          ∙ sym (append_assoc (reported_of j first) one.client.receive_buffer _)
          ∙ ap (λ l. l ++ bytes_for j (taken receives called)) one.all_bytes
          ∙ append_assoc c.receive_buffer (bytes_in k x j) _
          ∙ ap (λ l. c.receive_buffer ++ l) (sym (bytes_for-taken j k x called));
      connected = later.connected ∙ ap (λ b. joined j b called) one.connected;
      reads =
          reads_of-append j first rest
          ∙ ap₂ ◌+◌ (one.reads ∙ ap (λ b. if b then posts_in k x j else 0) one.connected)
              (later.reads ∙ ap (λ b. reads_due j b called) one.connected);
    })

pub bytes_for-append :
    (j : ℕ) (xs ys : List Item) → bytes_for j (xs ++ ys) ≡ bytes_for j xs ++ bytes_for j ys
bytes_for-append j [] ys = refl
bytes_for-append j ((id, bytes) ∷ xs) ys = elim (Bool-cases (id == j)) [
  | inl mine ↦ rw mine (
      ap (λ l. bytes ++ l) (bytes_for-append j xs ys)
      ∙ sym (append_assoc bytes (bytes_for j xs) (bytes_for j ys)))
  | inr other ↦ rw other (bytes_for-append j xs ys)
]

-- No call asks for a send.
pub send_count-Calls :
    (called : List (Which × Item)) (s s' : Server) (news : List Event)
    → Calls echo_contract called s news s'
    → send_count news ≡ 0
send_count-Calls [] s s' news (nothing, same) = rw nothing refl
send_count-Calls ((k, x) ∷ called) s s' news (first, middle, rest, step, later, e) = rw e (
    omega
      (arith, send_count-append first rest, step.2, send_count-Calls called middle s' rest later))
