-- ===== src/Pipeline/Effects.antt =====
-- What a handler of IocpServer_1/EchoServer.h does to one client of the table.
use iocp_server.Base.{
  ℕ, ◌+◌, ◌≤◌, ◌≡◌, ◌≢◌, refl, sym, ap, ap₂, ◌∙◌, arith, inl, inr, Bool, true, false, ◌||◌, List,
  [], ◌++◌, Option, none, some, append-nil, append_assoc, ◌==◌, if◌then◌else◌, Bool-cases, ==→eq,
  ==-false→ne, some-injective, ne→==,
}
use iocp_server.Memory.{Event}
use iocp_server.Client.{Client}
use iocp_server.Server.Table.{Clients, lookup, assign, lookup-assign_at, lookup-assign_ne}
use iocp_server.Server.{Server, Outside}
use iocp_server.Server.Accepting.{tried, accept_events, tried_all, all_events, lookup-tried_all}
use iocp_server.Iocp.Delivery.{Which, accepts, sends, receives, disconnects}
use iocp_server.Iocp.Routes.{Item}
use iocp_server.Iocp.Reading.{asks_most}
use iocp_server.Client.Counting.{recv_count, send_count}
use iocp_server.Pipeline.Reports.{reported_of, reported_of-append, reads_of, reads_of-append}
use iocp_server.Pipeline.Offering.{accept_events-quiet, all_events-quiet, tried_same}

-- Client `j` gets these bytes and is connected if `joins`; if it is connected then, so many reads are
-- asked for.
pub record Effect (j : ℕ) (c : Client) (bytes : List ℕ) (joins : Bool) (posts : ℕ)
    (news : List Event) (cs' : Clients) : Type 0 where
  pub client : Client
  pub found : lookup j cs' ≡ some client
  pub all_bytes : reported_of j news ++ client.receive_buffer ≡ c.receive_buffer ++ bytes
  pub connected : client.is_connect ≡ (c.is_connect || joins)
  pub reads : reads_of j news ≡ (if client.is_connect then posts else 0)

-- What a call means for client `j`.
abbrev pub bytes_in : Which → Item → ℕ → List ℕ
bytes_in accepts x j = []
bytes_in sends x j = []
bytes_in receives x j = if x.0 == j then x.1 else []
bytes_in disconnects x j = []

abbrev pub joins_in : Which → Item → ℕ → Bool
joins_in accepts x j = x.0 == j
joins_in sends x j = false
joins_in receives x j = false
joins_in disconnects x j = false

abbrev pub posts_in : Which → Item → ℕ → ℕ
posts_in accepts x j = if x.0 == j then 1 else 0
posts_in sends x j = 0
posts_in receives x j = if x.0 == j then 1 else 0
posts_in disconnects x j = 0

abbrev pub EffectOf : Which → Item → Server → List Event → Server → Type 0
EffectOf k x s news s' =
    (j : ℕ) (c : Client)
    → lookup j s.clients ≡ some c
    → Effect j c (bytes_in k x j) (joins_in k x j) (posts_in k x j) news s'.clients

-- What a call does to each client, how many reads it asks for at most, and that it sends nothing.
abbrev pub CallOf : Which → Item → Server → List Event → Server → Type 0
CallOf k x s news s' =
    EffectOf k x s news s' × (recv_count news ≤ asks_most k) × (send_count news ≡ 0)

pub or_false : (b : Bool) → (b || false) ≡ b
or_false true = refl
or_false false = refl

pub either_zero : (b : Bool) → ◌≡◌ {A = ℕ} (if b then 0 else 0) 0
either_zero true = refl
either_zero false = refl

-- Nothing that concerns client `j`: `d` differs from `c` in its contexts at most.
pub Effect-quiet :
    (j : ℕ) (c d : Client) (news : List Event) (cs' : Clients)
    → lookup j cs' ≡ some d
    → d.receive_buffer ≡ c.receive_buffer
    → d.is_connect ≡ c.is_connect
    → reported_of j news ≡ []
    → reads_of j news ≡ 0
    → Effect j c [] false 0 news cs'
Effect-quiet j c d news cs' found buffer connect reported asked = record {
  client = d;
  found = found;
  all_bytes = rw (reported, buffer) (sym (append-nil c.receive_buffer));
  connected = connect ∙ sym (or_false c.is_connect);
  reads = asked ∙ sym (either_zero d.is_connect);
}

-- An effect, and then something that does not concern the client.
pub Effect-then :
    (j : ℕ) (c : Client) (bytes : List ℕ) (joins : Bool) (posts : ℕ) (es fs : List Event)
    (cs cs' : Clients)
    → (first : Effect j c bytes joins posts es cs) → Effect j first.client [] false 0 fs cs'
    → Effect j c bytes joins posts (es ++ fs) cs'
Effect-then j c bytes joins posts es fs cs cs' first next =
    let still = next.connected ∙ or_false first.client.is_connect in
    record {
      client = next.client;
      found = next.found;
      all_bytes =
          ap (λ l. l ++ next.client.receive_buffer) (reported_of-append j es fs)
          ∙ append_assoc (reported_of j es) (reported_of j fs) next.client.receive_buffer
          ∙ ap (λ l. reported_of j es ++ l)
              (next.all_bytes ∙ append-nil first.client.receive_buffer)
          ∙ first.all_bytes;
      connected = still ∙ first.connected;
      reads =
          reads_of-append j es fs
          ∙ ap₂ ◌+◌ (first.reads ∙ ap (λ b. if b then posts else 0) (sym still))
              (next.reads ∙ either_zero next.client.is_connect)
          ∙ add_zero _;
    }
  where
    add_zero : (n : ℕ) → n + 0 ≡ n
    add_zero n = omega arith

-- Storing another client.
pub Effect-assign_ne :
    (j k : ℕ) (c d : Client) (news : List Event) (cs : Clients)
    → k ≢ j
    → lookup j cs ≡ some c
    → reported_of j news ≡ []
    → reads_of j news ≡ 0
    → Effect j c [] false 0 news (assign k d cs)
Effect-assign_ne j k c d news cs ne found reported asked =
    Effect-quiet j c c news (assign k d cs) (lookup-assign_ne k j d cs ne ∙ found) refl refl
      reported asked

-- `TryAccept` on every client.
pub Effect-tried_all :
    (o : Outside) (j : ℕ) (c : Client) (cs : Clients)
    → lookup j cs ≡ some c
    → Effect j c [] false 0 (all_events o cs) (tried_all o cs)
Effect-tried_all o j c cs found =
    let quiet = all_events-quiet o j cs in
    let same = tried_same (o.socket_error j) c in
    Effect-quiet j c (tried (o.socket_error j) c) (all_events o cs) (tried_all o cs)
      (lookup-tried_all o j c cs found) same.0 same.1 quiet.0 quiet.1

-- `TryAccept` on one client.
pub Effect-tried :
    (j k error : ℕ) (c d : Client) (cs : Clients)
    → lookup j cs ≡ some c
    → lookup k cs ≡ some d
    → Effect j c [] false 0 (accept_events error d) (assign k (tried error d) cs)
Effect-tried j k error c d cs found known = elim (Bool-cases (k == j)) [
  | inl here ↦
      let e = ==→eq k j here in
      let same : d ≡ c = some-injective (sym known ∙ ap (λ i. lookup i cs) e ∙ found) in
      let quiet = accept_events-quiet j error d in
      let kept = tried_same error d in
      Effect-quiet j c (tried error d) (accept_events error d) (assign k (tried error d) cs)
        (lookup-assign_at k j (tried error d) cs e) (kept.0 ∙ ap (λ x. x.receive_buffer) same)
        (kept.1 ∙ ap (λ x. x.is_connect) same) quiet.0 quiet.1
  | inr there ↦
      let quiet = accept_events-quiet j error d in
      Effect-assign_ne j k c (tried error d) (accept_events error d) cs (==-false→ne k j there)
        found quiet.0 quiet.1
]

-- A call for another client.
pub Effect-other :
    (k : Which) (x : Item) (j : ℕ) (c : Client) (news : List Event) (cs' : Clients)
    → (x.0 == j) ≡ false
    → Effect j c [] false 0 news cs'
    → Effect j c (bytes_in k x j) (joins_in k x j) (posts_in k x j) news cs'
Effect-other accepts x j c news cs' e h = rw e h
Effect-other sends x j c news cs' e h = h
Effect-other receives x j c news cs' e h = rw e h
Effect-other disconnects x j c news cs' e h = h

-- A call for a client that the table does not have.
pub EffectOf-unknown :
    (k : Which) (x : Item) (s : Server) → lookup x.0 s.clients ≡ none → EffectOf k x s [] s
EffectOf-unknown k x s unknown j c found =
    Effect-other k x j c [] s.clients (ne→== x.0 j (differ unknown found))
      (Effect-quiet j c c [] s.clients found refl refl refl refl)
  where
    differ : lookup x.0 s.clients ≡ none → lookup j s.clients ≡ some c → x.0 ≢ j
    differ nothing found e =
        let both : ◌≡◌ {A = Option Client} none (some c) =
          sym nothing ∙ ap (λ i. lookup i s.clients) e ∙ found in
        cc
