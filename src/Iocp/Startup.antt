-- ===== src/Iocp/Startup.antt =====
-- `Init` of IocpServer_1/IOCompletionPort.h, with the answers of Winsock as arguments, and
-- `PrepareSocket`.
use iocp_server.Base.{
  ℕ, suc, ◌≡◌, refl, Bool, true, false, List, [], ◌∷◌, ◌++◌, Option, none, some, if◌then◌else◌, ◌-◌,
  ◌&&◌,
}

-- A handle is what `INVALID_HANDLE_VALUE` or `NULL` stands for, or one that the system gave.
pub data Handle : Type 0 where
  invalid_handle null_handle : Handle
  handle : ℕ → Handle

-- The calls that acquire or release something, in order.
pub data Call : Type 0 where
  wsa_startup wsa_cleanup : Call
  open_socket close_socket : (socket : ℕ) → Call
  bind listen : (socket : ℕ) → Call
  create_port : Call
  associate : (socket : ℕ) → Handle → Call
  load_accept_ex : (socket : ℕ) → Call

-- What Winsock answers. `socket` is `none` for `INVALID_SOCKET`, `port` for a null handle, and
-- `accept_ex` where `WSAIoctl` fails.
pub record Answers : Type 0 where
  pub started : Bool
  pub socket : Option ℕ
  pub bound : Bool
  pub listening : Bool
  pub port : Option ℕ
  pub associated : Bool
  pub accept_ex : Option ℕ

-- The fields that `Init` sets.
pub record Port : Type 0 where
  pub listen_socket : Option ℕ
  pub accept_ex_pointer : Option ℕ
  pub iocp_handle : Handle
  pub server_on : Bool

-- The constructor.
abbrev pub constructed : Port
constructed = record {
  listen_socket = none;
  accept_ex_pointer = none;
  iocp_handle = invalid_handle;
  server_on = true;
}

-- Calls made before those of the rest.
abbrev before : List Call → List Call × Port → List Call × Port
before calls (later, p) = (calls ++ later, p)

-- An early return behind the creation of the socket.
abbrev give_up : ℕ → Port → List Call × Port
give_up socket p = (close_socket socket ∷ wsa_cleanup ∷ [], p)

-- From `WSAIoctl` on; if that fails the pointer stays as it was, and the start-up goes on.
load : Option ℕ → ℕ → Port → List Call × Port
load none socket p = (load_accept_ex socket ∷ [], record p { server_on = true })
load (some f) socket p =
    (load_accept_ex socket ∷ [], record p { accept_ex_pointer = some f; server_on = true })

-- From the first `CreateIoCompletionPort` on.
make_port : Answers → Option ℕ → ℕ → Port → List Call × Port
unfolding load
make_port a none socket p =
    before (create_port ∷ []) (give_up socket (record p { iocp_handle = null_handle }))
make_port a (some h) socket p =
    let opened : Port = record p { iocp_handle = handle h } in
    before (create_port ∷ associate socket (handle h) ∷ [])
      (if a.associated then load a.accept_ex socket opened else give_up socket opened)

-- From `bind` on.
bind_socket : Answers → ℕ → Port → List Call × Port
unfolding make_port
bind_socket a socket p = before (bind socket ∷ []) (
    if a.bound
    then before (listen socket ∷ [])
        (if a.listening then make_port a a.port socket p else give_up socket p)
    else give_up socket p)

-- From `socket` on.
make_socket : Answers → Option ℕ → Port → List Call × Port
unfolding bind_socket
make_socket a none p = (wsa_cleanup ∷ [], record p { listen_socket = none })
make_socket a (some socket) p =
    before (open_socket socket ∷ [])
      (bind_socket a socket (record p { listen_socket = some socket }))

-- `Init`
unfoldable pub init : Answers → Port → List Call × Port
unfolding make_socket
init a p = before (wsa_startup ∷ []) (if a.started then make_socket a a.socket p else ([], p))

-- `PrepareSocket`: a new socket that the port serves; its answers are not tested.
unfoldable pub prepare_socket : ℕ → Port → List Call × ℕ
prepare_socket socket p = (open_socket socket ∷ associate socket p.iocp_handle ∷ [], socket)

-- What is in use after some calls: how often Winsock is started, and how many sockets and completion
-- ports are open. `WSAStartup` and the creation of the port count if they succeed.
pub record InUse : Type 0 where
  pub winsock : ℕ
  pub sockets : ℕ
  pub ports : ℕ

abbrev pub is_some : Option ℕ → Bool
is_some none = false
is_some (some x) = true

abbrev pub use_of : Answers → List Call → InUse → InUse
use_of a [] u = u
use_of a (wsa_startup ∷ cs) u =
    use_of a cs (if a.started then record u { winsock = suc u.winsock } else u)
use_of a (wsa_cleanup ∷ cs) u = use_of a cs (record u { winsock = u.winsock - 1 })
use_of a (open_socket s ∷ cs) u = use_of a cs (record u { sockets = suc u.sockets })
use_of a (close_socket s ∷ cs) u = use_of a cs (record u { sockets = u.sockets - 1 })
use_of a (bind s ∷ cs) u = use_of a cs u
use_of a (listen s ∷ cs) u = use_of a cs u
use_of a (create_port ∷ cs) u =
    use_of a cs (if is_some a.port then record u { ports = suc u.ports } else u)
use_of a (associate s h ∷ cs) u = use_of a cs u
use_of a (load_accept_ex s ∷ cs) u = use_of a cs u

-- Every step up to the association of the listening socket has succeeded.
abbrev pub ready : Answers → Bool
ready a = a.started && is_some a.socket && a.bound && a.listening && is_some a.port && a.associated

-- The completion port is created.
abbrev pub has_port : Answers → Bool
has_port a = a.started && is_some a.socket && a.bound && a.listening && is_some a.port

abbrev pub unused : InUse
unused = record { winsock = 0; sockets = 0; ports = 0 }

-- What `Init` is to leave in use: all of it, or at most the port, which nothing closes.
abbrev pub left_in_use : Answers → InUse
left_in_use a =
    if ready a
    then record { winsock = 1; sockets = 1; ports = 1 }
    else record unused { ports = if has_port a then 1 else 0 }

-- What `Init` leaves in use for given answers.
abbrev Balanced : Answers → Type 0
Balanced a =
    let (calls, p) = init a constructed in
    (use_of a calls unused ≡ left_in_use a) × (p.server_on ≡ true)

abbrev answers : Bool → Option ℕ → Bool → Bool → Option ℕ → Bool → Option ℕ → Answers
answers started socket bound listening port associated accept_ex = record {
  started = started;
  socket = socket;
  bound = bound;
  listening = listening;
  port = port;
  associated = associated;
  accept_ex = accept_ex;
}

init-Balanced :
    (started : Bool) (socket : Option ℕ) (bound listening : Bool) (port : Option ℕ)
    (associated : Bool) (accept_ex : Option ℕ)
    → Balanced (answers started socket bound listening port associated accept_ex)
unfolding init
init-Balanced false socket bound listening port associated accept_ex = (refl, refl)
init-Balanced true none bound listening port associated accept_ex = (refl, refl)
init-Balanced true (some s) false listening port associated accept_ex = (refl, refl)
init-Balanced true (some s) true false port associated accept_ex = (refl, refl)
init-Balanced true (some s) true true none associated accept_ex = (refl, refl)
init-Balanced true (some s) true true (some h) false accept_ex = (refl, refl)
init-Balanced true (some s) true true (some h) true none = (refl, refl)
init-Balanced true (some s) true true (some h) true (some f) = (refl, refl)

-- `Init` on a new port ends with Winsock started, one socket and one completion port open if every
-- step up to the association of the listening socket succeeds. Otherwise Winsock is stopped and no
-- socket is open, but the completion port is left open where the association is what failed, as
-- nothing closes it. In each case the server is marked as on.
pub init_left :
    (a : Answers)
    → let (calls, p) = init a constructed in
      (use_of a calls unused ≡ left_in_use a) × (p.server_on ≡ true)
init_left a = init-Balanced a.started a.socket a.bound a.listening a.port a.associated a.accept_ex
