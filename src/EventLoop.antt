-- ===== src/EventLoop.antt =====
-- anonymBE/src/event_loop.cpp: the loop over epoll and the queue of descriptors that are ready, in
-- the build with TLS_REQUESTS. What the kernel answers to accept, fcntl, epoll_ctl and epoll_wait is
-- an argument.
pub mod Access
pub mod Consume
pub mod Drained
pub mod Exclusive
pub mod Heard
pub mod Ready
pub mod Rounds
pub mod Safety
pub mod Sharing
pub mod Shutdown
pub mod Threads
pub mod Trace
pub mod Uploads
use anonym_sharing.Base.{
  ℕ, zero, suc, ◌==◌, ◌<◌, String, ◌<>◌, Bool, true, false, List, [], ◌∷◌, ◌++◌, Option, none, some,
  ℤ, pos, negsuc, ◌≡◌, All, if◌then◌else◌, str_eq, not,
}
use anonym_sharing.Std.Text.{to_string}
use anonym_sharing.Tls.{Read}

-- exit_error and exit end the process with a code.
pub data Flow (A : Type 0) : Type 0 where
  continues : A → Flow A
  exits : ℕ → Flow A

-- What holds if the process goes on.
abbrev pub Continues : {A : Type 0} → (A → Type 0) → Flow A → Type 0
Continues P (continues a) = P a
Continues P (exits c) = Unit

-- The calls into the enclave, over its state E: `ecall_init`, which may end the process,
-- `ecall_tls_accept`, with the handshake's outcome, and `ecall_tls_recv`, with what the reads give;
-- `none` is a call that does not return.
pub record Ecalls (E : Type 0) : Type 0 where
  pub init : E → Flow (ℤ × E)
  pub tls_accept : ℕ → Bool → E → ℤ × E
  pub tls_recv : ℕ → List Read → E → Option (Option ℤ × E)

-- What they keep.
pub record EcallsLaws (E : Type 0) (ecalls : Ecalls E) : Type 1 where
  pub IsGood : E → Type 0
  pub init-IsGood : (e : E) → IsGood e → Continues (λ x. IsGood x.1) (ecalls.init e)
  pub accept-IsGood : (fd : ℕ) (b : Bool) (e : E) → IsGood e → IsGood (ecalls.tls_accept fd b e).1
  pub recv-IsGood :
      (fd : ℕ) (reads : List Read) (e : E) (r : Option ℤ) (e' : E)
      → IsGood e
      → ecalls.tls_recv fd reads e ≡ some (r, e')
      → IsGood e'

-- struct sockaddr_in: what inet_addr makes of the host, `none` for INADDR_ANY, and the port.
pub record Address : Type 0 where
  pub sin_addr : Option ℕ
  pub sin_port : ℕ

unfoldable pub set_listener : (String → ℕ) → (ℕ → ℕ) → String → ℕ → String × Address
set_listener inet_addr htons host port = (
  host <> ":" <> to_string port,
  record {
    sin_addr = if str_eq host "*" then none else some (inet_addr host);
    sin_port = htons port;
  },
)

unfoldable pub set_server : (String → ℕ) → (ℕ → ℕ) → String → ℕ → String × Address
set_server inet_addr htons host port = (
  host <> ":" <> to_string port,
  record { sin_addr = some (inet_addr host); sin_port = htons port },
)

-- `sock` is the new socket and `connected` the outcome of ::connect: the descriptor, and whether a
-- warning is printed.
unfoldable pub connect : ℕ → Bool → ℕ × Bool
connect sock connected = (sock, not connected)

-- EXIT_FAILURE
abbrev pub exit_failure : ℕ
exit_failure = 1

-- `epoll` has the descriptors that were added, and `nonblocking` those that were made so. `queued`
-- is the history of the queue: every descriptor that was pushed, oldest first.
pub record SocketEventLoop : Type 0 where
  pub listen_sock : Option ℕ
  pub epoll : List ℕ
  pub nonblocking : List ℕ
  pub iqueue : List ℕ
  pub queued : List ℕ

-- What the kernel does for one event of the listener: the socket of accept, the outcome of the
-- handshake, and whether the two calls of fcntl and epoll_ctl succeed.
pub record Answers : Type 0 where
  pub conn_sock : Option ℕ
  pub handshake : Bool
  pub flags_read : Bool
  pub flags_set : Bool
  pub added : Bool

pub record Event : Type 0 where
  pub fd : ℕ
  pub answers : Answers

unfoldable pub setnonblocking : ℕ → Answers → SocketEventLoop → Flow SocketEventLoop
setnonblocking sock a l =
    if a.flags_read
    then if a.flags_set
      then continues (record l { nonblocking = sock ∷ l.nonblocking })
      else exits 1
    else exits 1

unfoldable pub add_epoll : ℕ → Answers → SocketEventLoop → Flow SocketEventLoop
add_epoll fd a l =
    if a.added then continues (record l { epoll = fd ∷ l.epoll }) else exits exit_failure

-- `edge` is `events & EPOLLET`.
unfoldable pub addto_epoll : ℕ → Bool → Answers → SocketEventLoop → Flow SocketEventLoop
unfolding setnonblocking add_epoll
addto_epoll fd false a l = add_epoll fd a l
addto_epoll fd true a l = elim (setnonblocking fd a l) [
  | exits c ↦ exits c
  | continues l' ↦ add_epoll fd a l'
]

abbrev pub is_listener : ℕ → Option ℕ → Bool
is_listener fd none = false
is_listener fd (some sock) = fd == sock

-- iqueue_.push(fd)
abbrev pub push : ℕ → SocketEventLoop → SocketEventLoop
push fd l = record l { iqueue = l.iqueue ++ fd ∷ []; queued = l.queued ++ fd ∷ [] }

-- if (ret) continue;
unfoldable pub admit :
    {E : Type 0} → ℕ → Answers → SocketEventLoop → ℤ × E → Flow (SocketEventLoop × E)
unfolding addto_epoll
admit fd a l (pos zero, e) = elim (addto_epoll fd true a l) [
  | exits c ↦ exits c
  | continues l' ↦ continues (l', e)
]
admit fd a l (_, e) = continues (l, e)

module _ {E : Type 0} (ecalls : Ecalls E) where
  open ecalls use {tls_accept, tls_recv}

  unfoldable pub accept_client : Answers → SocketEventLoop × E → Flow (SocketEventLoop × E)
  unfolding admit
  accept_client a (l, e) = elim a.conn_sock [
    | none ↦ exits exit_failure
    | some fd ↦ admit fd a l (tls_accept fd a.handshake e)
  ]

  -- The body of the inner loop.
  unfoldable pub on_event : Event → SocketEventLoop × E → Flow (SocketEventLoop × E)
  unfolding accept_client
  on_event event (l, e) =
      if is_listener event.fd l.listen_sock
      then accept_client event.answers (l, e)
      else continues (push event.fd l, e)

  -- One round: the events that epoll_wait gives. Where it fails there are none, and the loop goes on.
  unfoldable pub on_events : List Event → SocketEventLoop × E → Flow (SocketEventLoop × E)
  unfolding on_event
  on_events [] s = continues s
  on_events (event ∷ events) s = elim (on_event event s) [
    | exits c ↦ exits c
    | continues s' ↦ on_events events s'
  ]

-- The constructor's loop.
abbrev pub unopened : SocketEventLoop
unopened = record { listen_sock = none; epoll = []; nonblocking = []; iqueue = []; queued = [] }

-- `created` is the outcome of epoll_create1.
unfoldable pub create_epoll : Bool → SocketEventLoop → Flow SocketEventLoop
create_epoll created l = if created then continues l else exits exit_failure

-- `sock` is the new socket, and `bound` the outcome of bind.
unfoldable pub bind_n_listen : ℕ → Bool → SocketEventLoop → Flow SocketEventLoop
bind_n_listen sock bound l =
    if bound then continues (record l { listen_sock = some sock }) else exits 1

-- The listener is not edge-triggered.
unfoldable pub open_listener : ℕ → Bool → Answers → SocketEventLoop → Flow SocketEventLoop
unfolding bind_n_listen addto_epoll
open_listener sock bound a l = elim (bind_n_listen sock bound l) [
  | exits c ↦ exits c
  | continues l' ↦ addto_epoll sock false a l'
]

-- The start of `event_loop`.
unfoldable pub start_loop : Bool → Bool → String → ℕ → Answers → Flow SocketEventLoop
unfolding create_epoll open_listener
start_loop created bound listendpoint sock a = elim (create_epoll created unopened) [
  | exits c ↦ exits c
  | continues l ↦ if str_eq listendpoint "" then continues l else open_listener sock bound a l
]

abbrev pub contains : ℕ → List ℕ → Bool
contains fd [] = false
contains fd (x ∷ xs) = if fd == x then true else contains fd xs
