-- ===== src/Tls.antt =====
-- anonymBE/src/enclave/tls_config.h and tls_config.cpp: the table of TLS connections. The effects
-- on the OpenSSL library and on the descriptors are a log, oldest first; what SSL_accept, SSL_read
-- and SSL_write answer are arguments.
pub mod Table
pub mod Context
pub mod Shutdown
pub mod Kept
pub mod Receive
pub mod Send
use anonym_sharing.Base.{
  ℕ, zero, suc, ◌-◌, String, Bool, true, false, List, [], ◌∷◌, ◌++◌, none, some, Option, ℤ, pos,
  negsuc, if◌then◌else◌,
}
use anonym_sharing.Std.Order.{Bytes, nat_order}
use anonym_sharing.Std.Map.{Map, find, insert, erase}

-- The codes of SSL_get_error.
pub data SslError : Type 0 where
  none_ ssl want_read want_write want_x509_lookup syscall zero_return want_connect want_accept :
      SslError
  other : SslError

pub err_str : SslError → String
err_str none_ = "SSL_ERROR_NONE"
err_str ssl = "SSL_ERROR_SSL"
err_str want_read = "SSL_ERROR_WANT_READ"
err_str want_write = "SSL_ERROR_WANT_WRITE"
err_str want_x509_lookup = "SSL_ERROR_WANT_X509_LOOKUP"
err_str syscall = "SSL_ERROR_SYSCALL"
err_str zero_return = "SSL_ERROR_ZERO_RETURN"
err_str want_connect = "SSL_ERROR_WANT_CONNECT"
err_str want_accept = "SSL_ERROR_WANT_ACCEPT"
err_str other = "UNKKNOWN"

-- `reads_ssl` is a call that reads the SSL object, as `err_str` does through SSL_get_error.
pub data Effect : Type 0 where
  frees_ssl reads_ssl closes : ℕ → Effect

-- `none` is the descriptor -1, and the null pointer.
pub record Connection : Type 0 where
  pub fd_ : Option ℕ
  pub ssl_ : Option ℕ

pub record Tls : Type 0 where
  pub ssl_ctx : Bool
  pub connection_table : Map ℕ Connection
  pub next_ssl : ℕ
  pub log : List Effect

-- The table before `init`.
abbrev pub initial : Tls
initial = record { ssl_ctx = false; connection_table = []; next_ssl = 0; log = [] }

abbrev pub effect_of : (ℕ → Effect) → Option ℕ → List Effect
effect_of f none = []
effect_of f (some n) = f n ∷ []

-- close(): the effects, and the connection after them. The destructor has the same effects.
unfoldable pub close_effects : Connection → List Effect
close_effects c = effect_of frees_ssl c.ssl_ ++ effect_of closes c.fd_

abbrev pub closed : Connection
closed = record { fd_ = none; ssl_ = none }

unfoldable pub close : Connection → List Effect × Connection
unfolding close_effects
close c = (close_effects c, closed)

-- The move constructor: the new connection, and what is left of the old one.
unfoldable pub move : Connection → Connection × Connection
move c = (c, closed)

-- The move assignment: the effects, the target and what is left of the source.
unfoldable pub assign : Connection → Connection → List Effect × Connection × Connection
unfolding close_effects
assign target source = (close_effects target, source, closed)

unfoldable pub init : Tls → Tls
init s = record s { ssl_ctx = true }

-- connection_table.erase(fd), with the destructor of the erased connection.
unfoldable pub erase_connection : ℕ → Tls → Tls
unfolding close_effects
erase_connection fd s = elim (find fd s.connection_table) [
  | none ↦ s
  | some c ↦ record s {
    connection_table = erase fd s.connection_table;
    log = s.log ++ close_effects c;
  }
]

-- make_pair moves the temporary, the table moves the pair, and both husks are destroyed. An entry
-- that is there stays, and the pair is destroyed with its connection.
unfoldable pub insert_connection : ℕ → Connection → Tls → Tls
unfolding move close_effects
insert_connection fd c s =
    let (pair, temporary) = move c in
    let (node, husk) = move pair in
    elim (find fd s.connection_table) [
      | none ↦ record s {
        connection_table = insert fd node s.connection_table;
        log = s.log ++ (close_effects husk ++ close_effects temporary);
      }
      | some old ↦ record s { log = s.log ++ (close_effects pair ++ close_effects temporary) }
    ]

-- The handshake after SSL_new has given handle `cli`; `accepted` is SSL_accept(cli) > 0.
unfoldable pub handshake : ℕ → ℕ → Bool → Tls → ℤ × Tls
unfolding insert_connection
handshake fd cli true s =
    (pos 0, insert_connection fd (record { fd_ = some fd; ssl_ = some cli }) s)
handshake fd cli false s =
    (negsuc 1, record s { log = s.log ++ (frees_ssl cli ∷ reads_ssl cli ∷ closes fd ∷ []) })

unfoldable pub add_connection : ℕ → Bool → Tls → ℤ × Tls
unfolding erase_connection handshake
add_connection fd accepted s =
    if s.ssl_ctx
    then handshake fd s.next_ssl accepted
        (record (erase_connection fd s) { next_ssl = suc s.next_ssl })
    else (negsuc 0, s)

-- enum Exceptions
pub data Exceptions : Type 0 where
  no_error not_found connection_closed : Exceptions

unfoldable pub get_connection : ℕ → Tls → Option Connection
get_connection fd s = find fd s.connection_table

-- `false` is the exception NOT_FOUND.
unfoldable pub remove_connection : ℕ → Tls → Bool × Tls
unfolding erase_connection
remove_connection fd s = elim (find fd s.connection_table) [
  | none ↦ (false, s)
  | some c ↦ (true, erase_connection fd s)
]

unfoldable pub close_all : Map ℕ Connection → List Effect
unfolding close_effects
close_all [] = []
close_all ((fd, c) ∷ m) = close_effects c ++ close_all m

-- The loop closes each connection; the destructors that `clear` runs find them closed.
unfoldable pub finish : Tls → Tls
unfolding close_all
finish s = record s { connection_table = []; log = s.log ++ close_all s.connection_table }

-- What SSL_read gives: at least one byte, the end of the stream, or an error.
pub data Read : Type 0 where
  got : ℕ → Bytes → Read
  eof : Read
  failed : SslError → Read

-- What `recv` gives: bytes, CONNECTION_CLOSED, or a std::runtime_error.
pub data Received : Type 0 where
  bytes : Bytes → Received
  gone : Received
  runtime_error : String → Received

-- recv, on the connection of the table; a connection that is closed stays in the table.
unfoldable pub recv : ℕ → Connection → Read → Tls → Received × Tls
unfolding err_str close
recv fd c (got b bs) s = (bytes (b ∷ bs), s)
recv fd c eof s =
    let (effects, c') = close c in
    (gone, record s { connection_table = insert fd c' s.connection_table; log = s.log ++ effects })
recv fd c (failed e) s = (runtime_error (err_str e), s)

-- ssl_err == SSL_ERROR_WANT_WRITE
abbrev pub wants_write : SslError → Bool
wants_write want_write = true
wants_write _ = false

-- The loop of `send`: `write i` is what SSL_get_error says of attempt i. The result is 0 or -1, and
-- the number of attempts.
unfoldable pub send_loop : ℕ → ℕ → (ℕ → SslError) → SslError × ℕ
send_loop zero i write = (write i, i)
send_loop (suc left) i write =
    let again = send_loop left (suc i) write in
    if wants_write (write i) then again else (write i, i)

abbrev pub tries : ℕ
tries = 1000000

unfoldable pub send_result : SslError × ℕ → ℤ × ℕ
send_result (none_, i) = (pos 0, i)
send_result (e, i) = (negsuc 0, i)

unfoldable pub send : (ℕ → SslError) → ℤ × ℕ
unfolding send_loop send_result
send write = send_result (send_loop (tries - 1) 1 write)

-- How `ecall_tls_recv` ended: its result, what it gave to `process_input`, in order, and the table.
-- `none` is a call that still waits for its next read.
pub record Handled : Type 0 where
  pub result : Option ℤ
  pub chunks : List Bytes
  pub tls : Tls

-- The handlers of the exceptions. A connection that was closed is removed.
unfoldable pub catch_recv : ℕ → Received → Tls → ℤ × Tls
unfolding remove_connection
catch_recv fd gone s = (negsuc 1, (remove_connection fd s).1)
catch_recv fd _ s = (negsuc 3, s)

-- The loop over the reads; `recv` returns a positive count or throws, so only a throw ends it.
unfoldable pub recv_loop : ℕ → Connection → List Read → Tls → Handled
unfolding recv catch_recv
recv_loop fd c [] s = record { result = none; chunks = []; tls = s }
recv_loop fd c (got b bs ∷ reads) s =
    let rest = recv_loop fd c reads s in record rest { chunks = (b ∷ bs) ∷ rest.chunks }
recv_loop fd c (eof ∷ reads) s =
    let (r, t) = recv fd c eof s in
    let (code, u) = catch_recv fd r t in record { result = some code; chunks = []; tls = u }
recv_loop fd c (failed e ∷ reads) s =
    let (r, t) = recv fd c (failed e) s in
    let (code, u) = catch_recv fd r t in record { result = some code; chunks = []; tls = u }

unfoldable pub ecall_tls_recv : ℕ → List Read → Tls → Handled
unfolding recv_loop get_connection
ecall_tls_recv fd reads s = elim (get_connection fd s) [
  | none ↦ record { result = some (negsuc 0); chunks = []; tls = s }
  | some c ↦ recv_loop fd c reads s
]
