-- ===== src/EventLoop/Consume.antt =====
-- event_loop.cpp: `consume_fd` in the build without TLS_REQUESTS, which reads a descriptor until
-- nothing is left. What `recv` gives, one call after the other, is an argument.
use anonym_sharing.Base.{
  ℕ, Bool, true, false, List, [], ◌∷◌, ◌++◌, Option, none, some, ◌≡◌, refl, sym, ap, ◌∙◌,
}
use mathlib.Core.List.{append-nil, append_assoc}
use anonym_sharing.Std.Order.{Bytes}

-- The errno of a call that failed.
pub data Errno : Type 0 where
  eagain ebadf econnreset other : Errno

-- At least one byte, the end of the stream, or an error.
pub data Recv : Type 0 where
  got : ℕ → Bytes → Recv
  eof : Recv
  failed : Errno → Recv

-- The message, and whether the descriptor was closed and a warning printed.
pub record Consumed : Type 0 where
  pub msg : Bytes
  pub closed : Bool
  pub warned : Bool

-- if (sz < 0) { ... }
unfoldable pub after_error : Errno → Bytes → Consumed
after_error eagain msg = record { msg = msg; closed = false; warned = false }
after_error ebadf msg = record { msg = msg; closed = false; warned = false }
after_error econnreset msg = record { msg = msg; closed = true; warned = false }
after_error other msg = record { msg = msg; closed = false; warned = true }

-- `none` is a call that still waits for its next read.
unfoldable pub consume_fd : List Recv → Bytes → Option Consumed
unfolding after_error
consume_fd [] msg = none
consume_fd (got b bs ∷ reads) msg = consume_fd reads (msg ++ b ∷ bs)
consume_fd (eof ∷ reads) msg = some (record { msg = msg; closed = true; warned = false })
consume_fd (failed e ∷ reads) msg = some (after_error e msg)

abbrev pub arrivals : List (ℕ × Bytes) → List Recv
arrivals [] = []
arrivals ((b, bs) ∷ cs) = got b bs ∷ arrivals cs

abbrev pub joined : List (ℕ × Bytes) → Bytes
joined [] = []
joined ((b, bs) ∷ cs) = (b ∷ bs) ++ joined cs

-- The chunks gather in the message, whatever follows.
consume_fd-arrivals :
    (cs : List (ℕ × Bytes)) (reads : List Recv) (msg : Bytes)
    → consume_fd (arrivals cs ++ reads) msg ≡ consume_fd reads (msg ++ joined cs)
unfolding consume_fd
consume_fd-arrivals [] reads msg = ap (consume_fd reads) (sym (append-nil msg))
consume_fd-arrivals ((b, bs) ∷ cs) reads msg =
    consume_fd-arrivals cs reads (msg ++ b ∷ bs)
    ∙ ap (consume_fd reads) (append_assoc msg (b ∷ bs) (joined cs))

-- A peer that is gone: the end of the stream, or a reset.
abbrev pub is_gone : Option Errno → Bool
is_gone none = true
is_gone (some econnreset) = true
is_gone (some _) = false

abbrev pub ending : Option Errno → Recv
ending none = eof
ending (some e) = failed e

-- However the reads end, the call ends with them; the message has what came before in order, after
-- what it had, and the descriptor is closed exactly if the peer is gone.
pub consume_fd_ends :
    (cs : List (ℕ × Bytes)) (e : Option Errno) (reads : List Recv) (msg : Bytes)
    → (c : Consumed) × (consume_fd (arrivals cs ++ ending e ∷ reads) msg ≡ some c)
      × (c.msg ≡ msg ++ joined cs)
      × (c.closed ≡ is_gone e)
unfolding consume_fd after_error
consume_fd_ends cs none reads msg = (_, consume_fd-arrivals cs (eof ∷ reads) msg, refl, refl)
consume_fd_ends cs (some eagain) reads msg =
    (_, consume_fd-arrivals cs (failed eagain ∷ reads) msg, refl, refl)
consume_fd_ends cs (some ebadf) reads msg =
    (_, consume_fd-arrivals cs (failed ebadf ∷ reads) msg, refl, refl)
consume_fd_ends cs (some econnreset) reads msg =
    (_, consume_fd-arrivals cs (failed econnreset ∷ reads) msg, refl, refl)
consume_fd_ends cs (some other) reads msg =
    (_, consume_fd-arrivals cs (failed other ∷ reads) msg, refl, refl)
