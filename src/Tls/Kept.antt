-- ===== src/Tls/Kept.antt =====
-- tls_config.cpp: the table of connections is kept by `ecall_tls_recv`, `init` and `finish`.
use anonym_sharing.Base.{ℕ, List, [], ◌∷◌, Option-cases, inl, inr}
use anonym_sharing.Std.Map.{find}
use anonym_sharing.Tls.{
  Tls, Connection, Read, got, eof, failed, recv_loop, ecall_tls_recv, finish, init, initial,
  catch_recv, get_connection,
}
use anonym_sharing.Tls.Table.{IsValid, remove_connection-IsValid, recv-IsValid}

recv_loop-IsValid :
    (fd : ℕ) (c : Connection) (reads : List Read) (s : Tls)
    → IsValid s
    → IsValid (recv_loop fd c reads s).tls
unfolding recv_loop catch_recv
recv_loop-IsValid fd c [] s v = v
recv_loop-IsValid fd c (got b bs ∷ reads) s v = recv_loop-IsValid fd c reads s v
recv_loop-IsValid fd c (eof ∷ reads) s v =
    remove_connection-IsValid fd _ (recv-IsValid fd c eof s v)
recv_loop-IsValid fd c (failed e ∷ reads) s v = recv-IsValid fd c (failed e) s v

pub ecall_tls_recv-IsValid :
    (fd : ℕ) (reads : List Read) (s : Tls) → IsValid s → IsValid (ecall_tls_recv fd reads s).tls
unfolding ecall_tls_recv
ecall_tls_recv-IsValid fd reads s v = elim (Option-cases (get_connection fd s)) [
  | inl e ↦ rw (e, ecall_tls_recv) v
  | inr (c, e) ↦ rw (e, ecall_tls_recv) (recv_loop-IsValid fd c reads s v)
]

pub init-IsValid : (s : Tls) → IsValid s → IsValid (init s)
unfolding init
init-IsValid s v = record { sorted = v.sorted; entry = v.entry }

pub finish-IsValid : (s : Tls) → IsValid (finish s)
unfolding finish find
finish-IsValid s = record { sorted = tt; entry = λ fd c e. cc }

pub initial-IsValid : IsValid initial
unfolding find
initial-IsValid = record { sorted = tt; entry = λ fd c e. cc }
