-- ===== src/Tests/Connections.antt =====
-- The theorems on the TLS connections, at a table with one connection.
use anonym_sharing.Base.{
  subst, if◌then◌else◌, ◌==◌, ℕ, ◌≡◌, refl, true, false, [], ◌∷◌, ◌++◌, some, none, pos, negsuc,
}
use anonym_sharing.Std.Order.{nat_order}
use anonym_sharing.Std.Map.{find, insert}
use anonym_sharing.Tls.{
  Connection, Tls, SslError, none_, want_write, got, eof, add_connection, get_connection,
  ecall_tls_recv, close_effects, send, closes, frees_ssl, reads_ssl,
}
use anonym_sharing.Tls.Table.{
  IsValid, add_connection-IsValid, add_connection_accepted, add_connection_refused, released,
}
use anonym_sharing.Tls.Receive.{ecall_tls_recv_closed}

abbrev peer : Connection
peer = record { fd_ = some 4; ssl_ = some 0 }

abbrev one : Tls
one = record { ssl_ctx = true; connection_table = (4, peer) ∷ []; next_ssl = 1; log = [] }

abbrev bare : Tls
bare = record { ssl_ctx = true; connection_table = []; next_ssl = 0; log = [] }

bare-IsValid : IsValid bare
unfolding find
bare-IsValid = record { sorted = tt; entry = λ fd c e. cc }

one_made : (add_connection 4 true bare).1 ≡ one
unfolding add_connection find insert
one_made = refl

one-IsValid : IsValid one
one-IsValid = subst IsValid one_made (add_connection-IsValid 4 true bare bare-IsValid)

add_connection_accepted_example :
    let r = add_connection 5 true one in
    (r.0 ≡ pos 0)
    × (get_connection 5 r.1 ≡ some (record { fd_ = some 5; ssl_ = some 1 }))
    × (r.1.log ≡ [] ++ released (find 5 one.connection_table))
add_connection_accepted_example = add_connection_accepted 5 one refl

add_connection_refused_example :
    let r = add_connection 5 false one in
    (r.0 ≡ negsuc 1)
    × (get_connection 5 r.1 ≡ none)
    × (r.1.log
        ≡ ([] ++ released (find 5 one.connection_table))
          ++ (frees_ssl 1 ∷ reads_ssl 1 ∷ closes 5 ∷ []))
add_connection_refused_example = add_connection_refused 5 one refl

ecall_tls_recv_closed_example :
    let h = ecall_tls_recv 4 (got 71 [] ∷ eof ∷ []) one in
    (h.result ≡ some (negsuc 1))
    × (h.chunks ≡ (71 ∷ []) ∷ [])
    × (get_connection 4 h.tls ≡ none)
    × (h.tls.log ≡ [] ++ close_effects peer)
unfolding get_connection find
ecall_tls_recv_closed_example = ecall_tls_recv_closed 4 peer ((71, []) ∷ []) [] one refl

-- The peer is ready at the third attempt.
abbrev third : ℕ → SslError
third n = if n == 3 then none_ else want_write

send-third : send third ≡ (pos 0, 3)
unfolding send
send-third = refl
