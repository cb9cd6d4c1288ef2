-- ===== src/Tls/Receive.antt =====
-- `ecall_tls_recv`: what one call does to the connection and what it delivers.
use anonym_sharing.Base.{
  ℕ, ◌≡◌, ◌≢◌, refl, List, [], ◌∷◌, ◌++◌, none, some, pos, negsuc, arith, Option-cases, inl, inr,
}
use mathlib.Core.List.{append-nil}
use anonym_sharing.Tls.Table.{erase_connection_log, erase_connection_gone}
use anonym_sharing.Std.Order.{Bytes, nat_order, cmp_ℕ_refl}
use anonym_sharing.Std.Map.{find, find-insert}
use anonym_sharing.Tls.{
  Connection, Tls, SslError, Read, got, eof, failed, recv, recv_loop, ecall_tls_recv,
  get_connection, remove_connection, close_effects, closed,
}

-- A chunk is its first byte and the rest.
abbrev pub arrivals : List (ℕ × Bytes) → List Read
arrivals [] = []
arrivals ((b, bs) ∷ cs) = got b bs ∷ arrivals cs

abbrev pub contents : List (ℕ × Bytes) → List Bytes
contents [] = []
contents ((b, bs) ∷ cs) = (b ∷ bs) ∷ contents cs

-- The chunks before an end of the loop go to `process_input`, and leave the table alone.
recv_loop-arrivals :
    (fd : ℕ) (c : Connection) (cs : List (ℕ × Bytes)) (reads : List Read) (s : Tls)
    → recv_loop fd c (arrivals cs ++ reads) s
      ≡ (let rest = recv_loop fd c reads s in record rest { chunks = contents cs ++ rest.chunks })
unfolding recv_loop
recv_loop-arrivals fd c [] reads s = refl
recv_loop-arrivals fd c ((b, bs) ∷ cs) reads s = ground (arith, recv_loop-arrivals fd c cs reads s)

removed-eof :
    (fd : ℕ) (c : Connection) (s : Tls)
    → let t = (recv fd c eof s).1 in
      (find fd (remove_connection fd t).1.connection_table ≡ none)
      × ((remove_connection fd t).1.log ≡ s.log ++ close_effects c)
unfolding recv remove_connection close_effects
removed-eof fd c s =
    let t = (recv fd c eof s).1 in
    let here = find-insert fd fd closed s.connection_table in
    (
      ground (arith, here, cmp_ℕ_refl fd, erase_connection_gone fd t),
      ground (
        arith,
        here,
        cmp_ℕ_refl fd,
        erase_connection_log fd t,
        append-nil (s.log ++ close_effects c),
      ),
    )

-- When the peer closes after any number of chunks, the call delivers the chunks in order, returns
-- -2, has released the connection's SSL object and descriptor once, and the table has no entry.
pub ecall_tls_recv_closed :
    (fd : ℕ) (c : Connection) (cs : List (ℕ × Bytes)) (reads : List Read) (s : Tls)
    → get_connection fd s ≡ some c
    → let h = ecall_tls_recv fd (arrivals cs ++ eof ∷ reads) s in
      (h.result ≡ some (negsuc 1))
      × (h.chunks ≡ contents cs)
      × (get_connection fd h.tls ≡ none)
      × (h.tls.log ≡ s.log ++ close_effects c)
unfolding ecall_tls_recv get_connection recv_loop
ecall_tls_recv_closed fd c cs reads s e =
    let split = recv_loop-arrivals fd c cs (eof ∷ reads) s in
    let (gone, log) = removed-eof fd c s in
    (
      ground (arith, split),
      ground (arith, split, append-nil (contents cs)),
      ground (arith, split, gone),
      ground (arith, split, log),
    )

-- An error of the read, such as a read that would block, ends the call with -4 after the chunks;
-- the connection stays as it was.
pub ecall_tls_recv_failed :
    (fd : ℕ) (c : Connection) (cs : List (ℕ × Bytes)) (x : SslError) (reads : List Read) (s : Tls)
    → get_connection fd s ≡ some c
    → let h = ecall_tls_recv fd (arrivals cs ++ failed x ∷ reads) s in
      (h.result ≡ some (negsuc 3)) × (h.chunks ≡ contents cs) × (h.tls ≡ s)
unfolding ecall_tls_recv get_connection recv_loop
ecall_tls_recv_failed fd c cs x reads s e =
    let split = recv_loop-arrivals fd c cs (failed x ∷ reads) s in
    (ground (arith, split), ground (arith, split, append-nil (contents cs)), ground (arith, split))

recv_loop-ne-zero :
    (fd : ℕ) (c : Connection) (reads : List Read) (s : Tls)
    → (recv_loop fd c reads s).result ≢ some (pos 0)
unfolding recv_loop
recv_loop-ne-zero fd c [] s = λ e. cc
recv_loop-ne-zero fd c (got b bs ∷ reads) s = recv_loop-ne-zero fd c reads s
recv_loop-ne-zero fd c (eof ∷ reads) s = λ e. ground arith
recv_loop-ne-zero fd c (failed x ∷ reads) s = λ e. ground arith

-- The call never returns 0: the loop ends by an exception only.
pub ecall_tls_recv-ne-zero :
    (fd : ℕ) (reads : List Read) (s : Tls) → (ecall_tls_recv fd reads s).result ≢ some (pos 0)
unfolding ecall_tls_recv
ecall_tls_recv-ne-zero fd reads s = elim (Option-cases (find fd s.connection_table)) [
  | inl e ↦ λ z. ground arith
  | inr (c, e) ↦ rw (e, ecall_tls_recv) (recv_loop-ne-zero fd c reads s)
]
