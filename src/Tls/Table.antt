-- ===== src/Tls/Table.antt =====
-- The table of connections: what it holds, and which descriptors are closed.
use anonym_sharing.Base.{
  if_ind, is_some, ℕ, suc, ◌≡◌, refl, sym, ap, subst, Bool, true, false, List, [], ◌∷◌, ◌++◌, none,
  some, Option, ℤ, pos, negsuc, arith, inl, inr, ◌⊎◌, is_some, Option-cases,
}
use mathlib.Core.List.{append-nil}
use anonym_sharing.Std.Order.{nat_order, cmp_ℕ_refl}
use anonym_sharing.Std.Map.{
  find, IsSorted, find-insert, find-insert_cases, find-erase, insert-IsSorted, erase-IsSorted,
}
use anonym_sharing.Tls.{
  reads_ssl, Read, got, eof, failed, recv, Connection, Tls, closed, Effect, frees_ssl, closes,
  close_effects, insert_connection, erase_connection, add_connection, handshake, get_connection,
  remove_connection, finish,
}

-- An entry under a descriptor is that descriptor's live connection, or one that was closed.
abbrev pub IsEntry : ℕ → Connection → Type 0
IsEntry fd c = ((c.fd_ ≡ some fd) × (is_some c.ssl_ ≡ true)) ⊎ ((c.fd_ ≡ none) × (c.ssl_ ≡ none))

pub record IsValid (s : Tls) : Type 0 where
  pub sorted : IsSorted s.connection_table
  pub entry : (fd : ℕ) (c : Connection) → find fd s.connection_table ≡ some c → IsEntry fd c

erase-IsValid : (fd : ℕ) (s : Tls) → IsValid s → IsValid (erase_connection fd s)
unfolding erase_connection
erase-IsValid fd s v = elim (Option-cases (find fd s.connection_table)) [
  | inl e ↦ rw (e, erase_connection) v
  | inr (c, e) ↦
      rw (e, erase_connection)
        (record {
          sorted = erase-IsSorted fd s.connection_table v.sorted;
          entry = λ k d f. ground (arith, find-erase fd k s.connection_table, v.entry k d);
        })
]

insert-IsValid :
    (fd : ℕ) (c : Connection) (s : Tls)
    → IsEntry fd c
    → IsValid s
    → IsValid (insert_connection fd c s)
unfolding insert_connection
insert-IsValid fd c s i v = elim (Option-cases (find fd s.connection_table)) [
  | inr (old, e) ↦ rw (e, insert_connection) (record { sorted = v.sorted; entry = v.entry })
  | inl e ↦
      rw (e, insert_connection)
        (record {
          sorted = insert-IsSorted fd c s.connection_table v.sorted;
          entry = λ k d f. elim (find-insert_cases fd k c d s.connection_table f) [
            | inl (p, q) ↦ subst (λ n. IsEntry n d) p (subst (IsEntry fd) q i)
            | inr g ↦ v.entry k d g
          ];
        })
]

-- A new connection, accepted or not, keeps the table valid.
pub add_connection-IsValid :
    (fd : ℕ) (accepted : Bool) (s : Tls) → IsValid s → IsValid (add_connection fd accepted s).1
unfolding add_connection
add_connection-IsValid fd accepted s v =
    if_ind (λ (r : ℤ × Tls). IsValid r.1) s.ssl_ctx (shake accepted) v
  where
    fresh : Tls
    fresh = record (erase_connection fd s) { next_ssl = suc s.next_ssl }

    fresh-IsValid : IsValid fresh
    fresh-IsValid = record {
      sorted = (erase-IsValid fd s v).sorted;
      entry = (erase-IsValid fd s v).entry;
    }

    shake : (b : Bool) → IsValid (handshake fd s.next_ssl b fresh).1
    shake true = insert-IsValid fd _ fresh (inl (refl, refl)) fresh-IsValid
    shake false = record { sorted = fresh-IsValid.sorted; entry = fresh-IsValid.entry }

pub remove_connection-IsValid : (fd : ℕ) (s : Tls) → IsValid s → IsValid (remove_connection fd s).1
unfolding remove_connection
remove_connection-IsValid fd s v = elim (Option-cases (find fd s.connection_table)) [
  | inl e ↦ rw (e, remove_connection) v
  | inr (c, e) ↦ rw (e, remove_connection) (erase-IsValid fd s v)
]

pub recv-IsValid :
    (fd : ℕ) (c : Connection) (r : Read) (s : Tls) → IsValid s → IsValid (recv fd c r s).1
unfolding recv
recv-IsValid fd c (got b bs) s v = v
recv-IsValid fd c eof s v = record {
  sorted = insert-IsSorted fd closed s.connection_table v.sorted;
  entry = λ k d f. elim (find-insert_cases fd k closed d s.connection_table f) [
    | inl (p, q) ↦ inr (ap (λ x. x.fd_) (sym q), ap (λ x. x.ssl_) (sym q))
    | inr g ↦ v.entry k d g
  ];
}
recv-IsValid fd c (failed e) s v = v

abbrev live : ℕ → ℕ → Connection
live fd h = record { fd_ = some fd; ssl_ = some h }

-- What the destructor of an entry releases, if there is an entry.
abbrev pub released : Option Connection → List Effect
released none = []
released (some c) = close_effects c

pub erase_connection_log :
    (fd : ℕ) (s : Tls)
    → (erase_connection fd s).log ≡ s.log ++ released (find fd s.connection_table)
unfolding erase_connection
erase_connection_log fd s = elim (Option-cases (find fd s.connection_table)) [
  | inl e ↦ rw (e, erase_connection) (sym (append-nil s.log))
  | inr (c, e) ↦ rw (e, erase_connection)
]

erase_connection_ctx : (fd : ℕ) (s : Tls) → (erase_connection fd s).ssl_ctx ≡ s.ssl_ctx
unfolding erase_connection
erase_connection_ctx fd s = ground arith

pub erase_connection_gone :
    (fd : ℕ) (s : Tls) → find fd (erase_connection fd s).connection_table ≡ none
unfolding erase_connection
erase_connection_gone fd s = elim (Option-cases (find fd s.connection_table)) [
  | inl e ↦ rw (e, erase_connection) e
  | inr (c, e) ↦
      rw (e, erase_connection) (ground (arith, find-erase fd fd s.connection_table, cmp_ℕ_refl fd))
]

-- When the handshake succeeds the result is 0, the descriptor has a new live connection, and what
-- was released on the way is what the entry that the descriptor had before still held: nothing,
-- where there was none or where it had been closed.
pub add_connection_accepted :
    (fd : ℕ) (s : Tls)
    → s.ssl_ctx ≡ true
    → let r = add_connection fd true s in
      (r.0 ≡ pos 0)
      × (get_connection fd r.1 ≡ some (live fd s.next_ssl))
      × (r.1.log ≡ s.log ++ released (find fd s.connection_table))
unfolding add_connection get_connection
add_connection_accepted fd s ctx = (
  ground arith,
  ground (
    arith,
    find-insert fd fd (live fd s.next_ssl) (erase_connection fd s).connection_table,
    cmp_ℕ_refl fd,
    erase_connection_gone fd s,
  ),
  ground (
    arith,
    erase_connection_log fd s,
    erase_connection_gone fd s,
    append-nil (erase_connection fd s).log,
  ),
)

-- When the handshake fails the result is -2, the descriptor has no connection, the new SSL object
-- is freed and the descriptor closed; in between, the freed object is read for the message.
pub add_connection_refused :
    (fd : ℕ) (s : Tls)
    → s.ssl_ctx ≡ true
    → let r = add_connection fd false s in
      (r.0 ≡ negsuc 1)
      × (get_connection fd r.1 ≡ none)
      × (r.1.log
          ≡ (s.log ++ released (find fd s.connection_table))
            ++ (frees_ssl s.next_ssl ∷ reads_ssl s.next_ssl ∷ closes fd ∷ []))
unfolding add_connection get_connection
add_connection_refused fd s ctx = (
  ground arith,
  ground (arith, erase_connection_gone fd s),
  ground (arith, erase_connection_log fd s),
)

-- `finish` empties the table and releases what each connection of it still held, in the order of
-- the descriptors; a second `finish` releases nothing.
pub finish_twice :
    (s : Tls) → (finish s).connection_table ≡ [] × ((finish (finish s)).log ≡ (finish s).log)
unfolding finish
finish_twice s = (refl, append-nil _)
