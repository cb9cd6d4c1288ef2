-- ===== src/Tls/Shutdown.antt =====
-- IncomeSSLConnection::finish of tls_config.cpp: how often each descriptor is closed.
use anonym_sharing.Base.{
  ℕ, ◌+◌, ◌==◌, ◌≡◌, refl, arith, List, [], ◌∷◌, ◌++◌, none, some, is_some, if◌then◌else◌,
}
use anonym_sharing.Std.Order.{nat_order, cmp_ℕ_refl}
use anonym_sharing.Std.Map.{Map, find, IsSorted, Above, find-Above}
use anonym_sharing.Tls.{
  Effect, frees_ssl, reads_ssl, closes, Connection, Tls, close_effects, close_all, finish,
}
use anonym_sharing.Tls.Table.{IsEntry, IsValid}

-- How often the log closes a descriptor.
unfoldable pub closings : ℕ → List Effect → ℕ
closings fd [] = 0
closings fd (closes n ∷ es) = (if fd == n then 1 else 0) + closings fd es
closings fd (frees_ssl n ∷ es) = closings fd es
closings fd (reads_ssl n ∷ es) = closings fd es

closings-append :
    (fd : ℕ) (xs ys : List Effect) → closings fd (xs ++ ys) ≡ closings fd xs + closings fd ys
unfolding closings
closings-append fd [] ys = omega arith
closings-append fd (closes n ∷ xs) ys = omega (arith, closings-append fd xs ys)
closings-append fd (frees_ssl n ∷ xs) ys = closings-append fd xs ys
closings-append fd (reads_ssl n ∷ xs) ys = closings-append fd xs ys

abbrev is_open : Connection → ℕ
is_open c = if is_some c.fd_ then 1 else 0

-- 1 if the table has an open connection under the descriptor, else 0.
abbrev pub live : ℕ → Map ℕ Connection → ℕ
live fd m = elim (find fd m) [ none ↦ 0 | some c ↦ is_open c ]

closings-close_effects :
    (fd k : ℕ) (c : Connection)
    → IsEntry k c
    → closings fd (close_effects c) ≡ (if fd == k then is_open c else 0)
unfolding closings close_effects
closings-close_effects fd k c v = ground (arith, v)

tail-IsEntry :
    (k : ℕ) (c : Connection) (m : Map ℕ Connection)
    → Above k m
    → ((j : ℕ) (d : Connection) → find j ((k, c) ∷ m) ≡ some d → IsEntry j d)
    → (j : ℕ) (d : Connection) → find j m ≡ some d
    → IsEntry j d
unfolding find
tail-IsEntry k c m a v j d e = v j d (ground (arith, e, find-Above k m a))

closings-close_all :
    (fd : ℕ) (m : Map ℕ Connection)
    → IsSorted m
    → ((k : ℕ) (c : Connection) → find k m ≡ some c → IsEntry k c)
    → closings fd (close_all m) ≡ live fd m
unfolding close_all find
closings-close_all fd [] s v = unfold closings in refl
closings-close_all fd ((k, c) ∷ m) s v =
    let own = closings-close_effects fd k c (v k c (ground (arith, cmp_ℕ_refl k))) in
    let rest = closings-close_all fd m s.1 (tail-IsEntry k c m s.0 v) in
    let none_there = find-Above k m s.0 in
    ground (arith, own, rest, none_there, closings-append fd (close_effects c) (close_all m))

-- After `finish` the table is empty, and each descriptor with an open connection in it has been closed
-- exactly once more, and no other.
pub finish_closes :
    (s : Tls) (fd : ℕ)
    → IsValid s
    → ((finish s).connection_table ≡ [])
      × (closings fd (finish s).log ≡ closings fd s.log + live fd s.connection_table)
unfolding finish
finish_closes s fd v = (
  refl,
  omega (
    arith,
    closings-append fd s.log (close_all s.connection_table),
    closings-close_all fd s.connection_table v.sorted v.entry,
  ),
)
