-- ===== src/Database/Keys.antt =====
-- The keys that an envelope is made for: `get_keys_of_group`.
use anonym_sharing.Base.{
  subst, ℕ, ◌-◌, ◌≡◌, ◌≢◌, refl, ap, String, true, none, some, arith, inl, inr, Option-cases, [],
  ◌∷◌, map, ok, length, take, replicate, length-append, length-take, length-replicate, eq_refl, All,
}
use anonym_sharing.Std.Order.{Bytes, string_order}
use anonym_sharing.Std.Map.{Map, Set, find}
use anonym_sharing.Database.{MemDatabase, has, key_size, fill_key, keys_of, get_keys_of_group}
use anonym_sharing.Database.Invariant.{IsValid}

-- What the array of a user's key holds; a user without one has the empty key.
abbrev pub key_of : Map String Bytes → String → Bytes
key_of users u = elim (find u users) [ none ↦ [] | some k ↦ k ]

-- A stored key of any length fills exactly one array of 32 bytes.
pub length-fill_key : (k : Bytes) → length (fill_key k) ≡ key_size
unfolding fill_key
length-fill_key k = omega (
  arith,
  length-append (take key_size k) (replicate (key_size - length k) 0),
  length-take key_size k,
  length-replicate {A = ℕ} (key_size - length k) 0,
)

keys_of-eq-map :
    (users : Map String Bytes) (s : Set String)
    → ((u : String) → has u s ≡ true → has u users ≡ true)
    → keys_of users s ≡ map (λ e. fill_key (key_of users e.0)) s
unfolding keys_of find
keys_of-eq-map users [] known = refl
keys_of-eq-map users ((u, t) ∷ rest) known =
    ground (arith, known u, eq_refl u, keys_of-eq-map users rest (λ w m. known w (later w m)))
  where
    later : (w : String) → has w rest ≡ true → has w ((u, t) ∷ rest) ≡ true
    later w m = ground arith

pub length-keys :
    (users : Map String Bytes) (s : Set String) → All (λ k. length k ≡ key_size) (keys_of users s)
unfolding keys_of
length-keys users [] = tt
length-keys users ((u, t) ∷ rest) = elim (Option-cases (find u users)) [
  | inl e ↦ rw (e, keys_of) (length-keys users rest)
  | inr (k, e) ↦ rw (e, keys_of) (length-fill_key k, length-keys users rest)
]

-- In a valid database, the keys of a group with a member are those of all its members, in the
-- order of their names, one array of 32 bytes for each; no member is passed over.
pub get_keys_of_group_members :
    (g : String) (db : MemDatabase) (s : Set String)
    → IsValid db
    → find g db.groups ≡ some s
    → s ≢ []
    → ((get_keys_of_group g db).0 ≡ ok (map (λ e. fill_key (key_of db.users e.0)) s))
      × All (λ k. length k ≡ key_size) (map (λ e. fill_key (key_of db.users e.0)) s)
unfolding get_keys_of_group fill_key
get_keys_of_group_members g db [] v e h = absurd (h refl)
get_keys_of_group_members g db (m ∷ s) v e h =
    let all = keys_of-eq-map db.users (m ∷ s) (λ u k. v.closed g u (m ∷ s) e k) in
    (
      rw (e, get_keys_of_group) (ap ok all),
      subst (All (λ k. length k ≡ key_size)) all (length-keys db.users (m ∷ s)),
    )
