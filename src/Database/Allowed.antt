-- ===== src/Database/Allowed.antt =====
-- When a call returns and when it throws, in terms of the abstract state.
use anonym_sharing.Base.{
  eq_refl, ◌≡◌, refl, String, Bool, true, false, none, some, arith, is_some, inl, inr, Option-cases,
  [], ◌∷◌, Result, ok, raise, ◌↔◌,
}
use anonym_sharing.Std.Order.{string_order}
use anonym_sharing.Std.Map.{Set, find}
use anonym_sharing.Database.{
  MemDatabase, add_user_to_group, create_user, create_group, delete_user, delete_all_data,
  is_user_part_of_group, remove_user_from_group, get_keys_of_group,
}
use anonym_sharing.Database.Calls.{
  Call, apply, adds_user_to_group, creates_user, creates_group, deletes_user, deletes_all_data,
  asks_membership, removes_user_from_group, gets_keys_of_group,
}
use anonym_sharing.Database.Spec.{Spec, view}

abbrev pub is_ok {ℓ} : {A : Type ℓ} → Result A → Bool
is_ok (ok a) = true
is_ok (raise e) = false

abbrev pub is_in : Spec → String → String → Bool
is_in a g u = elim (a.members g) [ none ↦ false | some p ↦ p u ]

-- A user can be added to a group if both exist and the user is no member; a group needs a new name
-- and a known first member; and so on. Deletions always succeed.
abbrev pub IsAllowed : Call → Spec → Type 0
IsAllowed (adds_user_to_group g u) a =
    (is_some (a.members g) ≡ true) × (is_some (a.key_of u) ≡ true) × (is_in a g u ≡ false)
IsAllowed (creates_user u k) a = is_some (a.key_of u) ≡ false
IsAllowed (creates_group g u) a = (is_some (a.members g) ≡ false) × (is_some (a.key_of u) ≡ true)
IsAllowed (deletes_user u) a = Unit {0}
IsAllowed deletes_all_data a = Unit {0}
IsAllowed (asks_membership u g) a = is_some (a.members g) ≡ true
IsAllowed (removes_user_from_group g u) a = (is_some (a.key_of u) ≡ true) × (is_in a g u ≡ true)
IsAllowed (gets_keys_of_group g) a = (u : String) × (is_in a g u ≡ true)

returns : (c : Call) (db : MemDatabase) → IsAllowed c (view db) → is_ok (apply c db).0 ≡ true
unfolding apply
returns (adds_user_to_group g u) db h = unfold add_user_to_group in ground arith
returns (creates_user u k) db h = unfold create_user in ground arith
returns (creates_group g u) db h = unfold create_group in ground arith
returns (deletes_user u) db h = unfold delete_user in refl
returns deletes_all_data db h = unfold delete_all_data in refl
returns (asks_membership u g) db h = unfold is_user_part_of_group in ground arith
returns (removes_user_from_group g u) db h = unfold remove_user_from_group in ground arith
returns (gets_keys_of_group g) db (u, m) = unfold get_keys_of_group find in ground arith

here :
    (u g : String) (rest : Set String) (db : MemDatabase)
    → find g db.groups ≡ some ((u, tt) ∷ rest)
    → is_in (view db) g u ≡ true
unfolding find
here u g rest db e = ground (arith, eq_refl u)

first_member :
    (g : String) (db : MemDatabase)
    → is_ok (apply (gets_keys_of_group g) db).0 ≡ true
    → (u : String) × (is_in (view db) g u ≡ true)
unfolding apply get_keys_of_group
first_member g db h = elim (Option-cases (find g db.groups)) [
  | inl e ↦ absurd (ground arith)
  | inr (s, e) ↦ member s e
]
  where
    member :
        (s : Set String) → find g db.groups ≡ some s → (u : String) × (is_in (view db) g u ≡ true)
    member [] e = absurd (ground arith)
    member ((u, _) ∷ rest) e = (u, here u g rest db e)

allowed : (c : Call) (db : MemDatabase) → is_ok (apply c db).0 ≡ true → IsAllowed c (view db)
unfolding apply
allowed (adds_user_to_group g u) db h = unfold add_user_to_group in ground arith
allowed (creates_user u k) db h = unfold create_user in ground arith
allowed (creates_group g u) db h = unfold create_group in ground arith
allowed (deletes_user u) db h = tt
allowed deletes_all_data db h = tt
allowed (asks_membership u g) db h = unfold is_user_part_of_group in ground arith
allowed (removes_user_from_group g u) db h = unfold remove_user_from_group in ground arith
allowed (gets_keys_of_group g) db h = first_member g db h

-- A call returns exactly when the abstract state allows it; else it throws.
pub returns_iff_IsAllowed :
    (c : Call) (db : MemDatabase) → (is_ok (apply c db).0 ≡ true) ↔ IsAllowed c (view db)
returns_iff_IsAllowed c db = (allowed c db, returns c db)
