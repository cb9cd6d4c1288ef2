-- ===== src/Database/Spec.antt =====
-- What the database promises, with the representation forgotten: a key for some users, and for
-- some groups the test of membership. `view` reads it off the two maps.
use anonym_sharing.Base.{
  String, Bool, true, false, not, ◌&&◌, none, some, Option, if◌then◌else◌, is_some, Result, ok,
  raise, invalid_argument, str_eq,
}
use anonym_sharing.Std.Order.{Bytes, string_order}
use anonym_sharing.Std.Map.{Set, find}
use anonym_sharing.Database.{MemDatabase, has}
use anonym_sharing.Database.Calls.{
  Call, Answer, done, adds_user_to_group, creates_user, creates_group, deletes_user,
  deletes_all_data, asks_membership, removes_user_from_group, gets_keys_of_group,
}

pub record Spec : Type 0 where
  pub key_of : String → Option Bytes
  pub members : String → Option (String → Bool)

abbrev pub test_of : Option (Set String) → Option (String → Bool)
test_of none = none
test_of (some s) = some (λ u. has u s)

abbrev pub view : MemDatabase → Spec
view db = record { key_of = λ u. find u db.users; members = λ g. test_of (find g db.groups) }

-- f[k] = v
abbrev pub update {ℓ} : {A : Type ℓ} → (String → A) → String → A → String → A
update f k v j = if str_eq k j then v else f j

abbrev pub without : String → Option (String → Bool) → Option (String → Bool)
without u none = none
without u (some p) = some (update p u false)

abbrev pub unit : Result Answer
unit = ok done

abbrev pub refuse : String → Result Answer
refuse why = raise (invalid_argument why)

-- The calls that change the state, on the abstract state.
unfoldable pub step : Call → Spec → Spec
step (adds_user_to_group g u) a = elim (a.members g) [
  | none ↦ a
  | some p ↦
      if is_some (a.key_of u)
      then record a { members = update a.members g (some (update p u true)) }
      else a
]
step (creates_user u k) a =
    if is_some (a.key_of u) then a else record a { key_of = update a.key_of u (some k) }
step (creates_group g u) a =
    if not (is_some (a.members g)) && is_some (a.key_of u)
    then record a { members = update a.members g (some (update (λ _. false) u true)) }
    else a
step (deletes_user u) a = record {
  key_of = update a.key_of u none;
  members = λ g. without u (a.members g);
}
step deletes_all_data a = record { key_of = λ _. none; members = λ _. none }
step (removes_user_from_group g u) a = elim (a.members g) [
  | none ↦ a
  | some p ↦
      if is_some (a.key_of u) && p u
      then record a { members = update a.members g (some (update p u false)) }
      else a
]
step (asks_membership u g) a = a
step (gets_keys_of_group g) a = a
