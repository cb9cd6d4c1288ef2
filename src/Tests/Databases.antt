-- ===== src/Tests/Databases.antt =====
-- The theorems on the database at the small one.
use anonym_sharing.Base.{
  ◌≡◌, ◌↔◌, refl, String, true, ok, logic_error, [], ◌∷◌, ◌<>◌, map, All, length,
}
use anonym_sharing.Std.Map.{find, insert, erase}
use anonym_sharing.Database.{
  key_size, fill_key, add_user_to_group, get_keys_of_group, is_user_part_of_group, delete_user,
  erase_member,
}
use anonym_sharing.Database.Calls.{
  apply, adds_user_to_group, deletes_user, removes_user_from_group, asks_membership, belongs,
}
use anonym_sharing.Database.Invariant.{IsValid, apply-IsValid}
use anonym_sharing.Database.Throws.{apply_throws}
use anonym_sharing.Database.Spec.{view, step}
use anonym_sharing.Database.Refinement.{view-apply}
use anonym_sharing.Database.Allowed.{IsAllowed, is_ok, returns_iff_IsAllowed}
use anonym_sharing.Database.Keys.{key_of, get_keys_of_group_members}
use anonym_sharing.Tests.World.{small, small-IsValid}

-- bob joins; then ann is deleted, and bob alone is left in the group.
join_and_delete :
    (apply (deletes_user "ann") (apply (adds_user_to_group "team" "bob") small).1).1
    ≡ record { groups = ("team", ("bob", tt) ∷ []) ∷ []; users = ("bob", 2 ∷ []) ∷ [] }
unfolding apply add_user_to_group delete_user erase_member find insert erase
join_and_delete = refl

asks_ann : (apply (asks_membership "ann" "team") small).0 ≡ ok (belongs true)
unfolding apply is_user_part_of_group find
asks_ann = refl

apply-IsValid_example : IsValid (apply (adds_user_to_group "team" "bob") small).1
apply-IsValid_example = apply-IsValid (adds_user_to_group "team" "bob") small small-IsValid

apply_throws_example : (apply (adds_user_to_group "team" "ann") small).1 ≡ small
unfolding apply add_user_to_group find insert
apply_throws_example =
    apply_throws (adds_user_to_group "team" "ann") small
      (logic_error ("'" <> "ann" <> "' was already a member of " <> "group '" <> "team" <> "'"))
      small-IsValid refl

view-apply_example :
    view (apply (removes_user_from_group "team" "ann") small).1
    ≡ step (removes_user_from_group "team" "ann") (view small)
view-apply_example = view-apply (removes_user_from_group "team" "ann") small

returns_iff_IsAllowed_example :
    (is_ok (apply (removes_user_from_group "team" "bob") small).0 ≡ true)
    ↔ IsAllowed (removes_user_from_group "team" "bob") (view small)
returns_iff_IsAllowed_example = returns_iff_IsAllowed (removes_user_from_group "team" "bob") small

get_keys_of_group_members_example :
    ((get_keys_of_group "team" small).0
      ≡ ok (map (λ (e : String × Unit {0}). fill_key (key_of small.users e.0)) (("ann", tt) ∷ [])))
    × All
        (λ k. length k ≡ key_size)
        (map (λ (e : String × Unit {0}). fill_key (key_of small.users e.0)) (("ann", tt) ∷ []))
unfolding find
get_keys_of_group_members_example =
    get_keys_of_group_members "team" small (("ann", tt) ∷ []) small-IsValid refl (λ e. cc)
