-- ===== src/Tests/Profiles.antt =====
-- The theorem on the driver, with users 0 to 1.
use anonym_sharing.Base.{
  ℕ, ◌≤◌, ◌≡◌, refl, arith, String, true, false, ok, str_eq, if◌then◌else◌, pos, inl, inr, subst,
  sym,
}
use anonym_sharing.Std.Text
use anonym_sharing.Platform.{JsonLib}
use anonym_sharing.Profile.{main, started, user_body, usergroup, user, group}
use anonym_sharing.Profile.Effects.{TextLaws}
use anonym_sharing.Profile.Filled.{IsFilled, below-cases}
use anonym_sharing.Profile.Requests.{Ends}
use anonym_sharing.Profile.Outcome.{main-IsFilled}
use anonym_sharing.Tests.World.{toy_crypto}
use anonym_sharing.Tests.Wire.{wires, ready_decoder, wires_laws}
use anonym_sharing.Tests.Enclaves.{to_string}

-- A text is read as the name of its user.
abbrev name_of : String → String
name_of s =
    if str_eq s "{\"user_id\": \"user1\"}"
    then "user1"
    else if str_eq s "{\"user_id\": \"user1\",\"group_name\": \"group1\"}"
    then "user1"
    else "user0"

abbrev names : JsonLib String
names = record {
  parse = λ s. ok (name_of s);
  json_str = λ j k. ok (if str_eq k "user_id" then j else "group1");
  json_int = λ j k. ok (pos 0);
  dump = λ m. ok "";
}

abbrev User : ℕ → Type 0
User i =
    (j : String) × (names.parse (user_body i) ≡ ok j) × (names.json_str j "user_id" ≡ ok (user i))

abbrev Usergroup : ℕ → Type 0
Usergroup i =
    (j : String) × (names.parse (usergroup 1 i) ≡ ok j)
    × (names.json_str j "user_id" ≡ ok (user i))
    × (names.json_str j "group_name" ≡ ok (group 1))

below_one : (P : ℕ → Type 0) → P 0 → P 1 → (i : ℕ) → i ≤ 1 → P i
below_one P p q i b = elim (below-cases i 0 b) [
  | inl e ↦ subst P (omega (arith, e)) p
  | inr e ↦ subst P (sym e) q
]

texts : TextLaws names wires 1
unfolding wires Text.to_string
texts = record {
  user_path = refl;
  group_path = refl;
  usergroup_path = refl;
  envelope_path = refl;
  user_object = below_one User ("user0", refl, refl) ("user1", refl, refl);
  usergroup_object = below_one Usergroup ("user0", refl, refl, refl) ("user1", refl, refl, refl);
}

main-IsFilled_example :
    Ends names toy_crypto ready_decoder wires to_string 0 wires_laws 1 texts
      (main names toy_crypto ready_decoder wires to_string 2 1
        (started names toy_crypto ready_decoder wires to_string 2 true 0 false))
      (IsFilled 1)
main-IsFilled_example =
    main-IsFilled names toy_crypto ready_decoder wires to_string 0 wires_laws 1 texts true 0 false
