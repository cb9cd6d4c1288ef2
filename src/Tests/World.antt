-- ===== src/Tests/World.antt =====
-- Small concrete libraries: JSON objects of texts, a cipher and a hash that are easy to follow, and
-- a database with two users and a group.
use anonym_sharing.Base.{
  subst, ◌≡◌, refl, String, ◌<>◌, [], ◌∷◌, none, some, Option, Result, ok, raise, out_of_range,
  parse_error, if◌then◌else◌, str_eq, replicate, pos,
}
use anonym_sharing.Std.Order.{string_order}
use anonym_sharing.Std.Map.{find, insert}
use anonym_sharing.Platform.{KvString, JsonLib, Crypto}
use anonym_sharing.Database.{MemDatabase, create_user, create_group}
use anonym_sharing.Database.Invariant.{IsValid, empty-IsValid, apply-IsValid}
use anonym_sharing.Database.Calls.{apply, creates_user, creates_group}
use anonym_sharing.Database

-- The bodies that the tests send.
unfoldable pub parse_body : String → Result KvString
parse_body body =
    if str_eq body "ann"
    then ok (("user_id", "ann") ∷ [])
    else if str_eq body "ann in team"
    then ok (("group_name", "team") ∷ ("user_id", "ann") ∷ [])
    else if str_eq body "bob in team"
    then ok (("group_name", "team") ∷ ("user_id", "bob") ∷ [])
    else raise (parse_error "bad")

field : Option String → Result String
field none = raise (out_of_range "missing")
field (some v) = ok v

pub field_of : KvString → String → Result String
unfolding field
field_of j k = field (find k j)

pub print : KvString → String
print [] = ""
print ((k, v) ∷ m) = k <> "=" <> v <> ";" <> print m

unfoldable pub toy_json : JsonLib KvString
unfolding parse_body field_of print
toy_json = record {
  parse = parse_body;
  json_str = field_of;
  json_int = λ j k. ok (pos 300);
  dump = λ m. ok (print m);
}

unfoldable pub toy_crypto : Crypto
toy_crypto = record {
  b64_encode = λ b. "bytes";
  b64_decode = λ s. ok [];
  sha224 = λ b. b;
  get_rand = λ n d. replicate n d;
  encrypt_aesgcm = λ k p d. d ∷ p;
}

-- Users ann and bob; ann is alone in the group team.
abbrev pub small : MemDatabase
small = record {
  groups = ("team", ("ann", tt) ∷ []) ∷ [];
  users = ("ann", 1 ∷ []) ∷ ("bob", 2 ∷ []) ∷ [];
}

pub small_made :
    (apply
      (creates_group "team" "ann")
      (apply
        (creates_user "ann" (1 ∷ []))
        (apply (creates_user "bob" (2 ∷ [])) Database.empty).1).1).1
    ≡ small
unfolding apply create_group create_user find insert
small_made = refl

pub small-IsValid : IsValid small
small-IsValid = subst IsValid small_made (
    apply-IsValid (creates_group "team" "ann") _ (
      apply-IsValid (creates_user "ann" (1 ∷ [])) _
        (apply-IsValid (creates_user "bob" (2 ∷ [])) Database.empty empty-IsValid)))
