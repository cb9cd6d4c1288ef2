-- ===== src/Tests/Openings.antt =====
-- The theorem on the opening of envelopes, with two members whose keys differ in their first byte.
use anonym_sharing.Base.{
  ℕ, ◌≡◌, ◌↔◌, refl, subst, arith, str_eq, sym, true, false, [], ◌∷◌, ◌++◌, Option, none, some, ok,
  length, take, drop, replicate, inl, inr, pos, if◌then◌else◌, length-append, length-take,
  length-replicate, take-append, drop-append, ap, ◌∙◌,
}
use anonym_sharing.Std.Order.{Bytes, bytes_order, cmp_bytes, cmp_bytes_refl}
use anonym_sharing.Std.Map.{Map, find, insert, is_eq}
use anonym_sharing.Std.Text.{resize}
use anonym_sharing.Platform.{JsonLib, KvString, Crypto, Request}
use anonym_sharing.Database.{MemDatabase, add_user_to_group, fill_key}
use anonym_sharing.Database.Calls.{apply, adds_user_to_group}
use anonym_sharing.Database.Invariant.{IsValid, apply-IsValid}
use anonym_sharing.Service.{entries, AnonymBe, no_error}
use anonym_sharing.Service.Server.{process_input, answer}
use anonym_sharing.Opening.Rounds.{search_rounds}
use anonym_sharing.Opening.{search_loop, opened, not_in_envelope}
use anonym_sharing.Opening.Sealing.{SealLaws, Apart}
use anonym_sharing.Opening.Envelopes.{open_as}
use anonym_sharing.Opening.Members.{IsKeyOf, member_keys}
use anonym_sharing.Opening.Group.{member_opens}
use anonym_sharing.Tests.World.{small, small-IsValid, print}

-- The first 28 bytes of a key, which stand in front of what is sealed with it.
abbrev tag : Bytes → Bytes
tag k = take 28 (k ++ replicate 28 0)

length-tag : (k : Bytes) → length (tag k) ≡ 28
length-tag k = omega (
  arith,
  length-take 28 (k ++ replicate 28 0),
  length-append k (replicate 28 0),
  length-replicate {A = ℕ} 28 0,
)

-- A hash is the tag of the key behind the nonce.
abbrev tag_crypto : Crypto
tag_crypto = record {
  b64_encode = λ b. "envelope";
  b64_decode = λ s. ok (9 ∷ []);
  sha224 = λ b. tag (drop 12 b);
  get_rand = λ n d. replicate n d;
  encrypt_aesgcm = λ k p d. tag k ++ p;
}

abbrev tag_decrypt : Bytes → Bytes → Option Bytes
tag_decrypt k c = if is_eq (cmp_bytes (take 28 c) (tag k)) then some (drop 28 c) else none

tag_opens : (k p : Bytes) → tag_decrypt k (tag k ++ p) ≡ some p
tag_opens k p =
    rw (take-append (tag k) p 28 (length-tag k), drop-append (tag k) p 28 (length-tag k))
      (rw (cmp_bytes_refl (tag k)) refl)

tag_laws : SealLaws tag_crypto tag_decrypt
tag_laws = record {
  decrypts = λ k p d. tag_opens k p;
  length-encrypt = λ k p d. omega (arith, length-append (tag k) p, length-tag k);
  length-sha224 = λ x. length-tag (drop 12 x);
  length-get_rand = λ n d. length-replicate {A = ℕ} n d;
}

abbrev envelope_json : JsonLib KvString
envelope_json = record {
  parse = λ s. ok [];
  json_str = λ j k. if str_eq k "bucket_key" then ok "nine" else ok "team";
  json_int = λ j k. ok (pos 300);
  dump = λ m. ok (print m);
}

-- ann and bob are in the group.
abbrev pair : MemDatabase
pair = record {
  groups = ("team", ("ann", tt) ∷ ("bob", tt) ∷ []) ∷ [];
  users = ("ann", 1 ∷ []) ∷ ("bob", 2 ∷ []) ∷ [];
}

pair_made : (apply (adds_user_to_group "team" "bob") small).1 ≡ pair
unfolding apply add_user_to_group find insert
pair_made = refl

pair-IsValid : IsValid pair
pair-IsValid =
    subst IsValid pair_made (apply-IsValid (adds_user_to_group "team" "bob") small small-IsValid)

abbrev server : AnonymBe
server = record { init_ = true; indexed_ = true; die_ = false; database_ = pair }

abbrev ask_envelope : Request
ask_envelope = record { method = "POST"; path = "/verifier/envelope"; body = "" }

abbrev key_of_ann : Bytes
key_of_ann = 1 ∷ replicate 31 0

abbrev first : Bytes → ℕ
first [] = 0
first (b ∷ bs) = b

-- bob's key begins with another byte.
ann-Apart :
    Apart tag_crypto tag_decrypt
      (resize 32 (9 ∷ []))
      (replicate 12 0)
      key_of_ann
      (member_keys pair.users (("ann", tt) ∷ ("bob", tt) ∷ []))
unfolding fill_key find resize cmp_bytes
ann-Apart = record {
  hashes = λ j i other. elim i [
    | inl e ↦ absurd (other e)
    | inr (inl e) ↦ λ q. absurd (omega (arith, ap first (ap tag (sym e) ∙ q)))
    | inr (inr away) ↦ absurd away
  ];
  tags = λ j d i other. elim i [
    | inl e ↦ absurd (other e)
    | inr (inl e) ↦ rw e refl
    | inr (inr away) ↦ absurd away
  ];
}

member_opens_example :
    (envelope : Bytes) × ((process_input envelope_json tag_crypto ask_envelope server 0).0
      ≡ answer envelope_json tag_crypto
          (record { error = no_error; extra = ""; reply = ("ciphertext", "envelope") ∷ [] }))
    × (IsKeyOf pair.users (("ann", tt) ∷ ("bob", tt) ∷ []) key_of_ann ↔ (
        open_as envelope_json tag_crypto tag_decrypt true envelope key_of_ann
        ≡ some (opened (resize 32 (9 ∷ [])))))
    × ((¬ IsKeyOf pair.users (("ann", tt) ∷ ("bob", tt) ∷ []) key_of_ann) ↔ (
        open_as envelope_json tag_crypto tag_decrypt true envelope key_of_ann
        ≡ some not_in_envelope))
unfolding find
member_opens_example =
    member_opens envelope_json tag_crypto tag_decrypt tag_laws ask_envelope server 0 [] "nine"
      "team" (9 ∷ []) key_of_ann (("ann", tt) ∷ ("bob", tt) ∷ []) refl refl refl refl refl refl
      pair-IsValid refl (λ e. cc) refl ann-Apart

abbrev table : Map Bytes Bytes
table = (1 ∷ replicate 27 0, replicate 60 0) ∷ []

-- A hash of zeros, before the only entry.
search_rounds_example :
    (search_loop tag_decrypt 1 0 1 (entries table) (replicate 28 0) key_of_ann ≡ none)
    × (search_loop tag_decrypt 2 0 1 (entries table) (replicate 28 0) key_of_ann
        ≡ some not_in_envelope)
unfolding cmp_bytes
search_rounds_example =
    search_rounds tag_decrypt table (replicate 28 0) key_of_ann 1 (tt, tt) ((refl, refl), tt) refl
      (refl, tt) (omega arith)
