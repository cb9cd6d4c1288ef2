-- ===== src/Opening/Group.antt =====
-- From the monitor to the client: the envelope that a request for a group is answered with, and who
-- opens it.
use anonym_sharing.Base.{
  ℕ, ◌≡◌, ◌≢◌, refl, sym, ap, ◌∙◌, String, [], ◌∷◌, Option, some, ok, length, map, ◌⊎◌, ◌↔◌, inl,
  inr,
}
use anonym_sharing.Std.Order.{Bytes, string_order}
use anonym_sharing.Database.Keys.{get_keys_of_group_members}
use anonym_sharing.Std.Map.{Set, find, insert}
use anonym_sharing.Platform.{JsonLib, Crypto, Request}
use anonym_sharing.Database.{get_keys_of_group, KeyArray, MemDatabase}
use anonym_sharing.Service.{
  AnonymBe, Session, no_error, envelope_text, write_envelope, generate_envelope, process_post,
  post_command, on_database,
}
use anonym_sharing.Service.Server.{process_input, dispatch, conclude, answer, begin}
use anonym_sharing.Std.Text.{resize, length-resize}
use anonym_sharing.Database.Invariant.{IsValid}
use anonym_sharing.Opening.{Opened, opened, not_in_envelope}
use anonym_sharing.Opening.Sealing.{SealLaws, Apart}
use anonym_sharing.Opening.Envelopes.{open_as, envelope_opens}
use anonym_sharing.Opening.Members.{IsKeyOf, member_keys, In-IsKeyOf, IsKeyOf-In, IsKeyOf-cases}

opened-ne : (k : Bytes) → some (opened k) ≢ some not_in_envelope
opened-ne k = λ e. cc

-- Two outcomes that exclude each other, under two conditions that cover everything.
exactly :
    {P : Type 0} (r : Option Opened) (k : Bytes)
    → P ⊎ (¬ P)
    → (P → r ≡ some (opened k))
    → ((¬ P) → r ≡ some not_in_envelope)
    → (P ↔ (r ≡ some (opened k))) × ((¬ P) ↔ (r ≡ some not_in_envelope))
exactly r k (inl p) f g = ((f, λ e. p), (g, λ e. absurd (opened-ne k (sym (f p) ∙ e))))
exactly r k (inr n) f g = ((f, λ e. absurd (opened-ne k (sym e ∙ g n))), (g, λ e. n))

module _ {J : Type 0} (json : JsonLib J) (crypto : Crypto) (decrypt : Bytes → Bytes → Option Bytes)
    (laws : SealLaws crypto decrypt) where
  map-ne-nil :
      (f : String × Unit {0} → Bytes) (members : Set String) → members ≢ [] → map f members ≢ []
  map-ne-nil f [] n = absurd (n refl)
  map-ne-nil f (m ∷ ms) n = λ e. cc

  -- The end of the request, for an array that is not empty.
  written :
      (request : Request) (bucket_key : Bytes) (ka : KeyArray) (s : Session)
      → ka ≢ []
      → s.reply ≡ []
      → let r = write_envelope json crypto bucket_key ka s in
        conclude request r.0 r.1.reply ≡ record {
          error = no_error;
          extra = "";
          reply =
              (
                "ciphertext",
                crypto.b64_encode
                    (envelope_text json crypto s.service.indexed_ bucket_key ka s.draws).0,
              )
              ∷ [];
        }
  unfolding write_envelope conclude insert
  written request bucket_key [] s n e = absurd (n refl)
  written request bucket_key (k ∷ ka) s n e = rw e refl

  got :
      (g : String) (db : MemDatabase) (members : Set String)
      → IsValid db
      → find g db.groups ≡ some members
      → members ≢ []
      → get_keys_of_group g db ≡ (ok (member_keys db.users members), db)
  unfolding get_keys_of_group
  got g db [] v e n = absurd (n refl)
  got g db (m ∷ ms) v e n =
      let keys = (get_keys_of_group_members g db (m ∷ ms) v e n).0 in
      let same : (get_keys_of_group g db).1 ≡ db = rw (e, get_keys_of_group) refl in
      let same : (get_keys_of_group g db).1 ≡ db = rw (e, get_keys_of_group) refl in
      λ i. (keys i, same i)

  -- A request for an envelope comes down to writing it.
  dispatched :
      (request : Request) (t : Session) (j : J) (encoded g : String) (bucket_key : Bytes)
      (ka : KeyArray)
      → request.method ≡ "POST"
      → request.path ≡ "/verifier/envelope"
      → json.parse request.body ≡ ok j
      → json.json_str j "bucket_key" ≡ ok encoded
      → crypto.b64_decode encoded ≡ ok bucket_key
      → json.json_str j "group_id" ≡ ok g
      → get_keys_of_group g t.service.database_ ≡ (ok ka, t.service.database_)
      → dispatch json crypto request t ≡ write_envelope json crypto (resize 32 bucket_key) ka t
  unfolding dispatch process_post post_command generate_envelope on_database
  dispatched request t j encoded g bucket_key ka m p parsed b decoded named keys =
      rw (m, dispatch)
        (rw (parsed, dispatch)
          (rw (p, dispatch)
            (rw (b, dispatch)
              (rw (decoded, dispatch) (rw (named, dispatch) (rw (keys, dispatch) refl))))))

  -- In a valid database, a request for the envelope of a group with a member is answered with a
  -- ciphertext, and a client with a key of 32 bytes that opens it by the way of the service's kind of
  -- envelope gets the bucket key exactly if the key is the one that the database has for a member of
  -- the group, and "User key not in envelope" exactly if it is not. (The key is told apart from the
  -- members' other keys by the hash and by the tag.)
  pub member_opens :
      (request : Request) (s : AnonymBe) (draws : ℕ) (j : J) (encoded g : String)
      (bucket_key key : Bytes) (members : Set String)
      → request.method ≡ "POST"
      → request.path ≡ "/verifier/envelope"
      → json.parse request.body ≡ ok j
      → json.json_str j "bucket_key" ≡ ok encoded
      → crypto.b64_decode encoded ≡ ok bucket_key
      → json.json_str j "group_id" ≡ ok g
      → IsValid s.database_
      → find g s.database_.groups ≡ some members
      → members ≢ []
      → length key ≡ 32
      → Apart crypto decrypt
          (resize 32 bucket_key)
          (crypto.get_rand 12 draws)
          key
          (member_keys s.database_.users members)
      → (envelope : Bytes) × ((process_input json crypto request s draws).0
          ≡ answer json crypto (record {
            error = no_error;
            extra = "";
            reply = ("ciphertext", crypto.b64_encode envelope) ∷ [];
          }))
        × (IsKeyOf s.database_.users members key ↔ (
            open_as json crypto decrypt s.indexed_ envelope key
            ≡ some (opened (resize 32 bucket_key))))
        × ((¬ IsKeyOf s.database_.users members key)
            ↔ (open_as json crypto decrypt s.indexed_ envelope key ≡ some not_in_envelope))
  unfolding process_input
  member_opens request s draws j encoded g bucket_key key members m p parsed b decoded named v found
        some_member sized a =
      let ka = member_keys s.database_.users members in
      let long = resize 32 bucket_key in
      let started = begin json crypto s draws in
      let run =
        dispatched request started j encoded g bucket_key ka m p parsed b decoded named
          (got g s.database_ members v found some_member) in
      let (inside, outside) =
        envelope_opens json crypto decrypt laws s.indexed_ long key ka draws
          (length-resize 32 bucket_key) sized a in
      let r =
        open_as json crypto decrypt s.indexed_
          (envelope_text json crypto s.indexed_ long ka draws).0 key in
      let to = IsKeyOf-In s.database_.users members key in
      let from = In-IsKeyOf s.database_.users members key in
      let both =
        exactly {P = IsKeyOf s.database_.users members key} r long
          (IsKeyOf-cases s.database_.users members key) (λ u. inside (to u))
          (λ n. outside (λ i. n (from i))) in
      (
        (envelope_text json crypto s.indexed_ long ka draws).0,
        ap (λ x. answer json crypto (conclude request x.0 x.1.reply)) run
            ∙ ap (answer json crypto)
                (written request long ka started (map-ne-nil _ members some_member) refl),
        both.0,
        both.1,
      )
