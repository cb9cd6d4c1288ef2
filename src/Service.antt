-- ===== src/Service.antt =====
-- anonymBE/src/enclave/anonymbe_service.h and anonymbe_service.hpp: the access monitor over the
-- in-memory database (the build with MEMDATABASE). A request runs as an action on the service, the
-- count of random draws and the map that becomes the response. Where a call has two arguments that
-- may throw, C++ leaves the order open: the last one is read first here, as GCC does.
pub mod Server
pub mod Rules
pub mod Safety
pub mod Unreported
pub mod Envelope
pub mod Commands
pub mod Refinement
use anonym_sharing.Base.{
  ℕ, zero, suc, ◌+◌, String, ◌<>◌, Bool, true, false, List, [], ◌∷◌, ◌++◌, none, some, Result, ok,
  raise, Exception, out_of_range, parse_error, type_error, invalid_argument, logic_error,
  std_exception, unknown, Exec, pure, lift, continue, ◌>>=◌, ◌>>◌, if◌then◌else◌, str_eq, ◌==◌, not,
}
use anonym_sharing.Std.Order.{Bytes, string_order, bytes_order}
use anonym_sharing.Std.Map.{Map, find, insert}
use anonym_sharing.Std.Text.{c_str, resize}
use anonym_sharing.Platform.{
  KvString, JsonLib, Crypto, Request, Response, response, default_response,
}
use anonym_sharing.Database.{
  MemDatabase, KeyArray, key_size, add_user_to_group, create_user, create_group, delete_user,
  delete_all_data, is_user_part_of_group, remove_user_from_group, get_keys_of_group,
}
use anonym_sharing.Database

-- enum ASKYError
pub data AskyError : Type 0 where
  no_error error_service initialization_fail already_initialized bad_request : AskyError
  create_existent non_existent rollback_attack wrapup unknown_error : AskyError

pub record AnonymBe : Type 0 where
  pub init_ : Bool
  pub indexed_ : Bool
  pub die_ : Bool
  pub database_ : MemDatabase

-- The constructor leaves `indexed_` as it finds it.
unfoldable pub construct : Bool → AnonymBe
construct garbage = record {
  init_ = false;
  indexed_ = garbage;
  die_ = false;
  database_ = Database.empty;
}

-- init(Arguments *) with `args->indexed`; the in-memory database throws nothing.
unfoldable pub init : ℕ → AnonymBe → ℕ × AnonymBe
init indexed s = (0, record s { indexed_ = not (indexed == 0); init_ = true })

-- The state while a request is served: the response map lives as long as the request.
pub record Session : Type 0 where
  pub service : AnonymBe
  pub draws : ℕ
  pub reply : KvString

-- A method of `database_`.
unfoldable pub on_database : {A : Type 0} → Exec MemDatabase A → Exec Session A
on_database m s =
    let (r, db) = m s.service.database_ in
    (r, record s { service = record (s.service) { database_ = db } })

-- response[key] = value
abbrev pub respond : String → String → Exec Session Unit
respond key value s = (ok tt, record s { reply = insert key value s.reply })

abbrev pub gets {ℓ} : {A : Type ℓ} → (Session → A) → Session → Result A × Session
gets f s = (ok (f s), s)

-- The index of the next random draw.
abbrev pub draw : Exec Session ℕ
draw s = (ok s.draws, record s { draws = suc s.draws })

module _ (crypto : Crypto) where
  open crypto use {b64_encode, b64_decode, sha224, get_rand, encrypt_aesgcm}

  -- The loop that fills `orderedhashes`; key i is encrypted under draw d + i.
  unfoldable pub ordered_hashes : Bytes → Bytes → KeyArray → ℕ → Map Bytes Bytes → Map Bytes Bytes
  ordered_hashes nonce bucket_key [] d m = m
  ordered_hashes nonce bucket_key (key ∷ ka) d m =
      ordered_hashes nonce bucket_key ka (suc d)
        (insert (sha224 (nonce ++ key)) (encrypt_aesgcm key bucket_key d) m)

  -- The loop of the plain envelope.
  unfoldable pub plain_entries : Bytes → KeyArray → ℕ → Bytes
  plain_entries bucket_key [] d = []
  plain_entries bucket_key (key ∷ ka) d =
      encrypt_aesgcm key bucket_key d ++ plain_entries bucket_key ka (suc d)

-- ctext += kv.first + kv.second, in the order of the map
unfoldable pub entries : Map Bytes Bytes → Bytes
entries [] = []
entries ((hash, sealed) ∷ m) = (hash ++ sealed) ++ entries m

-- The draws of the encryptions, one for each key.
abbrev pub draws_for : KeyArray → ℕ → ℕ
draws_for [] d = d
draws_for (key ∷ ka) d = draws_for ka (suc d)

module _ {J : Type 0} (json : JsonLib J) (crypto : Crypto) where
  open json use {parse, json_str, dump}
  open crypto use {b64_encode, b64_decode, sha224, get_rand, encrypt_aesgcm}

  unfoldable pub process_get : Request → Exec Session AskyError
  process_get request = if str_eq request.path "/ping" then pure no_error else pure bad_request

  -- What is computed of the keys under the two kinds of envelope.
  unfoldable pub envelope_text : Bool → Bytes → KeyArray → ℕ → Bytes × ℕ
  unfolding ordered_hashes plain_entries entries
  envelope_text true bucket_key ka d =
      let nonce = get_rand 12 d in
      (
        nonce ++ entries (ordered_hashes crypto nonce bucket_key ka (suc d) []),
        draws_for ka (suc d),
      )
  envelope_text false bucket_key ka d = (plain_entries crypto bucket_key ka d, draws_for ka d)

  unfoldable pub write_envelope : Bytes → KeyArray → Exec Session AskyError
  unfolding envelope_text
  write_envelope bucket_key [] s =
      (ok bad_request, record s { reply = insert "detail" "empty envelope" s.reply })
  write_envelope bucket_key (key ∷ ka) s =
      let (ctext, d) = envelope_text s.service.indexed_ bucket_key (key ∷ ka) s.draws in
      (ok no_error, record s { draws = d; reply = insert "ciphertext" (b64_encode ctext) s.reply })

  unfoldable pub generate_envelope : J → Exec Session AskyError
  unfolding write_envelope on_database resize
  generate_envelope j = do
    encoded ← lift (json_str j "bucket_key")
    bucket_key ← lift (b64_decode encoded)
    gname ← lift (json_str j "group_id")
    ka ← on_database (get_keys_of_group gname)
    write_envelope (resize 32 bucket_key) ka

  unfoldable pub create_user_request : J → Exec Session AskyError
  unfolding on_database
  create_user_request j = do
    d ← draw
    let key = get_rand key_size d
    uid ← lift (json_str j "user_id")
    on_database (create_user uid key)
    respond "user_key" (b64_encode key)
    pure no_error

  unfoldable pub process_put : Request → Exec Session AskyError
  unfolding on_database
  process_put request =
      if str_eq request.path "/access/usergroup"
      then (do
        j ← lift (parse request.body)
        uid ← lift (json_str j "user_id")
        gname ← lift (json_str j "group_name")
        on_database (add_user_to_group gname uid)
        pure no_error)
      else pure bad_request

  unfoldable pub post_command : String → J → Exec Session AskyError
  unfolding on_database create_user_request generate_envelope
  post_command command j =
      if str_eq command "/access/user"
      then create_user_request j
      else if str_eq command "/access/group"
      then (do
        uid ← lift (json_str j "user_id")
        gname ← lift (json_str j "group_name")
        on_database (create_group gname uid)
        pure no_error)
      else if str_eq command "/verifier/envelope"
      then generate_envelope j
      else if str_eq command "/verifier/usergroup"
      then (do
        gname ← lift (json_str j "group_name")
        uid ← lift (json_str j "user_id")
        answer ← on_database (is_user_part_of_group uid gname)
        respond "belongs" (if answer then "true" else "false")
        pure no_error)
      else pure bad_request

  unfoldable pub process_post : Request → Exec Session AskyError
  unfolding post_command
  process_post request = do j ← lift (parse request.body); post_command request.path j

  unfoldable pub process_delete : Request → Exec Session AskyError
  unfolding on_database c_str
  process_delete request =
      if str_eq request.path "/access/usergroup"
      then (do
        j ← lift (parse request.body)
        uid ← lift (json_str j "user_id")
        gname ← lift (json_str j "group_name")
        on_database (remove_user_from_group gname uid)
        pure no_error)
      else if str_eq request.path "/access/user"
      then (do
        j ← lift (parse request.body)
        uid ← lift (json_str j "user_id")
        on_database (delete_user (c_str uid))
        pure no_error)
      else if str_eq request.path "/access/all"
      then (do on_database delete_all_data; pure no_error)
      else pure bad_request
