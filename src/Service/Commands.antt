-- ===== src/Service/Commands.antt =====
-- What the requests of the access monitor mean: the call of the database's interface that a request
-- asks for, by its verb, its path and the members of its JSON text.
use anonym_sharing.Base.{
  ℕ, ◌≡◌, refl, subst, [], ◌∷◌, arith, String, Bool, true, false, Option, none, some, Result, ok,
  raise, Exec, lift, ◌>>=◌, if◌then◌else◌, str_eq,
}
use anonym_sharing.Std.Order.{Bytes, string_order}
use anonym_sharing.Std.Map.{Set, find}
use anonym_sharing.Std.Text.{c_str, resize}
use anonym_sharing.Platform.{JsonLib, Crypto, Request}
use anonym_sharing.Database.{
  MemDatabase, key_size, is_user_part_of_group, get_keys_of_group, KeyArray,
}
use anonym_sharing.Database.Calls.{
  Call, Answer, apply, adds_user_to_group, asks_membership, creates_user, creates_group,
  deletes_user, deletes_all_data, removes_user_from_group, gets_keys_of_group,
}
use anonym_sharing.Database.Invariant.{IsValid}
use anonym_sharing.Database.Keys.{get_keys_of_group_members}
use mathlib.Core.Option.{some-injective}
use anonym_sharing.Service.{
  AskyError, no_error, Session, on_database, process_get, process_put, process_post, process_delete,
  post_command, create_user_request, generate_envelope, write_envelope,
}
use anonym_sharing.Service.Server.{dispatch}

-- The database after a call, if there is one.
abbrev pub changed : Option Call → MemDatabase → MemDatabase
changed none db = db
changed (some c) db = (apply c db).1

abbrev given : {A : Type 0} → Result A → (A → Option Call) → Option Call
given (ok a) f = f a
given (raise e) f = none

-- How a handler ends by the end of the call.
abbrev pub outcome : Result Answer → Result AskyError
outcome (ok _) = ok no_error
outcome (raise e) = raise e

module _ {J : Type 0} (json : JsonLib J) (crypto : Crypto) where
  open json use {parse, json_str}

  -- The member of an object, for a call that needs it.
  abbrev member : J → String → (String → Option Call) → Option Call
  member j key f = given (json_str j key) f

  abbrev object : Request → (J → Option Call) → Option Call
  object request f = given (parse request.body) f

  abbrev user_and_group : Request → (String → String → Call) → Option Call
  user_and_group request f =
      object request λ j. member j "user_id" λ u. member j "group_name" λ g. some (f g u)

  abbrev put_call : Request → Option Call
  put_call request =
      if str_eq request.path "/access/usergroup"
      then user_and_group request adds_user_to_group
      else none

  -- The bucket key has to be there, and to decode.
  abbrev envelope_call : J → Option Call
  envelope_call j = member j "bucket_key" λ encoded.
      given (crypto.b64_decode encoded)
        λ bucket_key. member j "group_id" λ g. some (gets_keys_of_group g)

  abbrev post_call : String → J → ℕ → Option Call
  post_call path j draws =
      if str_eq path "/access/user"
      then member j "user_id" (λ u. some (creates_user u (crypto.get_rand key_size draws)))
      else if str_eq path "/access/group"
      then member j "user_id" (λ u. member j "group_name" λ g. some (creates_group g u))
      else if str_eq path "/verifier/envelope"
      then envelope_call j
      else if str_eq path "/verifier/usergroup"
      then member j "group_name" (λ g. member j "user_id" λ u. some (asks_membership u g))
      else none

  abbrev delete_call : Request → Option Call
  delete_call request =
      if str_eq request.path "/access/usergroup"
      then user_and_group request removes_user_from_group
      else if str_eq request.path "/access/user"
      then object request (λ j. member j "user_id" λ u. some (deletes_user (c_str u)))
      else if str_eq request.path "/access/all"
      then some deletes_all_data
      else none

  -- The call that a request asks for; `draws` is the index of the next random draw.
  abbrev pub command : Request → ℕ → Option Call
  command request draws =
      if str_eq request.method "GET"
      then none
      else if str_eq request.method "PUT"
      then put_call request
      else if str_eq request.method "POST"
      then object request (λ j. post_call request.path j draws)
      else if str_eq request.method "DELETE"
      then delete_call request
      else none

  -- What a handler does where it is asked for a call: the change, and in a valid database the error of
  -- the call.
  abbrev Performs : Option Call → Session → Result AskyError × Session → Type 0
  Performs c s (r, t) =
      (t.service.database_ ≡ changed c s.service.database_)
      × (IsValid s.service.database_
          → (k : Call) → c ≡ some k
          → r ≡ outcome (apply k s.service.database_).0)

  process_get-Performs : (r : Request) (s : Session) → Performs none s (process_get json crypto r s)
  unfolding process_get
  process_get-Performs r s = (ground arith, λ v k e. cc)

  process_put-Performs :
      (r : Request) (s : Session) → Performs (put_call r) s (process_put json crypto r s)
  unfolding process_put on_database apply
  process_put-Performs r s = (ground arith, λ v k e. ground (arith, e))

  parsed-Performs :
      {A : Type 0} (x : Result A) (f : A → Option Call) (m : A → Exec Session AskyError)
      (s : Session)
      → ((a : A) → Performs (f a) s (m a s))
      → Performs (given x f) s ((lift x >>= m) s)
  parsed-Performs (ok a) f m s h = h a
  parsed-Performs (raise e) f m s h = (refl, λ v k q. cc)

  if_Performs :
      (b : Bool) (c d : Option Call) (m n : Exec Session AskyError) (s : Session)
      → Performs c s (m s)
      → Performs d s (n s)
      → Performs (if b then c else d) s ((if b then m else n) s)
  if_Performs true c d m n s p q = p
  if_Performs false c d m n s p q = q

  create_user_request-Performs :
      (j : J) (s : Session)
      → Performs
          (member j "user_id" λ u. some (creates_user u (crypto.get_rand key_size s.draws)))
          s
          (create_user_request json crypto j s)
  unfolding create_user_request on_database apply
  create_user_request-Performs j s = (ground arith, λ v k e. ground (arith, e))

  -- In a valid database the keys of a group are never none.
  sealed_with :
      (key : Bytes) (g : String) (s : Session) (first : Bytes) (ka : KeyArray)
      → (get_keys_of_group g s.service.database_).0 ≡ ok (first ∷ ka)
      → ((on_database (get_keys_of_group g) >>= write_envelope json crypto key) s).0
        ≡ outcome (apply (gets_keys_of_group g) s.service.database_).0
  unfolding on_database apply write_envelope
  sealed_with key g s first ka h = rw h

  sealed :
      (key : Bytes) (g : String) (s : Session) (m : Option (Set String))
      → IsValid s.service.database_
      → find g s.service.database_.groups ≡ m
      → ((on_database (get_keys_of_group g) >>= write_envelope json crypto key) s).0
        ≡ outcome (apply (gets_keys_of_group g) s.service.database_).0
  unfolding on_database apply get_keys_of_group
  sealed key g s none v e = rw (e, get_keys_of_group)
  sealed key g s (some []) v e = rw (e, get_keys_of_group)
  sealed key g s (some (m ∷ rest)) v e =
      sealed_with key g s _ _
        (get_keys_of_group_members g s.service.database_ (m ∷ rest) v e (λ p. cc)).0

  sealed-Performs :
      (key : Bytes) (g : String) (s : Session)
      → Performs
          (some (gets_keys_of_group g))
          s
          ((on_database (get_keys_of_group g) >>= write_envelope json crypto key) s)
  unfolding on_database apply write_envelope get_keys_of_group
  sealed-Performs key g s = (
    ground arith,
    λ v k e.
        subst
          (λ c.
            ((on_database (get_keys_of_group g) >>= write_envelope json crypto key) s).0
            ≡ outcome (apply c s.service.database_).0)
          (some-injective _ _ e) (sealed key g s _ v refl),
  )

  generate_envelope-Performs :
      (j : J) (s : Session) → Performs (envelope_call j) s (generate_envelope json crypto j s)
  unfolding generate_envelope
  generate_envelope-Performs j s = parsed-Performs (json_str j "bucket_key") _ _ s λ encoded.
      parsed-Performs (crypto.b64_decode encoded) _ _ s λ key.
        parsed-Performs (json_str j "group_id") _ _ s λ g. sealed-Performs (resize 32 key) g s

  post_command-Performs :
      (path : String) (j : J) (s : Session)
      → Performs (post_call path j s.draws) s (post_command json crypto path j s)
  unfolding post_command on_database apply is_user_part_of_group
  post_command-Performs path j s =
      if_Performs (str_eq path "/access/user") _ _ _ _ s (create_user_request-Performs j s) (
        if_Performs (str_eq path "/access/group") _ _ _ _ s
          (ground arith, λ v k e. ground (arith, e))
          (if_Performs (str_eq path "/verifier/envelope") _ _ _ _ s (generate_envelope-Performs j s)
            (if_Performs (str_eq path "/verifier/usergroup") _ _ _ _ s
              (ground arith, λ v k e. ground (arith, e)) (refl, λ v k q. cc))))

  process_post-Performs :
      (r : Request) (s : Session)
      → Performs (object r (λ j. post_call r.path j s.draws)) s (process_post json crypto r s)
  unfolding process_post
  process_post-Performs r s =
      parsed-Performs (parse r.body) (λ j. post_call r.path j s.draws) _ s
        (λ j. post_command-Performs r.path j s)

  process_delete-Performs :
      (r : Request) (s : Session) → Performs (delete_call r) s (process_delete json crypto r s)
  unfolding process_delete on_database apply
  process_delete-Performs r s = (ground arith, λ v k e. ground (arith, e))

  pub dispatch-Performs :
      (r : Request) (s : Session) → Performs (command r s.draws) s (dispatch json crypto r s)
  unfolding dispatch
  dispatch-Performs r s = if_Performs (str_eq r.method "GET") _ _ _ _ s (process_get-Performs r s) (
      if_Performs (str_eq r.method "PUT") _ _ _ _ s (process_put-Performs r s) (
        if_Performs (str_eq r.method "POST") _ _ _ _ s (process_post-Performs r s) (
          if_Performs (str_eq r.method "DELETE") _ _ _ _ s (process_delete-Performs r s)
            (refl, λ v k q. cc))))
