-- ===== src/Service/Safety.antt =====
-- Every request keeps the database valid, and a request that is refused changes nothing in it.
use anonym_sharing.Base.{◌≡◌, ◌≢◌, refl, String, Result, ok, ℕ, arith, [], ◌∷◌}
use anonym_sharing.Std.Order.{Bytes}
use anonym_sharing.Database.{
  KeyArray, add_user_to_group, create_user, create_group, delete_user, delete_all_data,
  is_user_part_of_group, remove_user_from_group, get_keys_of_group,
}
use anonym_sharing.Database.Invariant.{
  IsValid, empty-IsValid, add-IsValid, create_group-IsValid, remove-IsValid, create_user-IsValid,
  delete_user-IsValid, asks-IsValid,
}
use anonym_sharing.Database.Throws.{
  add-IsAtomic, create_user-IsAtomic, create_group-IsAtomic, delete_user-IsAtomic,
  delete_all_data-IsAtomic, asks-IsAtomic, remove-IsAtomic,
}
use anonym_sharing.Platform.{KvString, Headers, HttpString, JsonLib, Crypto, Request, response}
use anonym_sharing.Service.{
  AskyError, no_error, AnonymBe, on_database, generate_envelope, write_envelope, process_get,
  process_put, process_post, process_delete, create_user_request, post_command,
}
use anonym_sharing.Service.Server.{
  dispatch, begin, process_input, answer, conclude, positive_response, catch_dump,
}
use anonym_sharing.Service.Rules.{
  KeepsDb, Keeps, Reads, Commits, keeps_rules, commits_rules, Reads-bind, Reads-lift,
}

add-KeepsDb : (g u : String) → KeepsDb (add_user_to_group g u)
add-KeepsDb g u = record { at = add-IsValid g u }

create_user-KeepsDb : (u : String) (k : Bytes) → KeepsDb (create_user u k)
create_user-KeepsDb u k = record { at = create_user-IsValid u k }

create_group-KeepsDb : (g u : String) → KeepsDb (create_group g u)
create_group-KeepsDb g u = record { at = create_group-IsValid g u }

remove-KeepsDb : (g u : String) → KeepsDb (remove_user_from_group g u)
remove-KeepsDb g u = record { at = remove-IsValid g u }

delete_user-KeepsDb : (u : String) → KeepsDb (delete_user u)
delete_user-KeepsDb u = record { at = delete_user-IsValid u }

delete_all_data-KeepsDb : KeepsDb delete_all_data
unfolding delete_all_data
delete_all_data-KeepsDb = record { at = λ db v. empty-IsValid }

asks-KeepsDb : (u g : String) → KeepsDb (is_user_part_of_group u g)
asks-KeepsDb u g = record { at = asks-IsValid u g }

ruleset valid_rules = (
  keeps_rules, add-KeepsDb, create_user-KeepsDb, create_group-KeepsDb, remove-KeepsDb,
  delete_user-KeepsDb, delete_all_data-KeepsDb, asks-KeepsDb,
)

ruleset atomic_rules = (
  commits_rules, add-IsAtomic, create_user-IsAtomic, create_group-IsAtomic, delete_user-IsAtomic,
  delete_all_data-IsAtomic, asks-IsAtomic, remove-IsAtomic,
)

module _ {J : Type 0} (json : JsonLib J) (crypto : Crypto) where
  write_envelope-Reads : (k : Bytes) (ka : KeyArray) → Reads (write_envelope json crypto k ka)
  unfolding write_envelope
  write_envelope-Reads k [] = record { at = λ s. refl }
  write_envelope-Reads k (key ∷ ka) = record { at = λ s. refl }

  get_keys-Reads : (g : String) → Reads (on_database (get_keys_of_group g))
  unfolding on_database get_keys_of_group
  get_keys-Reads g = record { at = λ s. ground arith }

  pub generate_envelope-Reads : (j : J) → Reads (generate_envelope json crypto j)
  unfolding generate_envelope
  generate_envelope-Reads j =
      search (Reads-bind, Reads-lift, get_keys-Reads, write_envelope-Reads) depth 9

  process_get-Reads : (r : Request) → Reads (process_get json crypto r)
  unfolding process_get
  process_get-Reads r = record { at = λ s. ground arith }

  create_user_request-Keeps : (j : J) → Keeps (create_user_request json crypto j)
  unfolding create_user_request
  create_user_request-Keeps j = search valid_rules depth 9

  create_user_request-Commits : (j : J) → Commits (create_user_request json crypto j)
  unfolding create_user_request
  create_user_request-Commits j = search atomic_rules depth 9

  process_put-Keeps : (r : Request) → Keeps (process_put json crypto r)
  unfolding process_put
  process_put-Keeps r = search valid_rules depth 9

  process_put-Commits : (r : Request) → Commits (process_put json crypto r)
  unfolding process_put
  process_put-Commits r = search atomic_rules depth 9

  post_command-Keeps : (c : String) (j : J) → Keeps (post_command json crypto c j)
  unfolding post_command
  post_command-Keeps c j =
      search (valid_rules, create_user_request-Keeps, generate_envelope-Reads) depth 12

  post_command-Commits : (c : String) (j : J) → Commits (post_command json crypto c j)
  unfolding post_command
  post_command-Commits c j =
      search (atomic_rules, create_user_request-Commits, generate_envelope-Reads) depth 12

  process_delete-Keeps : (r : Request) → Keeps (process_delete json crypto r)
  unfolding process_delete
  process_delete-Keeps r = search valid_rules depth 12

  process_delete-Commits : (r : Request) → Commits (process_delete json crypto r)
  unfolding process_delete
  process_delete-Commits r = search atomic_rules depth 12

  dispatch-Keeps : (r : Request) → Keeps (dispatch json crypto r)
  unfolding dispatch process_post
  dispatch-Keeps r =
      search
        (
          valid_rules, process_get-Reads, process_put-Keeps, post_command-Keeps,
          process_delete-Keeps,
        )
        depth 9

  pub dispatch-Commits : (r : Request) → Commits (dispatch json crypto r)
  unfolding dispatch process_post
  dispatch-Commits r =
      search
        (
          atomic_rules, process_get-Reads, process_put-Commits, post_command-Commits,
          process_delete-Commits,
        )
        depth 9

  -- Whatever the request and the answer, the database stays valid.
  pub process_input-IsValid :
      (r : Request) (s : AnonymBe) (draws : ℕ)
      → IsValid s.database_
      → IsValid (process_input json crypto r s draws).1.database_
  unfolding process_input
  process_input-IsValid r s draws v = (dispatch-Keeps r).at (begin json crypto s draws) v

  not-refused :
      (r : Request) (e : Result AskyError) (m : KvString) (h : Headers) (p : HttpString)
      (why body : String)
      → answer json crypto (conclude r e m) ≡ ok (response p 400 why h body)
      → e ≢ ok no_error
  unfolding answer conclude positive_response catch_dump
  not-refused r e m h p why body a n = ground arith

  -- In a valid database: a request that is answered with code 400 has left the database as it was,
  -- whatever the request is.
  pub process_input_refused :
      (r : Request) (s : AnonymBe) (draws : ℕ) (p : HttpString) (why : String) (h : Headers)
      (body : String)
      → IsValid s.database_
      → (process_input json crypto r s draws).0 ≡ ok (response p 400 why h body)
      → (process_input json crypto r s draws).1.database_ ≡ s.database_
  unfolding process_input
  process_input_refused r s draws p why h body v a =
      let t = dispatch json crypto r (begin json crypto s draws) in
      (dispatch-Commits r).at (begin json crypto s draws) v
        (not-refused r t.0 t.1.reply h p why body a)
