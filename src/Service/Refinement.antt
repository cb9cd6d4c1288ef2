-- ===== src/Service/Refinement.antt =====
-- The access monitor as a whole: each request is one step of what the database promises, and its
-- answer says whether the step was possible.
use anonym_sharing.Base.{
  ℕ, suc, ◌≡◌, refl, ap, Bool-cases, inl, inr, ◌⊎◌, ◌==◌, ◌∙◌, arith, String, true, Option, none,
  some, Result, ok, raise, invalid_argument, logic_error, out_of_range, parse_error, type_error,
  std_exception, unknown, is_some, ◌↔◌,
}
use anonym_sharing.Platform.{JsonLib, Crypto, Request, Response, response, KvString}
use anonym_sharing.Database.{
  MemDatabase, add_user_to_group, create_user, create_group, delete_user, delete_all_data,
  is_user_part_of_group, get_keys_of_group, remove_user_from_group,
}
use anonym_sharing.Database.Calls.{
  Call, Answer, apply, adds_user_to_group, creates_user, creates_group, deletes_user,
  deletes_all_data, removes_user_from_group, asks_membership, gets_keys_of_group,
}
use anonym_sharing.Database.Spec.{Spec, view, step}
use anonym_sharing.Database.Refinement.{view-apply}
use anonym_sharing.Database.Allowed.{IsAllowed, returns_iff_IsAllowed, is_ok}
use anonym_sharing.Database.Invariant.{IsValid}
use anonym_sharing.Service.{AnonymBe}
use anonym_sharing.Service.Server.{
  process_input, begin, answer, conclude, positive_response, negative_response, catch_dump, posrep,
  negrep, dispatch,
}
use anonym_sharing.Service.Commands.{command, changed, outcome, dispatch-Performs}

-- The abstract step of a request.
abbrev pub stepped : Option Call → Spec → Spec
stepped none a = a
stepped (some c) a = step c a

view-changed : (c : Option Call) (db : MemDatabase) → view (changed c db) ≡ stepped c (view db)
view-changed none db = refl
view-changed (some c) db = view-apply c db

-- A member that is added once more is no failure: the answer has its message as "info".
abbrev pub IsAccepted : Call → Spec → Type 0
IsAccepted (adds_user_to_group g u) a =
    (is_some (a.members g) ≡ true) × (is_some (a.key_of u) ≡ true)
IsAccepted c a = IsAllowed c a

-- The code of the answer to a call that ends so.
abbrev code_for : {A : Type 0} → Result A → ℕ
code_for (ok _) = 200
code_for (raise (logic_error w)) = 200
code_for (raise (invalid_argument w)) = 400
code_for (raise _) = 0

-- The code of a response; 0 for none.
abbrev pub code_of : Result Response → ℕ
code_of (ok (response p code why headers body)) = code
code_of _ = 0

code_for-ok : {A : Type 0} (r : Result A) → is_ok r ≡ true → code_for r ≡ 200
code_for-ok (ok a) h = refl
code_for-ok (raise e) h = cc

accepted : (c : Call) (db : MemDatabase) → IsAccepted c (view db) → code_for (apply c db).0 ≡ 200
unfolding apply
accepted (adds_user_to_group g u) db h = unfold add_user_to_group in ground arith
accepted (creates_user u k) db h = unfold create_user in ground arith
accepted (creates_group g u) db h = unfold create_group in ground arith
accepted (deletes_user u) db h = unfold delete_user in refl
accepted deletes_all_data db h = unfold delete_all_data in refl
accepted (asks_membership u g) db h = unfold is_user_part_of_group in ground arith
accepted (removes_user_from_group g u) db h = unfold remove_user_from_group in ground arith
accepted (gets_keys_of_group g) db h =
    code_for-ok _ ((returns_iff_IsAllowed (gets_keys_of_group g) db).1 h)

IsAccepted-at :
    (c : Call) (db : MemDatabase) → code_for (apply c db).0 ≡ 200 → IsAccepted c (view db)
unfolding apply
IsAccepted-at (adds_user_to_group g u) db h = unfold add_user_to_group in ground arith
IsAccepted-at (creates_user u k) db h = unfold create_user in ground arith
IsAccepted-at (creates_group g u) db h = unfold create_group in ground arith
IsAccepted-at (deletes_user u) db h = tt
IsAccepted-at deletes_all_data db h = tt
IsAccepted-at (asks_membership u g) db h = unfold is_user_part_of_group in ground arith
IsAccepted-at (removes_user_from_group g u) db h = unfold remove_user_from_group in ground arith
IsAccepted-at (gets_keys_of_group g) db h =
    let e : is_ok (apply (gets_keys_of_group g) db).0 ≡ true =
      unfold get_keys_of_group in ground arith in
    (returns_iff_IsAllowed (gets_keys_of_group g) db).0 e

IsAccepted-cases :
    (c : Call) (db : MemDatabase) → IsAccepted c (view db) ⊎ (¬ IsAccepted c (view db))
IsAccepted-cases c db = elim (Bool-cases (code_for (apply c db).0 == 200)) [
  | inl e ↦ inl (IsAccepted-at c db (ground (arith, e)))
  | inr e ↦ inr (λ a. let q = accepted c db a in ground (arith, e, q))
]

-- Two codes tell a property from its negation.
decided :
    {P : Type 0} {code : ℕ}
    → P ⊎ (¬ P)
    → (P → code ≡ 200)
    → (¬ P → code ≡ 400)
    → ((code ≡ 200) ↔ P) × ((code ≡ 400) ↔ (¬ P))
decided (inl p) f g = ((λ e. p, f), (λ e. absurd (omega (arith, f p, e)), g))
decided (inr n) f g = ((λ e. absurd (omega (arith, e, g n)), f), (λ e. n, g))

rejected : (c : Call) (db : MemDatabase) → ¬ IsAccepted c (view db) → code_for (apply c db).0 ≡ 400
unfolding apply
rejected (adds_user_to_group g u) db h = unfold add_user_to_group in ground (arith, h)
rejected (creates_user u k) db h = unfold create_user in ground (arith, h)
rejected (creates_group g u) db h = unfold create_group in ground (arith, h)
rejected (deletes_user u) db h = absurd (h tt)
rejected deletes_all_data db h = absurd (h tt)
rejected (asks_membership u g) db h = unfold is_user_part_of_group in ground (arith, h)
rejected (removes_user_from_group g u) db h = unfold remove_user_from_group in ground (arith, h)
rejected (gets_keys_of_group g) db h =
    let e : ¬ (is_ok (apply (gets_keys_of_group g) db).0 ≡ true) =
      λ q. h ((returns_iff_IsAllowed (gets_keys_of_group g) db).0 q) in
    unfold get_keys_of_group in ground (arith, e)

module _ {J : Type 0} (json : JsonLib J) (crypto : Crypto) where
  open json use {dump}

  -- Whatever a request is, the database after it is what the abstract step of the call that it asks
  -- for makes of the one before; a request that asks for no call leaves the database as it was.
  pub process_input_refines :
      (r : Request) (s : AnonymBe) (draws : ℕ)
      → view (process_input json crypto r s draws).1.database_
        ≡ stepped (command json crypto r draws) (view s.database_)
  unfolding process_input
  process_input_refines r s draws =
      ap view (dispatch-Performs json crypto r (begin json crypto s draws)).0
      ∙ view-changed (command json crypto r draws) s.database_

  printed :
      (f : String → Response) (n : ℕ) (x : Result String)
      → ((body : String) → code_of (ok (f body)) ≡ n)
      → is_ok x ≡ true
      → code_of (catch_dump json crypto (elim x [ ok body ↦ ok (f body) | raise e ↦ raise e ])) ≡ n
  unfolding catch_dump
  printed f n (ok body) code h = code body
  printed f n (raise e) code h = cc

  module _ (prints : (m : KvString) → is_ok (dump m) ≡ true) where
    code_of-answer :
        (r : Request) (x : Result Answer) (reply : KvString) (n : ℕ)
        → code_for x ≡ suc n
        → code_of (answer json crypto (conclude r (outcome x) reply)) ≡ suc n
    unfolding answer conclude positive_response negative_response
    code_of-answer r (ok a) reply n h = printed posrep (suc n) (dump _) (λ b. h) (prints _)
    code_of-answer r (raise (logic_error w)) reply n h =
        printed posrep (suc n) (dump _) (λ b. h) (prints _)
    code_of-answer r (raise (invalid_argument w)) reply n h =
        printed negrep (suc n) (dump _) (λ b. h) (prints _)
    code_of-answer r (raise (out_of_range w)) reply n h = cc
    code_of-answer r (raise (parse_error w)) reply n h = cc
    code_of-answer r (raise (type_error w)) reply n h = cc
    code_of-answer r (raise (std_exception w)) reply n h = cc
    code_of-answer r (raise unknown) reply n h = cc

  -- A request that asks for a call of the database is answered with code 200 exactly if the database
  -- allows the call or has the member that is to be added already, and else with code 400. (The
  -- database is valid, and the JSON library prints the answer.)
  pub process_input_answers :
      (r : Request) (c : Call) (s : AnonymBe) (draws : ℕ)
      → ((m : KvString) → is_ok (dump m) ≡ true)
      → IsValid s.database_
      → command json crypto r draws ≡ some c
      → let code = code_of (process_input json crypto r s draws).0 in
        ((code ≡ 200) ↔ IsAccepted c (view s.database_))
        × ((code ≡ 400) ↔ (¬ IsAccepted c (view s.database_)))
  unfolding process_input
  process_input_answers r c s draws prints v e =
      let t = dispatch json crypto r (begin json crypto s draws) in
      let ended = (dispatch-Performs json crypto r (begin json crypto s draws)).1 v c e in
      let x = (apply c s.database_).0 in
      decided (IsAccepted-cases c s.database_)
        (λ a. rw ended (code_of-answer prints r x t.1.reply 199 (accepted c s.database_ a)))
        (λ a. rw ended (code_of-answer prints r x t.1.reply 399 (rejected c s.database_ a)))
