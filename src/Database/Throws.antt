-- ===== src/Database/Throws.antt =====
-- A call that throws has changed nothing.
use anonym_sharing.Base.{
  ◌≡◌, refl, ◌∙◌, String, true, none, some, Option, arith, Exec, pure, continue, Result, ok, raise,
  Exception, ◌>>=◌, inl, inr, Option-cases, is_some, state-bind-pure,
}
use anonym_sharing.Std.Order.{Bytes, string_order}
use anonym_sharing.Std.Map.{Set, find, insert, insert_self}
use anonym_sharing.Database.{
  add_user_to_group, create_user, create_group, delete_user, delete_all_data, is_user_part_of_group,
  remove_user_from_group, get_keys_of_group, MemDatabase, has,
}
use anonym_sharing.Database.Calls.{
  Call, Answer, done, belongs, keys, apply, adds_user_to_group, creates_user, creates_group,
  deletes_user, deletes_all_data, asks_membership, removes_user_from_group, gets_keys_of_group,
}
use anonym_sharing.Database.Invariant.{IsValid}

Unit-some : (o : Option (Unit {0})) → is_some o ≡ true → o ≡ some tt
Unit-some none h = cc
Unit-some (some tt) h = refl

re_add :
    (g u : String) (s : Set String) (db : MemDatabase)
    → IsValid db
    → find g db.groups ≡ some s
    → has u s ≡ true
    → insert g (insert u tt s) db.groups ≡ db.groups
re_add g u s db v e k =
    rw (insert_self u tt s (v.sets_sorted g s e) (Unit-some (find u s) k))
      (insert_self g s db.groups v.groups_sorted e)

-- A method that throws leaves a valid database as it was.
pub record IsAtomic {A : Type 0} (m : Exec MemDatabase A) : Type 0 where
  pub at : (db : MemDatabase) (x : Exception) → IsValid db → (m db).0 ≡ raise x → (m db).1 ≡ db

-- An insertion that finds its member there throws `logic_error` after it has written, and what it
-- has written was there before.
pub add-IsAtomic : (g u : String) → IsAtomic (add_user_to_group g u)
unfolding add_user_to_group
add-IsAtomic g u = record {
  at = λ db x v h. elim (Option-cases (find g db.groups)) [
    | inl e ↦ ground arith
    | inr (s, e) ↦ ground (arith, re_add g u s db v)
  ];
}

pub create_user-IsAtomic : (u : String) (k : Bytes) → IsAtomic (create_user u k)
unfolding create_user
create_user-IsAtomic u k = record { at = λ db x v h. ground arith }

pub create_group-IsAtomic : (g u : String) → IsAtomic (create_group g u)
unfolding create_group
create_group-IsAtomic g u = record { at = λ db x v h. ground arith }

pub delete_user-IsAtomic : (u : String) → IsAtomic (delete_user u)
unfolding delete_user
delete_user-IsAtomic u = record { at = λ db x v h. cc }

pub delete_all_data-IsAtomic : IsAtomic delete_all_data
unfolding delete_all_data
delete_all_data-IsAtomic = record { at = λ db x v h. cc }

pub asks-IsAtomic : (u g : String) → IsAtomic (is_user_part_of_group u g)
unfolding is_user_part_of_group
asks-IsAtomic u g = record { at = λ db x v h. ground arith }

pub remove-IsAtomic : (g u : String) → IsAtomic (remove_user_from_group g u)
unfolding remove_user_from_group
remove-IsAtomic g u = record { at = λ db x v h. ground arith }

pub get_keys-IsAtomic : (g : String) → IsAtomic (get_keys_of_group g)
unfolding get_keys_of_group
get_keys-IsAtomic g = record { at = λ db x v h. ground arith }

raise-continue :
    {A : Type 0} (r : Result A) (f : A → Answer) (db : MemDatabase) (x : Exception)
    → (continue r (λ a. pure (f a)) db).0 ≡ raise x
    → r ≡ raise x
raise-continue (ok a) f db x h = cc
raise-continue (raise e) f db x h = ground arith

IsAtomic-bind-pure :
    {A : Type 0} {m : Exec MemDatabase A} (f : A → Answer)
    → IsAtomic m
    → IsAtomic (m >>= λ a. pure (f a))
IsAtomic-bind-pure {m} f a = record {
  at = λ db x v h. state-bind-pure m f db ∙ a.at db x v (raise-continue (m db).0 f (m db).1 x h);
}

apply-IsAtomic : (c : Call) → IsAtomic (apply c)
unfolding apply
apply-IsAtomic (adds_user_to_group g u) = IsAtomic-bind-pure (λ _. done) (add-IsAtomic g u)
apply-IsAtomic (creates_user u k) = IsAtomic-bind-pure (λ _. done) (create_user-IsAtomic u k)
apply-IsAtomic (creates_group g u) = IsAtomic-bind-pure (λ _. done) (create_group-IsAtomic g u)
apply-IsAtomic (deletes_user u) = IsAtomic-bind-pure (λ _. done) (delete_user-IsAtomic u)
apply-IsAtomic deletes_all_data = IsAtomic-bind-pure (λ _. done) delete_all_data-IsAtomic
apply-IsAtomic (asks_membership u g) = IsAtomic-bind-pure belongs (asks-IsAtomic u g)
apply-IsAtomic (removes_user_from_group g u) = IsAtomic-bind-pure (λ _. done) (remove-IsAtomic g u)
apply-IsAtomic (gets_keys_of_group g) = IsAtomic-bind-pure keys (get_keys-IsAtomic g)

-- A call that throws, whatever it throws, leaves a valid database as it was.
pub apply_throws :
    (c : Call) (db : MemDatabase) (x : Exception)
    → IsValid db
    → (apply c db).0 ≡ raise x
    → (apply c db).1 ≡ db
apply_throws c db x v h = (apply-IsAtomic c).at db x v h
