-- ===== src/Database/Invariant.antt =====
-- The invariant of the database: both maps and every member set are in key order, and every
-- member of a group is a user.
use anonym_sharing.Base.{
  subst, Exec, pure, ◌>>=◌, state-bind-pure, sym, ◌∙◌, inl, inr, Option-cases, Bool-cases, ◌&&◌,
  ◌≡◌, String, true, some, [], arith,
}
use anonym_sharing.Std.Order.{Bytes, string_order, cmp_string_eq}
use anonym_sharing.Std.Map.{
  Set, find, insert, erase, IsSorted, find-insert, find-erase, insert-IsSorted, erase-IsSorted,
}
use anonym_sharing.Database.{
  erase_member, MemDatabase, empty, has, add_user_to_group, create_user, create_group, delete_user,
  delete_all_data, is_user_part_of_group, remove_user_from_group, get_keys_of_group,
}
use anonym_sharing.Database.Calls.{
  Answer, done, belongs, keys, Call, apply, adds_user_to_group, creates_user, creates_group,
  deletes_user, deletes_all_data, asks_membership, removes_user_from_group, gets_keys_of_group,
}
use anonym_sharing.Database.Laws.{erase_in-some, find-erase_member, erase_member-IsSorted}

pub record IsValid (db : MemDatabase) : Type 0 where
  pub groups_sorted : IsSorted db.groups
  pub users_sorted : IsSorted db.users
  pub sets_sorted : (g : String) (s : Set String) → find g db.groups ≡ some s → IsSorted s
  pub closed :
      (g u : String) (s : Set String)
      → find g db.groups ≡ some s
      → has u s ≡ true
      → has u db.users ≡ true

pub empty-IsValid : IsValid empty
unfolding find
empty-IsValid = record {
  groups_sorted = tt;
  users_sorted = tt;
  sets_sorted = λ g s h. cc;
  closed = λ g u s h k. cc;
}

-- A write of one group keeps the invariant if the new set is in order and holds users only.
put_group-IsValid :
    (g : String) (s : Set String) {db : MemDatabase}
    → IsValid db
    → IsSorted s
    → ((u : String) → has u s ≡ true → has u db.users ≡ true)
    → IsValid (record db { groups = insert g s db.groups })
put_group-IsValid g s {db} v sorted known = record {
  groups_sorted = insert-IsSorted g s db.groups v.groups_sorted;
  users_sorted = v.users_sorted;
  sets_sorted = λ h t e. ground (arith, find-insert g h s db.groups, v.sets_sorted h t);
  closed = λ h u t e k. ground (arith, find-insert g h s db.groups, v.closed h u t, known u);
}

pub add-IsValid :
    (g u : String) (db : MemDatabase) → IsValid db → IsValid (add_user_to_group g u db).1
unfolding add_user_to_group
add-IsValid g u db v = elim (Option-cases (find g db.groups)) [
  | inl e ↦ rw (e, add_user_to_group) v
  | inr (s, e) ↦ elim (Bool-cases (has u db.users)) [
    | inl k ↦
        rw (e, k, add_user_to_group)
          (put_group-IsValid g (insert u tt s) v (insert-IsSorted u tt s (v.sets_sorted g s e))
            (λ w m. ground (arith, find-insert u w tt s, v.closed g w s, cmp_string_eq u w)))
    | inr k ↦ rw (e, k, add_user_to_group) v
  ]
]

pub create_group-IsValid :
    (g u : String) (db : MemDatabase) → IsValid db → IsValid (create_group g u db).1
unfolding create_group find
create_group-IsValid g u db v = elim (Bool-cases (has g db.groups)) [
  | inl e ↦ rw (e, create_group) v
  | inr e ↦ elim (Bool-cases (has u db.users)) [
    | inl k ↦
        rw (e, k, create_group)
          (put_group-IsValid g (insert u tt []) v (insert-IsSorted u tt [] tt)
            (λ w m. ground (arith, find-insert {0, 0} u w tt [], cmp_string_eq u w)))
    | inr k ↦ rw (e, k, create_group) v
  ]
]

pub remove-IsValid :
    (g u : String) (db : MemDatabase) → IsValid db → IsValid (remove_user_from_group g u db).1
unfolding remove_user_from_group
remove-IsValid g u db v = elim (Option-cases (find g db.groups)) [
  | inl e ↦ rw (e, remove_user_from_group) v
  | inr (s, e) ↦ elim (Bool-cases (has u db.users && has u s)) [
    | inl k ↦ ground (
      arith,
      put_group-IsValid g (erase u s) v (erase-IsSorted u s (v.sets_sorted g s e))
          (λ w m. ground (arith, find-erase u w s, v.closed g w s)),
    )
    | inr k ↦ ground arith
  ]
]

pub create_user-IsValid :
    (u : String) (k : Bytes) (db : MemDatabase) → IsValid db → IsValid (create_user u k db).1
unfolding create_user
create_user-IsValid u k db v = elim (Bool-cases (has u db.users)) [
  | inl e ↦ rw (e, create_user) v
  | inr e ↦
      rw (e, create_user)
        (record {
          groups_sorted = v.groups_sorted;
          users_sorted = insert-IsSorted u k db.users v.users_sorted;
          sets_sorted = v.sets_sorted;
          closed = λ h w t f m. ground (arith, find-insert u w k db.users, v.closed h w t);
        })
]

pub delete_user-IsValid :
    (u : String) (db : MemDatabase) → IsValid db → IsValid (delete_user u db).1
unfolding delete_user
delete_user-IsValid u db v = record {
  groups_sorted = erase_member-IsSorted u db.groups v.groups_sorted;
  users_sorted = erase-IsSorted u db.users v.users_sorted;
  sets_sorted =
      λ h t e. let (s, f, k) = source h t e in rw k (erase-IsSorted u s (v.sets_sorted h s f));
  closed = λ h w t e m.
      let (s, f, k) = source h t e in
      ground (arith, find-erase u w s, find-erase u w db.users, v.closed h w s);
}
  where
    source :
        (h : String) (t : Set String)
        → find h (erase_member u db.groups) ≡ some t
        → (s : Set String) × (find h db.groups ≡ some s) × (t ≡ erase u s)
    source h t e = erase_in-some u (find h db.groups) t (sym (find-erase_member u h db.groups) ∙ e)

pub asks-IsValid :
    (u g : String) (db : MemDatabase) → IsValid db → IsValid (is_user_part_of_group u g db).1
unfolding is_user_part_of_group
asks-IsValid u g db v = elim (Option-cases (find g db.groups)) [
  | inl e ↦ rw (e, is_user_part_of_group) v
  | inr (s, e) ↦ rw (e, is_user_part_of_group) v
]

pub get_keys_of_group_state : (g : String) (db : MemDatabase) → (get_keys_of_group g db).1 ≡ db
unfolding get_keys_of_group
get_keys_of_group_state g db = ground arith

-- Converting the result of a method keeps the invariant.
keep :
    {A : Type 0} (m : Exec MemDatabase A) (f : A → Answer) (db : MemDatabase)
    → IsValid (m db).1
    → IsValid ((m >>= λ a. pure (f a)) db).1
keep m f db v = subst IsValid (sym (state-bind-pure m f db)) v

-- Every call keeps the database valid, whether it returns or throws.
pub apply-IsValid : (c : Call) (db : MemDatabase) → IsValid db → IsValid (apply c db).1
unfolding apply
apply-IsValid (adds_user_to_group g u) db v =
    keep (add_user_to_group g u) (λ _. done) db (add-IsValid g u db v)
apply-IsValid (creates_user u k) db v =
    keep (create_user u k) (λ _. done) db (create_user-IsValid u k db v)
apply-IsValid (creates_group g u) db v =
    keep (create_group g u) (λ _. done) db (create_group-IsValid g u db v)
apply-IsValid (deletes_user u) db v =
    keep (delete_user u) (λ _. done) db (delete_user-IsValid u db v)
apply-IsValid deletes_all_data db v =
    keep delete_all_data (λ _. done) db (unfold delete_all_data in empty-IsValid)
apply-IsValid (asks_membership u g) db v =
    keep (is_user_part_of_group u g) belongs db (asks-IsValid u g db v)
apply-IsValid (removes_user_from_group g u) db v =
    keep (remove_user_from_group g u) (λ _. done) db (remove-IsValid g u db v)
apply-IsValid (gets_keys_of_group g) db v =
    keep (get_keys_of_group g) keys db (rw (get_keys_of_group_state g db) v)
