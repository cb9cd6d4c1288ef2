-- ===== src/Database/Refinement.antt =====
-- The methods of the database implement the abstract steps of `Spec`.
use anonym_sharing.Base.{
  [], ◌≡◌, refl, ◌∙◌, ap, String, true, false, some, arith, inl, inr, Option-cases, Bool-cases,
  state-bind-pure,
}
use mathlib.Core.Path.{fun_ext}
use anonym_sharing.Std.Order.{Bytes, string_order}
use anonym_sharing.Std.Map.{Set, find, insert, erase, find-insert, find-erase}
use anonym_sharing.Database.{
  erase_member, MemDatabase, has, add_user_to_group, create_user, create_group, delete_user,
  delete_all_data, is_user_part_of_group, remove_user_from_group, get_keys_of_group,
}
use anonym_sharing.Database.Laws.{find-erase_member}
use anonym_sharing.Database.Calls.{
  Call, done, apply, adds_user_to_group, creates_user, creates_group, deletes_user,
  deletes_all_data, asks_membership, removes_user_from_group, gets_keys_of_group,
}
use anonym_sharing.Database.Spec.{view, step, update, test_of, without}

test_of-insert :
    (u : String) (s : Set String)
    → test_of (some (insert u tt s)) ≡ some (update (λ w. has w s) u true)
test_of-insert u s = ap some (fun_ext λ w. ground (arith, find-insert u w tt s))

test_of-erase :
    (u : String) (s : Set String)
    → test_of (some (erase u s)) ≡ some (update (λ w. has w s) u false)
test_of-erase u s = ap some (fun_ext λ w. ground (arith, find-erase u w s))

view-put_group :
    (g : String) (s : Set String) (db : MemDatabase)
    → view (record db { groups = insert g s db.groups })
      ≡ record (view db) { members = update (view db).members g (test_of (some s)) }
view-put_group g s db =
    λ i. record { key_of = (view db).key_of; members = fun_ext (λ h. pointwise h) i }
  where
    pointwise :
        (h : String)
        → test_of (find h (insert g s db.groups))
          ≡ update (λ k. test_of (find k db.groups)) g (test_of (some s)) h
    pointwise h = ground (arith, find-insert g h s db.groups)

pub refines_add :
    (g u : String) (db : MemDatabase)
    → view (add_user_to_group g u db).1 ≡ step (adds_user_to_group g u) (view db)
unfolding add_user_to_group step
refines_add g u db = elim (Option-cases (find g db.groups)) [
  | inl e ↦ rw (e, add_user_to_group, step)
  | inr (s, e) ↦ elim (Bool-cases (has u db.users)) [
    | inl k ↦
        rw (e, k, add_user_to_group, step)
          (rw (← test_of-insert u s) (view-put_group g (insert u tt s) db))
    | inr k ↦ rw (e, k, add_user_to_group, step)
  ]
]

pub refines_create_group :
    (g u : String) (db : MemDatabase)
    → view (create_group g u db).1 ≡ step (creates_group g u) (view db)
unfolding create_group step find
refines_create_group g u db = elim (Option-cases (find g db.groups)) [
  | inl e ↦ elim (Bool-cases (has u db.users)) [
    | inl k ↦
        rw (e, k, create_group, step)
          (view-put_group g (insert u tt []) db ∙ rw (test_of-insert u []))
    | inr k ↦ rw (e, k, create_group, step)
  ]
  | inr (s, e) ↦ rw (e, create_group, step)
]

refines_remove :
    (g u : String) (db : MemDatabase)
    → view (remove_user_from_group g u db).1 ≡ step (removes_user_from_group g u) (view db)
unfolding remove_user_from_group step
refines_remove g u db = elim (Option-cases (find g db.groups)) [
  | inl e ↦ rw (e, remove_user_from_group, step)
  | inr (s, e) ↦ elim (Bool-cases (has u db.users)) [
    | inl k ↦ elim (Bool-cases (has u s)) [
      | inl m ↦
          rw (e, k, m, remove_user_from_group, step)
            (rw (← test_of-erase u s) (view-put_group g (erase u s) db))
      | inr m ↦ rw (e, k, m, remove_user_from_group, step)
    ]
    | inr k ↦ rw (e, k, remove_user_from_group, step)
  ]
]

pub refines_create_user :
    (u : String) (k : Bytes) (db : MemDatabase)
    → view (create_user u k db).1 ≡ step (creates_user u k) (view db)
unfolding create_user step
refines_create_user u k db = elim (Bool-cases (has u db.users)) [
  | inl e ↦ rw (e, create_user, step)
  | inr e ↦
      rw (e, create_user, step)
        (λ i. record { key_of = fun_ext (λ w. pointwise w) i; members = (view db).members })
]
  where
    pointwise :
        (w : String) → find w (insert u k db.users) ≡ update (λ x. find x db.users) u (some k) w
    pointwise w = find-insert u w k db.users

refines_delete_user :
    (u : String) (db : MemDatabase) → view (delete_user u db).1 ≡ step (deletes_user u) (view db)
unfolding delete_user step
refines_delete_user u db = λ i. record {
  key_of = fun_ext (λ w. find-erase u w db.users) i;
  members = fun_ext (λ g. group g) i;
}
  where
    group :
        (g : String)
        → test_of (find g (erase_member u db.groups)) ≡ without u (test_of (find g db.groups))
    group g = elim (Option-cases (find g db.groups)) [
      | inl e ↦ rw (find-erase_member, e)
      | inr (s, e) ↦ rw (find-erase_member, e) (test_of-erase u s)
    ]

-- After any call the abstract state is the one that the abstract step gives.
pub view-apply : (c : Call) (db : MemDatabase) → view (apply c db).1 ≡ step c (view db)
unfolding apply
view-apply (adds_user_to_group g u) db =
    ap view (state-bind-pure (add_user_to_group g u) (λ _. done) db) ∙ refines_add g u db
view-apply (creates_user u k) db =
    ap view (state-bind-pure (create_user u k) (λ _. done) db) ∙ refines_create_user u k db
view-apply (creates_group g u) db =
    ap view (state-bind-pure (create_group g u) (λ _. done) db) ∙ refines_create_group g u db
view-apply (deletes_user u) db =
    ap view (state-bind-pure (delete_user u) (λ _. done) db) ∙ refines_delete_user u db
view-apply deletes_all_data db = unfold delete_all_data step find in refl
view-apply (asks_membership u g) db = unfold is_user_part_of_group step in ground arith
view-apply (removes_user_from_group g u) db =
    ap view (state-bind-pure (remove_user_from_group g u) (λ _. done) db) ∙ refines_remove g u db
view-apply (gets_keys_of_group g) db = unfold get_keys_of_group step in ground arith
