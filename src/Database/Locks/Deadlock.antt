-- ===== src/Database/Locks/Deadlock.antt =====
-- A deletion takes the users first, so it may wait for a call that waits for it.
use anonym_sharing.Base.{
  ℕ, zero, suc, String, true, false, List, [], ◌∷◌, none, some, ◌≡◌, ◌≢◌, refl,
}
use anonym_sharing.Std.Order.{string_order}
use anonym_sharing.Std.Map.{Set, find}
use anonym_sharing.Database.{MemDatabase, has}
use anonym_sharing.Database.Calls.{
  Call, adds_user_to_group, creates_user, creates_group, deletes_user, deletes_all_data,
  asks_membership, removes_user_from_group, gets_keys_of_group,
}
use anonym_sharing.Database.Locks.{
  groups, users, Act, acquire, release, locks, Threads, start, advance, advance_left, Reach, here,
  next, member_blocks,
}
use anonym_sharing.Database.Locks.Order.{is_deletion}

-- The call looks a user up while it has the groups.
abbrev pub LooksUpUser : Call → MemDatabase → Type 0
LooksUpUser (adds_user_to_group g u) db = has g db.groups ≡ true
LooksUpUser (creates_group g u) db = has g db.groups ≡ false
LooksUpUser (removes_user_from_group g u) db = has g db.groups ≡ true
LooksUpUser (gets_keys_of_group g) db =
    (u : String) × (s : Set String) × (find g db.groups ≡ some ((u, tt) ∷ s))
LooksUpUser _ db = ⊥

looks_up :
    (c : Call) (db : MemDatabase)
    → LooksUpUser c db
    → (p : List Act) × (locks c db ≡ acquire groups ∷ acquire users ∷ p)
unfolding locks
looks_up (adds_user_to_group g u) db h = (release users ∷ release groups ∷ [], rw h)
looks_up (creates_group g u) db h = (release users ∷ release groups ∷ [], rw h)
looks_up (removes_user_from_group g u) db h = (release users ∷ release groups ∷ [], rw h)
looks_up (gets_keys_of_group g) db (u, s, e) =
    (release users ∷ member_blocks s (release groups ∷ []), rw e)
looks_up (creates_user u k) db h = absurd h
looks_up (deletes_user u) db h = absurd h
looks_up deletes_all_data db h = absurd h
looks_up (asks_membership u g) db h = absurd h

deletes :
    (c : Call) (db : MemDatabase)
    → is_deletion c ≡ true
    → (p : List Act) × (locks c db ≡ acquire users ∷ acquire groups ∷ p)
unfolding locks
deletes (deletes_user u) db h = (release groups ∷ release users ∷ [], refl)
deletes deletes_all_data db h = (release groups ∷ release users ∷ [], refl)
deletes _ db h = cc

-- Thread 0 runs p, and thread 1 runs q.
abbrev pub two : List Act → List Act → ℕ → List Act
two p q zero = p
two p q (suc zero) = q
two p q (suc (suc n)) = []

-- Both threads have work left, and neither can take a step.
pub record IsDeadlock (s : Threads) : Type 0 where
  pub first_left : s.left 0 ≢ []
  pub second_left : s.left 1 ≢ []
  pub first_waits : advance 0 s ≡ none
  pub second_waits : advance 1 s ≡ none

circle :
    (p q : List Act)
    → (s : Threads) × Reach
        (start (two (acquire groups ∷ acquire users ∷ p) (acquire users ∷ acquire groups ∷ q)))
        s
      × IsDeadlock s
unfolding advance
circle p q = (
  record {
    left = advance_left 1 (acquire groups ∷ q) (
        advance_left 0 (acquire users ∷ p)
          (two (acquire groups ∷ acquire users ∷ p) (acquire users ∷ acquire groups ∷ q)));
    groups_owner = some 0;
    users_owner = some 1;
  },
  next 1 (next 0 here refl) refl,
  record { first_left = λ e. cc; second_left = λ e. cc; first_waits = refl; second_waits = refl },
)

-- A call that looks a user up while it has the groups, and a deletion in another thread, can reach
-- a state in which both have work left and neither can take a step.
pub deletion_deadlocks :
    (c d : Call) (db : MemDatabase)
    → LooksUpUser c db
    → is_deletion d ≡ true
    → (s : Threads) × Reach (start (two (locks c db) (locks d db))) s × IsDeadlock s
deletion_deadlocks c d db h k =
    let (p, e) = looks_up c db h in let (q, f) = deletes d db k in rw (e, f) (circle p q)
