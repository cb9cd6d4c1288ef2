-- ===== src/Database/Locks.antt =====
-- The mutexes of MemDatabase (memory_database.h and memory_database.cpp): what each method locks
-- and unlocks, in order, and the interleavings of methods that run in different threads. A
-- `std::lock_guard` is an `acquire` where it is declared and a `release` at the end of its block,
-- also where the block ends by a throw.
pub mod Order
pub mod Deadlock
use anonym_sharing.Base.{
  ℕ, String, Bool, List, [], ◌∷◌, ◌++◌, none, some, Option, if◌then◌else◌, ◌==◌, ◌≡◌,
}
use anonym_sharing.Std.Order.{string_order}
use anonym_sharing.Std.Map.{Set, find}
use anonym_sharing.Database.{MemDatabase, has}
use anonym_sharing.Database.Calls.{
  Call, adds_user_to_group, creates_user, creates_group, deletes_user, deletes_all_data,
  asks_membership, removes_user_from_group, gets_keys_of_group,
}

-- gmutex_ and umutex_
pub data Mutex : Type 0 where
  groups users : Mutex

pub data Act : Type 0 where
  acquire release : Mutex → Act

-- { std::lock_guard<std::mutex> lock(umutex_); ... }
abbrev pub users_block : List Act
users_block = acquire users ∷ release users ∷ []

-- One block on the users for each member.
abbrev pub member_blocks : Set String → List Act → List Act
member_blocks [] rest = rest
member_blocks ((uid, _) ∷ members) rest = acquire users ∷ release users ∷ member_blocks members rest

-- What is locked after the groups: nothing more where the group is missing, for the test of the
-- user one block, for the keys one for each member.
abbrev pub keys_acts : Option (Set String) → List Act → List Act
keys_acts none rest = rest
keys_acts (some members) rest = member_blocks members rest

-- The locks that a call takes when it runs on `db`.
unfoldable pub locks : Call → MemDatabase → List Act
locks (adds_user_to_group g u) db =
    acquire groups ∷ (if has g db.groups then users_block else []) ++ (release groups ∷ [])
locks (creates_user u k) db = users_block
locks (creates_group g u) db =
    acquire groups ∷ (if has g db.groups then [] else users_block) ++ (release groups ∷ [])
locks (deletes_user u) db = acquire users ∷ acquire groups ∷ release groups ∷ release users ∷ []
locks deletes_all_data db = acquire users ∷ acquire groups ∷ release groups ∷ release users ∷ []
locks (asks_membership u g) db = []
locks (removes_user_from_group g u) db =
    acquire groups ∷ (if has g db.groups then users_block else []) ++ (release groups ∷ [])
locks (gets_keys_of_group g) db =
    acquire groups ∷ keys_acts (find g db.groups) (release groups ∷ [])

-- A thread runs its calls one after the other, each on the database as it then is.
unfoldable pub program : List (Call × MemDatabase) → List Act
unfolding locks
program [] = []
program ((c, db) ∷ calls) = locks c db ++ program calls

-- What each thread has still to do, and which thread has each mutex.
pub record Threads : Type 0 where
  pub left : ℕ → List Act
  pub groups_owner : Option ℕ
  pub users_owner : Option ℕ

abbrev pub start : (ℕ → List Act) → Threads
start left = record { left = left; groups_owner = none; users_owner = none }

abbrev pub advance_left : ℕ → List Act → (ℕ → List Act) → ℕ → List Act
advance_left i rest left j = if j == i then rest else left j

-- Thread i takes its next step. `none`: it has ended, or it waits for a mutex.
unfoldable pub perform : ℕ → List Act → Threads → Option Threads
perform i [] s = none
perform i (acquire groups ∷ rest) s = elim s.groups_owner [
  | none ↦ some (record s { left = advance_left i rest s.left; groups_owner = some i })
  | some j ↦ none
]
perform i (acquire users ∷ rest) s = elim s.users_owner [
  | none ↦ some (record s { left = advance_left i rest s.left; users_owner = some i })
  | some j ↦ none
]
perform i (release groups ∷ rest) s =
    some (record s { left = advance_left i rest s.left; groups_owner = none })
perform i (release users ∷ rest) s =
    some (record s { left = advance_left i rest s.left; users_owner = none })

unfoldable pub advance : ℕ → Threads → Option Threads
unfolding perform
advance i s = perform i (s.left i) s

pub data Reach (s : Threads) : Threads → Type 0 where
  here : Reach s s
  next : {t u : Threads} (i : ℕ) → Reach s t → advance i t ≡ some u → Reach s u
