-- ===== src/Database/Locks/Order.antt =====
-- The calls other than the deletions take the groups before the users, so they never wait for one
-- another in a circle.
use anonym_sharing.Base.{
  ℕ, String, Bool, true, false, List, [], ◌∷◌, ◌++◌, none, some, Option, if◌then◌else◌, ◌==◌, ◌≡◌,
  ◌≢◌, refl, subst, arith, inl, inr, Option-cases, All,
}
use anonym_sharing.Std.Order.{string_order}
use anonym_sharing.Std.Map.{Set, find}
use anonym_sharing.Database.{MemDatabase, has}
use anonym_sharing.Database.Calls.{
  Call, adds_user_to_group, creates_user, creates_group, deletes_user, deletes_all_data,
  asks_membership, removes_user_from_group, gets_keys_of_group,
}
use anonym_sharing.Database.Locks.{
  groups, users, Act, acquire, release, users_block, member_blocks, keys_acts, locks, program,
  Threads, start, perform, advance, advance_left, Reach, here, next,
}

-- What a thread that has the groups (g) and the users (u) may still do: it acquires nothing that
-- it has, takes the groups only without the users, releases only what it has, and ends with nothing.
abbrev pub Ordered : Bool → Bool → List Act → Type 0
Ordered g u [] = (g ≡ false) × (u ≡ false)
Ordered g u (acquire groups ∷ rest) = (g ≡ false) × (u ≡ false) × Ordered true false rest
Ordered g u (acquire users ∷ rest) = (u ≡ false) × Ordered g true rest
Ordered g u (release groups ∷ rest) = (g ≡ true) × Ordered false u rest
Ordered g u (release users ∷ rest) = (u ≡ true) × Ordered g false rest

abbrev pub is_deletion : Call → Bool
is_deletion (deletes_user u) = true
is_deletion deletes_all_data = true
is_deletion _ = false

member_blocks-Ordered :
    (s : Set String) → Ordered true false (member_blocks s (release groups ∷ []))
member_blocks-Ordered [] = (refl, (refl, refl))
member_blocks-Ordered ((uid, t) ∷ s) = (refl, (refl, member_blocks-Ordered s))

keys_acts-Ordered :
    (o : Option (Set String)) → Ordered true false (keys_acts o (release groups ∷ []))
keys_acts-Ordered none = (refl, (refl, refl))
keys_acts-Ordered (some s) = member_blocks-Ordered s

block-Ordered :
    (b : Bool) → Ordered true false ((if b then users_block else []) ++ (release groups ∷ []))
block-Ordered true = (refl, (refl, (refl, (refl, refl))))
block-Ordered false = (refl, (refl, refl))

skip-Ordered :
    (b : Bool) → Ordered true false ((if b then [] else users_block) ++ (release groups ∷ []))
skip-Ordered true = (refl, (refl, refl))
skip-Ordered false = (refl, (refl, (refl, (refl, refl))))

pub locks-Ordered :
    (c : Call) (db : MemDatabase) → is_deletion c ≡ false → Ordered false false (locks c db)
unfolding locks
locks-Ordered (adds_user_to_group g u) db h = (refl, refl, block-Ordered (has g db.groups))
locks-Ordered (creates_user u k) db h = (refl, (refl, (refl, refl)))
locks-Ordered (creates_group g u) db h = (refl, refl, skip-Ordered (has g db.groups))
locks-Ordered (deletes_user u) db h = cc
locks-Ordered deletes_all_data db h = cc
locks-Ordered (asks_membership u g) db h = (refl, refl)
locks-Ordered (removes_user_from_group g u) db h = (refl, refl, block-Ordered (has g db.groups))
locks-Ordered (gets_keys_of_group g) db h = (refl, refl, keys_acts-Ordered (find g db.groups))

-- Is the mutex thread i's?
abbrev pub owns : ℕ → Option ℕ → Bool
owns i none = false
owns i (some j) = j == i

pub record IsOrdered (s : Threads) : Type 0 where
  pub at : (i : ℕ) → Ordered (owns i s.groups_owner) (owns i s.users_owner) (s.left i)

mine :
    (i : ℕ) (s : Threads) (a : Act) (rest : List Act)
    → s.left i ≡ a ∷ rest
    → IsOrdered s
    → Ordered (owns i s.groups_owner) (owns i s.users_owner) (a ∷ rest)
mine i s a rest e o = subst (Ordered (owns i s.groups_owner) (owns i s.users_owner)) e (o.at i)

-- A step of thread i, seen from thread j.
perform-Ordered :
    (i : ℕ) (p : List Act) (s t : Threads) (j : ℕ)
    → s.left i ≡ p
    → IsOrdered s
    → perform i p s ≡ some t
    → Ordered (owns j t.groups_owner) (owns j t.users_owner) (t.left j)
unfolding perform
perform-Ordered i [] s t j e o h = cc
perform-Ordered i (acquire groups ∷ rest) s t j e o h =
    let m = mine i s (acquire groups) rest e o in ground (arith, m, o.at j)
perform-Ordered i (acquire users ∷ rest) s t j e o h =
    let m = mine i s (acquire users) rest e o in ground (arith, m, o.at j)
perform-Ordered i (release groups ∷ rest) s t j e o h =
    let m = mine i s (release groups) rest e o in ground (arith, m, o.at j)
perform-Ordered i (release users ∷ rest) s t j e o h =
    let m = mine i s (release users) rest e o in ground (arith, m, o.at j)

pub Reach-IsOrdered : {s t : Threads} → Reach s t → IsOrdered s → IsOrdered t
unfolding advance
Reach-IsOrdered here o = o
Reach-IsOrdered (next i r e) o = step i (Reach-IsOrdered r o) e
  where
    step : {t u : Threads} (i : ℕ) → IsOrdered t → advance i t ≡ some u → IsOrdered u
    step {t} {u} i o e = record { at = λ j. perform-Ordered i (t.left i) t u j refl o e }

-- A thread that has the users goes on; one that has the groups goes on if the users are free.
users_owner_goes :
    (i : ℕ) (p : List Act) (s : Threads) (g : Bool)
    → Ordered g true p
    → (t : Threads) × (perform i p s ≡ some t)
unfolding perform
users_owner_goes i [] s g o = absurd (ground arith)
users_owner_goes i (acquire groups ∷ rest) s g o = absurd (ground arith)
users_owner_goes i (acquire users ∷ rest) s g o = absurd (ground arith)
users_owner_goes i (release groups ∷ rest) s g o = (_, refl)
users_owner_goes i (release users ∷ rest) s g o = (_, refl)

groups_owner_goes :
    (i : ℕ) (p : List Act) (s : Threads)
    → s.users_owner ≡ none
    → Ordered true false p
    → (t : Threads) × (perform i p s ≡ some t)
unfolding perform
groups_owner_goes i [] s f o = absurd (ground arith)
groups_owner_goes i (acquire groups ∷ rest) s f o = absurd (ground arith)
groups_owner_goes i (acquire users ∷ rest) s f o =
    (record s { left = advance_left i rest s.left; users_owner = some i }, rw (f, perform))
groups_owner_goes i (release groups ∷ rest) s f o = (_, refl)
groups_owner_goes i (release users ∷ rest) s f o = (_, refl)

free_goes :
    (i : ℕ) (p : List Act) (s : Threads)
    → s.groups_owner ≡ none
    → s.users_owner ≡ none
    → p ≢ []
    → (t : Threads) × (perform i p s ≡ some t)
unfolding perform
free_goes i [] s f k h = absurd (h refl)
free_goes i (acquire groups ∷ rest) s f k h =
    (record s { left = advance_left i rest s.left; groups_owner = some i }, rw (f, perform))
free_goes i (acquire users ∷ rest) s f k h =
    (record s { left = advance_left i rest s.left; users_owner = some i }, rw (k, perform))
free_goes i (release groups ∷ rest) s f k h = (_, refl)
free_goes i (release users ∷ rest) s f k h = (_, refl)

-- Where some thread has not ended, some thread can go on.
IsOrdered-goes :
    (s : Threads) (i : ℕ)
    → IsOrdered s
    → s.left i ≢ []
    → (j : ℕ) × (t : Threads) × (advance j s ≡ some t)
unfolding advance
IsOrdered-goes s i o h = elim (Option-cases s.users_owner) [
  | inr (j, e) ↦
      let (t, p) =
        users_owner_goes j (s.left j) s (owns j s.groups_owner) (ground (arith, o.at j)) in
      (j, t, p)
  | inl f ↦ elim (Option-cases s.groups_owner) [
    | inr (j, e) ↦
        let (t, p) = groups_owner_goes j (s.left j) s f (ground (arith, o.at j)) in (j, t, p)
    | inl k ↦ let (t, p) = free_goes i (s.left i) s k f h in (i, t, p)
  ]
]

Ordered-append :
    (g u : Bool) (p q : List Act) → Ordered g u p → Ordered false false q → Ordered g u (p ++ q)
Ordered-append g u [] q o k = ground arith
Ordered-append g u (acquire groups ∷ p) q o k = (o.0, o.1, Ordered-append true false p q o.2 k)
Ordered-append g u (acquire users ∷ p) q o k = (o.0, Ordered-append g true p q o.1 k)
Ordered-append g u (release groups ∷ p) q o k = (o.0, Ordered-append false u p q o.1 k)
Ordered-append g u (release users ∷ p) q o k = (o.0, Ordered-append g false p q o.1 k)

-- No call of the list is a deletion.
abbrev pub NoDeletion : List (Call × MemDatabase) → Type 0
NoDeletion = All (λ c. is_deletion c.0 ≡ false)

program-Ordered :
    (cs : List (Call × MemDatabase)) → NoDeletion cs → Ordered false false (program cs)
unfolding program
program-Ordered [] h = (refl, refl)
program-Ordered ((c, db) ∷ cs) h =
    Ordered-append false false (locks c db) (program cs) (locks-Ordered c db h.0)
      (program-Ordered cs h.1)

-- Threads that each run a sequence of calls, none of them a deletion, never block one another for
-- good: in every state that they reach, if some thread has not ended, some thread can take its next
-- step.
pub never_stuck :
    (calls : ℕ → List (Call × MemDatabase)) (s : Threads) (i : ℕ)
    → ((j : ℕ) → NoDeletion (calls j))
    → Reach (start (λ j. program (calls j))) s
    → s.left i ≢ []
    → (j : ℕ) × (t : Threads) × (advance j s ≡ some t)
never_stuck calls s i h r =
    IsOrdered-goes s i (Reach-IsOrdered r (record { at = λ j. program-Ordered (calls j) (h j) }))
