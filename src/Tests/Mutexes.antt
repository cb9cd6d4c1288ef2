-- ===== src/Tests/Mutexes.antt =====
-- The theorems on the mutexes of the database, on the small one.
use anonym_sharing.Base.{ℕ, ◌≡◌, refl, List, [], ◌∷◌, none, some}
use anonym_sharing.Std.Map.{find}
use anonym_sharing.Database.{MemDatabase}
use anonym_sharing.Database.Calls.{Call, adds_user_to_group, deletes_user}
use anonym_sharing.Database.Locks.{
  acquire, release, groups, users, locks, program, Threads, start, advance, advance_left, Reach,
  here, next,
}
use anonym_sharing.Database.Locks.Order.{never_stuck}
use anonym_sharing.Database.Locks.Deadlock.{deletion_deadlocks, two, IsDeadlock}
use anonym_sharing.Tests.World.{small}

-- Every thread adds bob to the team; thread 0 has taken the groups.
abbrev joins : ℕ → List (Call × MemDatabase)
joins i = (adds_user_to_group "team" "bob", small) ∷ []

abbrev entered : Threads
entered = record {
  left =
      advance_left 0 (acquire users ∷ release users ∷ release groups ∷ []) (λ j. program (joins j));
  groups_owner = some 0;
  users_owner = none;
}

never_stuck_example : (j : ℕ) × (t : Threads) × (advance j entered ≡ some t)
unfolding program locks advance find
never_stuck_example = never_stuck joins entered 0 (λ j. (refl, tt)) (next 0 here refl) (λ e. cc)

deletion_deadlocks_example :
    (s : Threads) × Reach
      (start
        (two (locks (adds_user_to_group "team" "bob") small) (locks (deletes_user "ann") small)))
      s
    × IsDeadlock s
unfolding find
deletion_deadlocks_example =
    deletion_deadlocks (adds_user_to_group "team" "bob") (deletes_user "ann") small refl refl
