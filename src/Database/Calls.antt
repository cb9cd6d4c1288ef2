-- ===== src/Database/Calls.antt =====
-- The calls of the database's interface as data, and one step of the database for each.
use anonym_sharing.Base.{String, Bool, Exec, pure, ◌>>=◌}
use anonym_sharing.Std.Order.{Bytes}
use anonym_sharing.Database.{
  MemDatabase, KeyArray, add_user_to_group, create_user, create_group, delete_user, delete_all_data,
  is_user_part_of_group, remove_user_from_group, get_keys_of_group,
}

pub data Call : Type 0 where
  adds_user_to_group : String → String → Call
  creates_user : String → Bytes → Call
  creates_group : String → String → Call
  deletes_user : String → Call
  deletes_all_data : Call
  asks_membership : String → String → Call
  removes_user_from_group : String → String → Call
  gets_keys_of_group : String → Call

pub data Answer : Type 0 where
  done : Answer
  belongs : Bool → Answer
  keys : KeyArray → Answer

unfoldable pub apply : Call → Exec MemDatabase Answer
apply (adds_user_to_group g u) = do _ ← add_user_to_group g u; pure done
apply (creates_user u k) = do _ ← create_user u k; pure done
apply (creates_group g u) = do _ ← create_group g u; pure done
apply (deletes_user u) = do _ ← delete_user u; pure done
apply deletes_all_data = do _ ← delete_all_data; pure done
apply (asks_membership u g) = do b ← is_user_part_of_group u g; pure (belongs b)
apply (removes_user_from_group g u) = do _ ← remove_user_from_group g u; pure done
apply (gets_keys_of_group g) = do ks ← get_keys_of_group g; pure (keys ks)
