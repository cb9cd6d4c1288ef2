-- ===== src/Database.antt =====
-- anonymBE/src/enclave/memory_database.cpp and memory_database.h: the users and the groups of the
-- access monitor in memory. Each method is an action on the two maps. The mutexes are in `Locks`.
pub mod Calls
pub mod Laws
pub mod Invariant
pub mod Throws
pub mod Spec
pub mod Refinement
pub mod Allowed
pub mod Keys
pub mod Locks
use anonym_sharing.Base.{
  ℕ, ◌-◌, String, ◌<>◌, Bool, List, [], ◌∷◌, ◌++◌, none, some, Result, ok, raise, Exception,
  invalid_argument, logic_error, Exec, if◌then◌else◌, is_some, take, replicate, length,
}
use anonym_sharing.Std.Order.{Bytes, string_order}
use anonym_sharing.Std.Map.{Map, Set, find, insert, erase}

-- #define KEY_SIZE 32
abbrev pub key_size : ℕ
key_size = 32

-- typedef std::vector<std::array<uint8_t, KEY_SIZE>> KeyArray
abbrev pub KeyArray : Type 0
KeyArray = List Bytes

pub record MemDatabase : Type 0 where
  pub groups : Map String (Set String)
  pub users : Map String Bytes

abbrev pub empty : MemDatabase
empty = record { groups = []; users = [] }

-- `s.find(k) != s.end()`
abbrev pub has {ℓ} : {V : Type ℓ} → String → Map String V → Bool
has k m = is_some (find k m)

-- init(const std::string &)
pub init : String → Exec MemDatabase Bool
init initdata db = (ok Bool.true, db)

unfoldable pub add_user_to_group : String → String → Exec MemDatabase Unit
add_user_to_group gname new_uid db = elim (find gname db.groups) [
  | none ↦ (
    raise (
        invalid_argument (
          "attempt to add user '" <> new_uid <> "' to" <> "non existing group: '" <> gname <> "'")),
    db,
  )
  | some members ↦
      if has new_uid db.users
      then (
        if has new_uid members
            then raise (
                logic_error
                  ("'" <> new_uid <> "' was already a member of " <> "group '" <> gname <> "'"))
            else ok tt,
        record db { groups = insert gname (insert new_uid tt members) db.groups },
      )
      else (
        raise (
            invalid_argument
              ("attempt to add unknown user '" <> new_uid <> "' to group '" <> gname <> "'")),
        db,
      )
]

unfoldable pub create_user : String → Bytes → Exec MemDatabase Unit
create_user uid key db =
    if has uid db.users
    then (raise (invalid_argument ("attempt to create an existing user: '" <> uid <> "'")), db)
    else (ok tt, record db { users = insert uid key db.users })

unfoldable pub create_group : String → String → Exec MemDatabase Unit
create_group gname uid db =
    if has gname db.groups
    then (raise (invalid_argument ("attempt to create an existing group: '" <> gname <> "'")), db)
    else if has uid db.users
    then (ok tt, record db { groups = insert gname (insert uid tt []) db.groups })
    else (
      raise (
          invalid_argument
            ("tried to create group '" <> gname <> "' with an unknown user:'" <> uid <> "'")),
      db,
    )

-- for(auto &kv : groups_) kv.second.erase(uid);
unfoldable pub erase_member : String → Map String (Set String) → Map String (Set String)
erase_member uid [] = []
erase_member uid ((gname, members) ∷ rest) = (gname, erase uid members) ∷ erase_member uid rest

unfoldable pub delete_user : String → Exec MemDatabase Unit
delete_user uid db =
    (ok tt, record { groups = erase_member uid db.groups; users = erase uid db.users })

unfoldable pub delete_all_data : Exec MemDatabase Unit
delete_all_data db = (ok tt, empty)

unfoldable pub is_user_part_of_group : String → String → Exec MemDatabase Bool
is_user_part_of_group uname gname db = elim (find gname db.groups) [
  | none ↦ (raise (invalid_argument ("unknown group '" <> gname <> "'")), db)
  | some members ↦ (ok (has uname members), db)
]

-- The number of elements that `erase(uid)` removes is 1 if the set has `uid`, and else 0.
unfoldable pub remove_user_from_group : String → String → Exec MemDatabase Unit
remove_user_from_group gname uid db = elim (find gname db.groups) [
  | none ↦ (
    raise (
        invalid_argument (
          "attempt to remove user '" <> uid <> "' from" <> " inexistent group: '" <> gname <> "'")),
    db,
  )
  | some members ↦
      if has uid db.users
      then if has uid members
        then (ok tt, record db { groups = insert gname (erase uid members) db.groups })
        else (
          raise (
              invalid_argument (
                "attempt to remove user '" <> uid <> "' from group '" <> gname
                <> "' to which he or she does not belong")),
          db,
        )
      else (
        raise (
            invalid_argument
              ("tried to remove an unknown user '" <> uid <> "' from group '" <> gname <> "'")),
        db,
      )
]

-- key.fill(0); memcpy(key.data(), s.c_str(), std::min(s.size(), size_t(KEY_SIZE)))
unfoldable pub fill_key : Bytes → Bytes
fill_key s = take key_size s ++ replicate (key_size - length s) 0

-- The loop over the members; a member that is no user has no key.
unfoldable pub keys_of : Map String Bytes → Set String → KeyArray
unfolding fill_key
keys_of users [] = []
keys_of users ((uid, _) ∷ rest) =
    let keys = keys_of users rest in
    elim (find uid users) [ none ↦ keys | some key ↦ fill_key key ∷ keys ]

unfoldable pub get_keys_of_group : String → Exec MemDatabase KeyArray
unfolding keys_of
get_keys_of_group gname db = elim (find gname db.groups) [
  | none ↦ (raise (invalid_argument ("unknown group '" <> gname <> "'")), db)
  | some [] ↦ (raise (invalid_argument ("group '" <> gname <> "' is empty")), db)
  | some (m ∷ members) ↦ (ok (keys_of db.users (m ∷ members)), db)
]
