-- ===== src/Database/Laws.antt =====
-- What the loop of `delete_user` does to each group.
use anonym_sharing.Base.{◌≡◌, refl, String, none, some, Option, [], ◌∷◌, arith}
use anonym_sharing.Std.Order.{string_order}
use anonym_sharing.Std.Map.{Map, Set, find, erase, Above, IsSorted}
use anonym_sharing.Database.{erase_member}

abbrev pub erase_in : String → Option (Set String) → Option (Set String)
erase_in u none = none
erase_in u (some s) = some (erase u s)

pub erase_in-some :
    (u : String) (o : Option (Set String)) (t : Set String)
    → erase_in u o ≡ some t
    → (s : Set String) × (o ≡ some s) × (t ≡ erase u s)
erase_in-some u none t h = cc
erase_in-some u (some s) t h = (s, refl, ground arith)

pub find-erase_member :
    (u g : String) (m : Map String (Set String)) → find g (erase_member u m) ≡ erase_in u (find g m)
unfolding find erase_member
find-erase_member u g [] = refl
find-erase_member u g ((h, s) ∷ m) = ground (arith, find-erase_member u g m)

Above-erase_member :
    (u g : String) (m : Map String (Set String)) → Above g m → Above g (erase_member u m)
unfolding erase_member
Above-erase_member u g [] a = tt
Above-erase_member u g ((h, s) ∷ m) a = (a.0, Above-erase_member u g m a.1)

pub erase_member-IsSorted :
    (u : String) (m : Map String (Set String)) → IsSorted m → IsSorted (erase_member u m)
unfolding erase_member
erase_member-IsSorted u [] a = tt
erase_member-IsSorted u ((h, s) ∷ m) a =
    (Above-erase_member u h m a.0, erase_member-IsSorted u m a.1)
