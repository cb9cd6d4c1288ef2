-- ===== src/Opening/Members.antt =====
-- The keys that the database has for the members of a group.
use anonym_sharing.Base.{
  ◌≡◌, sym, subst, arith, String, true, [], ◌∷◌, map, ◌⊎◌, inl, inr, Bool-cases, eq_refl,
}
use anonym_sharing.Std.Order.{Bytes, string_order, cmp_string_eq, cmp_bytes}
use anonym_sharing.Database.Keys.{key_of}
use anonym_sharing.Std.Map.{Map, Set, find, is_eq}
use anonym_sharing.Database.{KeyArray, has, fill_key}
use anonym_sharing.Service.Envelope.{In, is_eq→≡, not-eq}

-- The key is the one that the database has for a member.
abbrev pub IsKeyOf : Map String Bytes → Set String → Bytes → Type 0
IsKeyOf users members key =
    (u : String) × (has u members ≡ true) × (fill_key (key_of users u) ≡ key)

-- The keys of the members, in their order.
abbrev pub member_keys : Map String Bytes → Set String → KeyArray
member_keys users members = map (λ e. fill_key (key_of users e.0)) members

pub In-IsKeyOf :
    (users : Map String Bytes) (members : Set String) (key : Bytes)
    → In key (member_keys users members)
    → IsKeyOf users members key
unfolding find
In-IsKeyOf users [] key i = absurd i
In-IsKeyOf users ((u, t) ∷ rest) key (inl e) = (u, ground (arith, eq_refl u), sym e)
In-IsKeyOf users ((u, t) ∷ rest) key (inr i) =
    let (w, h, e) = In-IsKeyOf users rest key i in (w, ground (arith, h), e)

pub IsKeyOf-In :
    (users : Map String Bytes) (members : Set String) (key : Bytes)
    → IsKeyOf users members key
    → In key (member_keys users members)
unfolding find
IsKeyOf-In users [] key (u, h, e) = absurd (ground (arith, h))
IsKeyOf-In users ((w, t) ∷ rest) key (u, h, e) = elim (Bool-cases (is_eq (string_order.cmp u w))) [
  | inl same ↦ inl (
      subst (λ x. key ≡ fill_key (key_of users x)) (cmp_string_eq u w (ground (arith, same)))
        (sym e))
  | inr other ↦ inr (IsKeyOf-In users rest key (u, ground (arith, h, other), e))
]

In-cases : (key : Bytes) (ka : KeyArray) → In key ka ⊎ (¬ In key ka)
In-cases key [] = inr (λ i. i)
In-cases key (j ∷ ka) = elim (Bool-cases (is_eq (cmp_bytes key j))) [
  | inl same ↦ inl (inl (is_eq→≡ key j same))
  | inr other ↦ elim (In-cases key ka) [
    | inl i ↦ inl (inr i)
    | inr away ↦ inr (λ i. elim i [ inl e ↦ not-eq key j other e | inr k ↦ away k ])
  ]
]

pub IsKeyOf-cases :
    (users : Map String Bytes) (members : Set String) (key : Bytes)
    → IsKeyOf users members key ⊎ (¬ IsKeyOf users members key)
IsKeyOf-cases users members key = elim (In-cases key (member_keys users members)) [
  | inl i ↦ inl (In-IsKeyOf users members key i)
  | inr away ↦ inr (λ u. away (IsKeyOf-In users members key u))
]
