-- ===== src/Std/Map.antt =====
-- `std::map` as an association list in key order, and `std::set` as a map to nothing. A lookup
-- needs no invariant; the invariant `IsSorted` says that the keys are strictly increasing.
use anonym_sharing.Base.{
  ◌⊎◌, Bool-cases, ◌≤◌, suc, length, inl, inr, refl, ◌≡◌, Bool, true, false, Option, none, some,
  List, [], ◌∷◌, arith, Ordering, if◌then◌else◌,
}
use anonym_sharing.Std.Order.{Ordering-cases, Order}

abbrev pub Map {ℓ κ} : Type ℓ → Type κ → Type (ℓ ⊔ κ)
Map K V = List (K × V)

abbrev pub Set {ℓ} : Type ℓ → Type ℓ
Set K = Map K (Unit {0})

abbrev pub is_eq : Ordering → Bool
is_eq Ordering.eq = true
is_eq _ = false

module _ {ℓ κ} {K : Type ℓ} {V : Type κ} ⦃o : Order K⦄ where
  -- m.find(k), with `none` for m.end()
  unfoldable pub find : K → Map K V → Option V
  find k [] = none
  find k ((j, v) ∷ m) = if is_eq (o.cmp k j) then some v else find k m

  -- m[k] = v
  unfoldable pub insert : K → V → Map K V → Map K V
  insert k v [] = (k, v) ∷ []
  insert k v ((j, w) ∷ m) = elim (o.cmp k j) [
    | Ordering.lt ↦ (k, v) ∷ (j, w) ∷ m
    | Ordering.eq ↦ (k, v) ∷ m
    | Ordering.gt ↦ (j, w) ∷ insert k v m
  ]

  -- m.erase(k)
  unfoldable pub erase : K → Map K V → Map K V
  erase k [] = []
  erase k ((j, w) ∷ m) = let rest = erase k m in if is_eq (o.cmp k j) then rest else (j, w) ∷ rest

  pub find-insert :
      (k j : K) (v : V) (m : Map K V)
      → find j (insert k v m) ≡ (if is_eq (o.cmp k j) then some v else find j m)
  unfolding find insert
  find-insert k j v [] = ground (arith, o.cmp_flip k j)
  find-insert k j v ((i, w) ∷ m) = ground (
    arith,
    find-insert k j v m,
    o.cmp_flip k j,
    o.cmp_eq k i,
    o.cmp_eq j i,
    o.cmp_eq k j,
    o.cmp_refl i,
    o.cmp_flip i j,
  )

  pub find-erase :
      (k j : K) (m : Map K V) → find j (erase k m) ≡ (if is_eq (o.cmp k j) then none else find j m)
  unfolding find erase
  find-erase k j [] = ground arith
  find-erase k j ((i, w) ∷ m) = ground (
    arith,
    find-erase k j m,
    o.cmp_flip k j,
    o.cmp_eq k i,
    o.cmp_eq j i,
    o.cmp_eq k j,
    o.cmp_refl i,
    o.cmp_flip i j,
  )

  -- Every key of the map is above the bound.
  abbrev pub Above : K → Map K V → Type 0
  Above k [] = Unit {0}
  Above k ((j, w) ∷ m) = (o.cmp k j ≡ Ordering.lt) × Above k m

  abbrev pub IsSorted : Map K V → Type 0
  IsSorted [] = Unit {0}
  IsSorted ((j, w) ∷ m) = Above j m × IsSorted m

  Above-trans : (i j : K) (m : Map K V) → o.cmp i j ≡ Ordering.lt → Above j m → Above i m
  Above-trans i j [] h a = tt
  Above-trans i j ((k, w) ∷ m) h a = (o.cmp_trans i j k h a.0, Above-trans i j m h a.1)

  Above-insert :
      (i k : K) (v : V) (m : Map K V) → o.cmp i k ≡ Ordering.lt → Above i m → Above i (insert k v m)
  unfolding insert
  Above-insert i k v [] h a = (h, tt)
  Above-insert i k v ((j, w) ∷ m) h a = ground (arith, Above-insert i k v m)

  pub insert-IsSorted : (k : K) (v : V) (m : Map K V) → IsSorted m → IsSorted (insert k v m)
  unfolding insert
  insert-IsSorted k v [] s = (tt, tt)
  insert-IsSorted k v ((j, w) ∷ m) s = ground (
    arith,
    insert-IsSorted k v m,
    Above-trans k j m,
    Above-insert j k v m,
    o.cmp_flip k j,
    o.cmp_eq k j,
  )

  Above-erase : (i k : K) (m : Map K V) → Above i m → Above i (erase k m)
  unfolding erase
  Above-erase i k [] a = tt
  Above-erase i k ((j, w) ∷ m) a = ground (arith, Above-erase i k m)

  pub find-Above : (k : K) (m : Map K V) → Above k m → find k m ≡ none
  unfolding find
  find-Above k [] a = refl
  find-Above k ((j, w) ∷ m) a = ground (arith, find-Above k m)

  pub erase-IsSorted : (k : K) (m : Map K V) → IsSorted m → IsSorted (erase k m)
  unfolding erase
  erase-IsSorted k [] s = tt
  erase-IsSorted k ((j, w) ∷ m) s = ground (arith, erase-IsSorted k m, Above-erase j k m)

  -- Writing the value that a key has already changes nothing.
  pub insert_self :
      (k : K) (v : V) (m : Map K V) → IsSorted m → find k m ≡ some v → insert k v m ≡ m
  unfolding find insert
  insert_self k v [] s h = cc
  insert_self k v ((j, w) ∷ m) s h = elim (Ordering-cases (o.cmp k j)) [
    | inl e ↦ absurd (ground (arith, find-Above k m, Above-trans k j m))
    | inr (inl e) ↦ ground (arith, o.cmp_eq k j)
    | inr (inr e) ↦ ground (arith, insert_self k v m s.1)
  ]

  pub length-insert : (k : K) (v : V) (m : Map K V) → length (insert k v m) ≤ suc (length m)
  unfolding insert
  length-insert k v [] = omega arith
  length-insert k v ((j, w) ∷ m) = ground (arith, length-insert k v m)

  -- Where a value that is found after a write comes from.
  pub find-insert_cases :
      (k j : K) (v w : V) (m : Map K V)
      → find j (insert k v m) ≡ some w
      → ((k ≡ j) × (v ≡ w)) ⊎ (find j m ≡ some w)
  find-insert_cases k j v w m h = elim (Bool-cases (is_eq (o.cmp k j))) [
    | inl same ↦ inl (ground (arith, o.cmp_eq k j), ground (arith, find-insert k j v m))
    | inr other ↦ inr (ground (arith, find-insert k j v m))
  ]
