-- ===== src/Std/Order.antt =====
-- Keys of `std::map` and `std::set`: a total order given by a three-way comparison, and its
-- instances for texts and for byte strings (`std::string` compares by unsigned bytes).
use Prim.Native.Char.{Char, code}
use Prim.Native.String
use Prim.Native.String.compare as string_compare
use text.Mathlib.TextEquality.{path_by_compare}
use text.Mathlib.TextPositions.{compare_refl}
use anonym_sharing.Base.{
  ℕ, ◌≡◌, refl, sym, ap, ◌∙◌, ◌⊎◌, inl, inr, List, [], ◌∷◌, arith, compare, Ordering, String,
}

abbrev pub and_then : Ordering → Ordering → Ordering
and_then Ordering.lt o = Ordering.lt
and_then Ordering.eq o = o
and_then Ordering.gt o = Ordering.gt

abbrev pub flip : Ordering → Ordering
flip Ordering.lt = Ordering.gt
flip Ordering.eq = Ordering.eq
flip Ordering.gt = Ordering.lt

pub Ordering-cases : (o : Ordering) → (o ≡ Ordering.lt) ⊎ ((o ≡ Ordering.eq) ⊎ (o ≡ Ordering.gt))
Ordering-cases Ordering.lt = inl refl
Ordering-cases Ordering.eq = inr (inl refl)
Ordering-cases Ordering.gt = inr (inr refl)

pub record Order {ℓ} (A : Type ℓ) : Type ℓ where
  pub cmp : A → A → Ordering
  pub cmp_refl : (a : A) → cmp a a ≡ Ordering.eq
  pub cmp_eq : (a b : A) → cmp a b ≡ Ordering.eq → a ≡ b
  pub cmp_flip : (a b : A) → cmp b a ≡ flip (cmp a b)
  pub cmp_trans :
      (a b c : A) → cmp a b ≡ Ordering.lt → cmp b c ≡ Ordering.lt → cmp a c ≡ Ordering.lt

-- Byte strings: a byte is a number.
abbrev pub Bytes : Type 0
Bytes = List ℕ

unfoldable pub cmp_bytes : Bytes → Bytes → Ordering
cmp_bytes [] [] = Ordering.eq
cmp_bytes [] (y ∷ ys) = Ordering.lt
cmp_bytes (x ∷ xs) [] = Ordering.gt
cmp_bytes (x ∷ xs) (y ∷ ys) = and_then (compare x y) (cmp_bytes xs ys)

pub cmp_bytes_refl : (a : Bytes) → cmp_bytes a a ≡ Ordering.eq
unfolding cmp_bytes
cmp_bytes_refl [] = refl
cmp_bytes_refl (x ∷ xs) = ground (arith, cmp_bytes_refl xs)

pub cmp_bytes_eq : (a b : Bytes) → cmp_bytes a b ≡ Ordering.eq → a ≡ b
unfolding cmp_bytes
cmp_bytes_eq [] [] h = refl
cmp_bytes_eq [] (y ∷ ys) h = cc
cmp_bytes_eq (x ∷ xs) [] h = cc
cmp_bytes_eq (x ∷ xs) (y ∷ ys) h = ground (arith, cmp_bytes_eq xs ys)

pub cmp_bytes-flip : (a b : Bytes) → cmp_bytes b a ≡ flip (cmp_bytes a b)
unfolding cmp_bytes
cmp_bytes-flip [] [] = refl
cmp_bytes-flip [] (y ∷ ys) = refl
cmp_bytes-flip (x ∷ xs) [] = refl
cmp_bytes-flip (x ∷ xs) (y ∷ ys) = ground (arith, cmp_bytes-flip xs ys)

pub cmp_bytes_trans :
    (a b c : Bytes)
    → cmp_bytes a b ≡ Ordering.lt
    → cmp_bytes b c ≡ Ordering.lt
    → cmp_bytes a c ≡ Ordering.lt
unfolding cmp_bytes
cmp_bytes_trans [] [] c h k = cc
cmp_bytes_trans [] (y ∷ ys) [] h k = cc
cmp_bytes_trans [] (y ∷ ys) (z ∷ zs) h k = refl
cmp_bytes_trans (x ∷ xs) [] c h k = cc
cmp_bytes_trans (x ∷ xs) (y ∷ ys) [] h k = cc
cmp_bytes_trans (x ∷ xs) (y ∷ ys) (z ∷ zs) h k = ground (arith, cmp_bytes_trans xs ys zs)

instance abbrev pub bytes_order : Order Bytes
bytes_order = record {
  cmp = cmp_bytes;
  cmp_refl = cmp_bytes_refl;
  cmp_eq = cmp_bytes_eq;
  cmp_flip = cmp_bytes-flip;
  cmp_trans = cmp_bytes_trans;
}

cmp_cons_cons :
    (c d : Char) (s t : String)
    → String.compare (String.◌∷◌ c s) (String.◌∷◌ d t)
      ≡ and_then (compare (code c) (code d)) (String.compare s t)
cmp_cons_cons c d s t = elim (Ordering-cases (compare (code c) (code d))) [
  | inl e ↦ string_compare.cons-cons c d s t ∙ rw e
  | inr (inl e) ↦ string_compare.cons-cons c d s t ∙ rw e
  | inr (inr e) ↦ string_compare.cons-cons c d s t ∙ rw e
]

pub cmp_string_eq : (a b : String) → String.compare a b ≡ Ordering.eq → a ≡ b
cmp_string_eq = path_by_compare

pub cmp_string_flip : (a b : String) → String.compare b a ≡ flip (String.compare a b)
cmp_string_flip String.[] String.[] = refl
cmp_string_flip String.[] (String.◌∷◌ d t) =
    string_compare.cons-nil d t ∙ ap flip (sym (string_compare.nil-cons d t))
cmp_string_flip (String.◌∷◌ c s) String.[] =
    string_compare.nil-cons c s ∙ ap flip (sym (string_compare.cons-nil c s))
cmp_string_flip (String.◌∷◌ c s) (String.◌∷◌ d t) =
    ground (arith, cmp_cons_cons c d s t, cmp_cons_cons d c t s, cmp_string_flip s t)

pub cmp_string_trans :
    (a b c : String)
    → String.compare a b ≡ Ordering.lt
    → String.compare b c ≡ Ordering.lt
    → String.compare a c ≡ Ordering.lt
cmp_string_trans String.[] String.[] c h k = k
cmp_string_trans String.[] (String.◌∷◌ y ys) String.[] h k =
    absurd (ground (arith, string_compare.cons-nil y ys))
cmp_string_trans String.[] (String.◌∷◌ y ys) (String.◌∷◌ z zs) h k = string_compare.nil-cons z zs
cmp_string_trans (String.◌∷◌ x xs) String.[] c h k =
    absurd (ground (arith, string_compare.cons-nil x xs))
cmp_string_trans (String.◌∷◌ x xs) (String.◌∷◌ y ys) String.[] h k =
    absurd (ground (arith, string_compare.cons-nil y ys))
cmp_string_trans (String.◌∷◌ x xs) (String.◌∷◌ y ys) (String.◌∷◌ z zs) h k = ground (
  arith,
  cmp_cons_cons x y xs ys,
  cmp_cons_cons y z ys zs,
  cmp_cons_cons x z xs zs,
  cmp_string_trans xs ys zs,
)

instance abbrev pub string_order : Order String
string_order = record {
  cmp = String.compare;
  cmp_refl = compare_refl;
  cmp_eq = cmp_string_eq;
  cmp_flip = cmp_string_flip;
  cmp_trans = cmp_string_trans;
}

-- Keys of type `int`; here those are file descriptors, which are not negative.
pub cmp_ℕ_refl : (a : ℕ) → compare a a ≡ Ordering.eq
cmp_ℕ_refl a = ground arith

pub cmp_ℕ_eq : (a b : ℕ) → compare a b ≡ Ordering.eq → a ≡ b
cmp_ℕ_eq a b h = ground arith

pub cmp_ℕ_flip : (a b : ℕ) → compare b a ≡ flip (compare a b)
cmp_ℕ_flip a b = ground arith

pub cmp_ℕ_trans :
    (a b c : ℕ) → compare a b ≡ Ordering.lt → compare b c ≡ Ordering.lt → compare a c ≡ Ordering.lt
cmp_ℕ_trans a b c h k = ground arith

instance abbrev pub nat_order : Order ℕ
nat_order = record {
  cmp = compare;
  cmp_refl = cmp_ℕ_refl;
  cmp_eq = cmp_ℕ_eq;
  cmp_flip = cmp_ℕ_flip;
  cmp_trans = cmp_ℕ_trans;
}
