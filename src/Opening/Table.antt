-- ===== src/Opening/Table.antt =====
-- The table of an indexed envelope as the bytes that the client reads: entry i stands at 88 * i, and
-- the entries are in the order of their hashes.
use anonym_sharing.Base.{
  ℕ, zero, suc, ◌+◌, ◌*◌, ◌<◌, ◌≤◌, ◌≡◌, ◌≢◌, refl, sym, ap, ◌∙◌, subst, arith, [], ◌∷◌, ◌++◌,
  Option, none, some, take, drop, length, All, take-append, drop-append, length-append, Ordering,
  inl, inr, Bool-cases,
}
use mathlib.Core.List.{append_assoc}
use mathlib.Core.Option.{some-injective}
use anonym_sharing.Std.Order.{Bytes, bytes_order, cmp_bytes, cmp_bytes_refl, cmp_bytes_eq}
use anonym_sharing.Std.Map.{Map, find, IsSorted, Above, is_eq}
use anonym_sharing.Service.{entries}
use anonym_sharing.Opening.{hashed_index_bytes, encrypted_key_bytes, indexed_encrypted_key_bytes}

-- A hash and a sealed key have the lengths that the client reads.
abbrev pub IsWide : Bytes × Bytes → Type 0
IsWide e = (length e.0 ≡ hashed_index_bytes) × (length e.1 ≡ encrypted_key_bytes)

abbrev pub nth : ℕ → Map Bytes Bytes → Option (Bytes × Bytes)
nth i [] = none
nth zero (e ∷ m) = some e
nth (suc i) (e ∷ m) = nth i m

drop-add : (a b : ℕ) (xs : Bytes) → drop (a + b) xs ≡ drop b (drop a xs)
drop-add zero b xs = let e : 0 + b ≡ b = omega arith in rw e refl
drop-add (suc a) zero [] = let e : suc a + 0 ≡ suc a = omega arith in rw e refl
drop-add (suc a) (suc b) [] = let e : suc a + suc b ≡ suc (a + suc b) = omega arith in rw e refl
drop-add (suc a) b (x ∷ xs) =
    let e : suc a + b ≡ suc (a + b) = omega arith in rw e (drop-add a b xs)

pub length-entries :
    (m : Map Bytes Bytes)
    → All IsWide m
    → length (entries m) ≡ length m * indexed_encrypted_key_bytes
unfolding entries
length-entries [] w = omega arith
length-entries ((h, c) ∷ m) ((wh, wc), w) =
    omega (arith, length-append (h ++ c) (entries m), length-append h c, length-entries m w)

-- What stands at an entry's position.
pub entry-at :
    (i : ℕ) (m : Map Bytes Bytes) (e : Bytes × Bytes)
    → All IsWide m
    → nth i m ≡ some e
    → let x = drop (i * indexed_encrypted_key_bytes) (entries m) in
      (take hashed_index_bytes x ≡ e.0)
      × (take encrypted_key_bytes (drop hashed_index_bytes x) ≡ e.1)
unfolding entries
entry-at i [] e w h = absurd (cc)
entry-at zero ((h, c) ∷ m) e ((wh, wc), w) q =
    let same : (h, c) ≡ e = some-injective _ _ q in
    subst
      (λ (y : Bytes × Bytes).
        (take 28 ((h ++ c) ++ entries m) ≡ y.0) × (take 60 (drop 28 ((h ++ c) ++ entries m)) ≡ y.1))
      same
      (
        ap (take 28) (append_assoc h c (entries m)) ∙ take-append h (c ++ entries m) 28 wh,
        ap (λ x. take 60 (drop 28 x)) (append_assoc h c (entries m))
            ∙ (ap (take 60) (drop-append h (c ++ entries m) 28 wh)
                ∙ take-append c (entries m) 60 wc),
      )
entry-at (suc i) ((h, c) ∷ m) e ((wh, wc), w) q =
    let far : suc i * 88 ≡ 88 + i * 88 = omega arith in
    let skip : drop (suc i * 88) ((h ++ c) ++ entries m) ≡ drop (i * 88) (entries m) =
      ap (λ n. drop n ((h ++ c) ++ entries m)) far
      ∙ (drop-add 88 (i * 88) ((h ++ c) ++ entries m)
          ∙ ap (drop (i * 88))
              (drop-append (h ++ c) (entries m) 88 (omega (arith, length-append h c)))) in
    let (a, b) = entry-at i m e w q in
    (ap (take 28) skip ∙ a, ap (λ x. take 60 (drop 28 x)) skip ∙ b)

pub nth-some :
    (i : ℕ) (m : Map Bytes Bytes) → i < length m → (e : Bytes × Bytes) × (nth i m ≡ some e)
nth-some i [] h = absurd (omega arith)
nth-some zero (e ∷ m) h = (e, refl)
nth-some (suc i) (e ∷ m) h = nth-some i m (omega arith)

pub nth-IsWide :
    (i : ℕ) (n : Map Bytes Bytes) (e : Bytes × Bytes) → All IsWide n → nth i n ≡ some e → IsWide e
nth-IsWide i [] e w q = absurd (cc)
nth-IsWide zero (x ∷ n) e w q = subst IsWide (some-injective _ _ q) w.0
nth-IsWide (suc i) (x ∷ n) e w q = nth-IsWide i n e w.1 q

pub nth-past :
    (i : ℕ) (m : Map Bytes Bytes) (e : Bytes × Bytes) → length m ≤ i → nth i m ≡ some e → ⊥
nth-past i [] e h q = cc
nth-past zero (x ∷ m) e h q = absurd (omega arith)
nth-past (suc i) (x ∷ m) e h q = nth-past i m e (omega arith) q

pub Above-nth :
    (k : Bytes) (i : ℕ) (m : Map Bytes Bytes) (e : Bytes × Bytes)
    → Above k m
    → nth i m ≡ some e
    → cmp_bytes k e.0 ≡ Ordering.lt
Above-nth k i [] e a h = absurd (cc)
Above-nth k zero ((j, c) ∷ m) e (a, b) h =
    subst (λ (y : Bytes × Bytes). cmp_bytes k y.0 ≡ Ordering.lt) (some-injective _ _ h) a
Above-nth k (suc i) ((j, c) ∷ m) e (a, b) h = Above-nth k i m e b h

-- The hashes increase.
pub nth_increasing :
    (i j : ℕ) (m : Map Bytes Bytes) (e f : Bytes × Bytes)
    → IsSorted m
    → i < j
    → nth i m ≡ some e
    → nth j m ≡ some f
    → cmp_bytes e.0 f.0 ≡ Ordering.lt
nth_increasing i j [] e f s l p q = absurd (cc)
nth_increasing i zero (x ∷ m) e f s l p q = absurd (omega arith)
nth_increasing zero (suc j) ((h, c) ∷ m) e f (a, s) l p q =
    subst (λ (y : Bytes × Bytes). cmp_bytes y.0 f.0 ≡ Ordering.lt) (some-injective _ _ p)
      (Above-nth h j m f a q)
nth_increasing (suc i) (suc j) ((h, c) ∷ m) e f (a, s) l p q =
    nth_increasing i j m e f s (omega arith) p q

-- The entry at a position is the one that its hash finds.
pub find-nth :
    (i : ℕ) (m : Map Bytes Bytes) (e : Bytes × Bytes)
    → IsSorted m
    → nth i m ≡ some e
    → find e.0 m ≡ some e.1
unfolding find
find-nth i [] e s h = absurd (cc)
find-nth zero ((k, c) ∷ m) e s h =
    subst (λ (y : Bytes × Bytes). find y.0 ((k, c) ∷ m) ≡ some y.1) (some-injective _ _ h)
      (rw (cmp_bytes_refl k) refl)
find-nth (suc i) ((k, c) ∷ m) e (a, s) h =
    let below = Above-nth k i m e a h in
    elim (Bool-cases (is_eq (cmp_bytes e.0 k))) [
      | inl same ↦ absurd (ground (arith, below, same, cmp_bytes_eq e.0 k, cmp_bytes_refl k))
      | inr other ↦ rw other (find-nth i m e s h)
    ]

-- A hash that stands at no position is not found.
pub find-nowhere :
    (h : Bytes) (m : Map Bytes Bytes)
    → ((i : ℕ) (e : Bytes × Bytes) → nth i m ≡ some e → e.0 ≢ h)
    → find h m ≡ none
unfolding find
find-nowhere h [] away = refl
find-nowhere h ((k, c) ∷ m) away = elim (Bool-cases (is_eq (cmp_bytes h k))) [
  | inl same ↦ absurd (away 0 (k, c) refl (sym (ground (arith, same, cmp_bytes_eq h k))))
  | inr other ↦ rw other (find-nowhere h m (λ i. away (suc i)))
]
