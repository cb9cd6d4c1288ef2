-- ===== src/Service/Envelope.antt =====
-- What an envelope holds: `generate_envelope` of anonymbe_service.hpp.
use anonym_sharing.Base.{
  ℕ, suc, ◌+◌, ◌≤◌, ◌≡◌, ◌≢◌, refl, sym, ◌∙◌, ap, true, false, [], ◌∷◌, ◌++◌, some, Option, arith,
  inl, inr, ◌⊎◌, Bool-cases, if◌then◌else◌, length,
}
use anonym_sharing.Std.Order.{Bytes, bytes_order, cmp_bytes, cmp_bytes_eq, cmp_bytes_refl}
use anonym_sharing.Std.Map.{
  Map, find, insert, is_eq, IsSorted, find-insert, insert-IsSorted, length-insert,
}
use anonym_sharing.Platform.{Crypto}
use anonym_sharing.Database.{KeyArray}
use anonym_sharing.Service.{ordered_hashes}

abbrev pub In : Bytes → KeyArray → Type 0
In a [] = ⊥
In a (x ∷ xs) = (a ≡ x) ⊎ In a xs

pub is_eq→≡ : (a b : Bytes) → is_eq (cmp_bytes a b) ≡ true → a ≡ b
is_eq→≡ a b h = ground (arith, cmp_bytes_eq a b)

pub not-eq : (a b : Bytes) → is_eq (cmp_bytes a b) ≡ false → a ≢ b
not-eq a b h e = ground (arith, cmp_bytes_refl a)

module _ (crypto : Crypto) (nonce bucket_key : Bytes) where
  open crypto use {sha224, encrypt_aesgcm}

  -- The entry is there under the hash of some key of the array, sealed for that key.
  abbrev pub Sealed : Bytes → KeyArray → Map Bytes Bytes → Type 0
  Sealed h ka m =
      (k : Bytes) × (d : ℕ) × In k ka
      × (sha224 (nonce ++ k) ≡ h)
      × (find h m ≡ some (encrypt_aesgcm k bucket_key d))

  abbrev pub Absent : Bytes → KeyArray → Type 0
  Absent h ka = (k : Bytes) → In k ka → sha224 (nonce ++ k) ≢ h

  pub ordered_hashes_cases :
      (h : Bytes) (ka : KeyArray) (d : ℕ) (m : Map Bytes Bytes)
      → let r = ordered_hashes crypto nonce bucket_key ka d m in
        Sealed h ka r ⊎ (Absent h ka × (find h r ≡ find h m))
  unfolding ordered_hashes
  ordered_hashes_cases h [] d m = inr (λ k i. absurd i, refl)
  ordered_hashes_cases h (x ∷ ka) d m =
      elim (ordered_hashes_cases h ka (suc d) (insert hash sealed m)) [
        | inl (k, e, i, q, f) ↦ inl (k, e, inr i, q, f)
        | inr (away, f) ↦ elim (Bool-cases (is_eq (cmp_bytes hash h))) [
          | inl same ↦ inl (x, d, inl refl, is_eq→≡ hash h same, f ∙ (last_write ∙ rw same))
          | inr other ↦ inr (absent other away, f ∙ (last_write ∙ rw other))
        ]
      ]
    where
      hash : Bytes
      hash = sha224 (nonce ++ x)

      sealed : Bytes
      sealed = encrypt_aesgcm x bucket_key d

      last_write :
          find h (insert hash sealed m)
          ≡ (if is_eq (cmp_bytes hash h) then some sealed else find h m)
      last_write = find-insert hash h sealed m

      absent : is_eq (cmp_bytes hash h) ≡ false → Absent h ka → Absent h (x ∷ ka)
      absent other away k (inl e) =
          λ q. not-eq hash h other (ap (λ y. sha224 (nonce ++ y)) (sym e) ∙ q)
      absent other away k (inr i) = away k i

  pub ordered_hashes-IsSorted :
      (ka : KeyArray) (d : ℕ) (m : Map Bytes Bytes)
      → IsSorted m
      → IsSorted (ordered_hashes crypto nonce bucket_key ka d m)
  unfolding ordered_hashes
  ordered_hashes-IsSorted [] d m s = s
  ordered_hashes-IsSorted (x ∷ ka) d m s =
      ordered_hashes-IsSorted ka (suc d)
        (insert (sha224 (nonce ++ x)) (encrypt_aesgcm x bucket_key d) m) (insert-IsSorted _ _ m s)

  length-ordered_hashes :
      (ka : KeyArray) (d : ℕ) (m : Map Bytes Bytes)
      → length (ordered_hashes crypto nonce bucket_key ka d m) ≤ length ka + length m
  unfolding ordered_hashes
  length-ordered_hashes [] d m = omega arith
  length-ordered_hashes (x ∷ ka) d m =
      let h = sha224 (nonce ++ x) in
      let e = encrypt_aesgcm x bucket_key d in
      omega (arith, length-ordered_hashes ka (suc d) (insert h e m), length-insert h e m)

  -- The table of an indexed envelope is in the order of the hashes, and has no more entries than
  -- keys. If the hashes of the keys under the nonce do not collide, every key of the array has its
  -- entry there, and whoever decrypts that entry with the key has the bucket key.
  pub ordered_hashes_open :
      (decrypt : Bytes → Bytes → Option Bytes) (ka : KeyArray) (d : ℕ) (k : Bytes)
      → ((k p : Bytes) (i : ℕ) → decrypt k (encrypt_aesgcm k p i) ≡ some p)
      → ((j k : Bytes) → In j ka → In k ka → sha224 (nonce ++ j) ≡ sha224 (nonce ++ k) → j ≡ k)
      → In k ka
      → let m = ordered_hashes crypto nonce bucket_key ka d [] in
        IsSorted m
        × (length m ≤ length ka)
        × ((c : Bytes) × (find (sha224 (nonce ++ k)) m ≡ some c) × (decrypt k c ≡ some bucket_key))
  ordered_hashes_open decrypt ka d k opens distinct i = (
    ordered_hashes-IsSorted ka d [] tt,
    omega (arith, length-ordered_hashes ka d []),
    elim (ordered_hashes_cases (sha224 (nonce ++ k)) ka d []) [
      | inl (j, e, l, q, f) ↦
          let same = distinct j k l i q in
          (encrypt_aesgcm j bucket_key e, f, rw same (opens k bucket_key e))
      | inr (away, f) ↦ absurd (away k i refl)
    ],
  )
