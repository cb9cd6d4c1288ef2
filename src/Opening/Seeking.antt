-- ===== src/Opening/Seeking.antt =====
-- IndexedEnvelope.open on the indexed envelope that `generate_envelope` makes.
use anonym_sharing.Base.{
  ℕ, suc, ◌-◌, ◌/◌, ◌≡◌, refl, ap, ◌∙◌, subst, arith, false, [], ◌∷◌, ◌++◌, Option, some, ltb,
  replicate, length, All, take-append, drop-append, length-append, inl, inr,
}
use mathlib.Core.List.{append-nil}
use anonym_sharing.Std.Order.{Bytes, bytes_order, cmp_bytes, Ordering-cases}
use anonym_sharing.Std.Map.{Map, find, insert}
use anonym_sharing.Platform.{Crypto}
use anonym_sharing.Database.{KeyArray}
use anonym_sharing.Service.{entries, ordered_hashes}
use anonym_sharing.Service.Envelope.{In, ordered_hashes_cases, ordered_hashes-IsSorted}
use anonym_sharing.Opening.{opened, not_in_envelope, open_indexed, search_loop, decrypt_aes}
use anonym_sharing.Opening.Table.{IsWide, nth-past, length-entries}
use anonym_sharing.Opening.Indexed.{unsealed, search_loop_lem}
use anonym_sharing.Opening.Sealing.{SealLaws, Apart, key_cases}

insert-IsWide :
    (h c : Bytes) (m : Map Bytes Bytes) → IsWide (h, c) → All IsWide m → All IsWide (insert h c m)
unfolding insert
insert-IsWide h c [] w a = (w, tt)
insert-IsWide h c ((j, v) ∷ m) w (x, a) = elim (Ordering-cases (cmp_bytes h j)) [
  | inl e ↦ rw (e, insert) (w, (x, a))
  | inr (inl e) ↦ rw (e, insert) (w, a)
  | inr (inr e) ↦ rw (e, insert) (x, insert-IsWide h c m w a)
]

module _ (crypto : Crypto) (decrypt : Bytes → Bytes → Option Bytes) (laws : SealLaws crypto decrypt)
    (bucket_key : Bytes) (sized : length bucket_key ≡ 32) where
  open crypto use {sha224, encrypt_aesgcm, get_rand}

  ordered_hashes-IsWide :
      (nonce : Bytes) (ka : KeyArray) (d : ℕ) (m : Map Bytes Bytes)
      → All IsWide m
      → All IsWide (ordered_hashes crypto nonce bucket_key ka d m)
  unfolding ordered_hashes
  ordered_hashes-IsWide nonce [] d m w = w
  ordered_hashes-IsWide nonce (k ∷ ka) d m w = ordered_hashes-IsWide nonce ka (suc d) _ (
      insert-IsWide (sha224 (nonce ++ k)) (encrypt_aesgcm k bucket_key d) m
        (laws.length-sha224 _, omega (arith, laws.length-encrypt k bucket_key d, sized)) w)

  -- The parts of an indexed envelope.
  open_indexed_parts :
      (nonce es key : Bytes)
      → length nonce ≡ 12
      → length key ≡ 32
      → open_indexed decrypt sha224 (nonce ++ es) key
        ≡ search_loop decrypt
            (suc (length es / 88))
            0
            (length es / 88)
            es
            (sha224 (nonce ++ key))
            key
  unfolding open_indexed
  open_indexed_parts nonce es key n k =
      let long : ltb (length (nonce ++ es)) 12 ≡ false =
        ground (arith, length-append nonce es, n) in
      let fits : ltb 32 (length key) ≡ false = ground (arith, k) in
      let bare : key ++ replicate (32 - length key) 0 ≡ key =
        let none_left : 32 - length key ≡ 0 = omega (arith, k) in rw none_left (append-nil key) in
      rw (long, fits, take-append nonce es 12 n, drop-append nonce es 12 n, bare) refl

  -- The client's search in the table of an indexed envelope.
  pub open_indexed_lem :
      (nonce key : Bytes) (ka : KeyArray) (d : ℕ)
      → length nonce ≡ 12
      → length key ≡ 32
      → let m = ordered_hashes crypto nonce bucket_key ka d [] in
        open_indexed decrypt sha224 (nonce ++ entries m) key
        ≡ some (unsealed decrypt key (find (sha224 (nonce ++ key)) m))
  open_indexed_lem nonce key ka d n k =
      let m = ordered_hashes crypto nonce bucket_key ka d [] in
      let wide = ordered_hashes-IsWide nonce ka d [] tt in
      let count : length (entries m) / 88 ≡ length m = omega (arith, length-entries m wide) in
      open_indexed_parts nonce (entries m) key n k
      ∙ (ap (λ c. search_loop decrypt (suc c) 0 c (entries m) (sha224 (nonce ++ key)) key) count
          ∙ search_loop_lem decrypt m (sha224 (nonce ++ key)) key
              (ordered_hashes-IsSorted crypto nonce bucket_key ka d [] tt) wide
              (laws.length-sha224 (nonce ++ key)) (suc (length m)) 0 (length m) (omega arith)
              (omega arith) (omega arith) (λ i e h. absurd (omega arith))
              (λ i e h q. absurd (nth-past i m e h q)))

  -- What the client finds in the table.
  pub table_member :
      (nonce key : Bytes) (ka : KeyArray) (d : ℕ)
      → Apart crypto decrypt bucket_key nonce key ka
      → In key ka
      → unsealed decrypt key
          (find (sha224 (nonce ++ key)) (ordered_hashes crypto nonce bucket_key ka d []))
        ≡ opened bucket_key
  table_member nonce key ka d a i =
      elim (ordered_hashes_cases crypto nonce bucket_key (sha224 (nonce ++ key)) ka d []) [
        | inl (j, e, l, q, f) ↦ elim (key_cases j key) [
          | inl same ↦ rw f (rw same (rw (laws.decrypts key bucket_key e, decrypt_aes) refl))
          | inr other ↦ absurd (a.hashes j l other q)
        ]
        | inr (away, f) ↦ absurd (away key i refl)
      ]

  pub table_foreign :
      (nonce key : Bytes) (ka : KeyArray) (d : ℕ)
      → Apart crypto decrypt bucket_key nonce key ka
      → ¬ In key ka
      → unsealed decrypt key
          (find (sha224 (nonce ++ key)) (ordered_hashes crypto nonce bucket_key ka d []))
        ≡ not_in_envelope
  unfolding find
  table_foreign nonce key ka d a i =
      elim (ordered_hashes_cases crypto nonce bucket_key (sha224 (nonce ++ key)) ka d []) [
        | inl (j, e, l, q, f) ↦ absurd (a.hashes j l (λ same. i (subst (λ x. In x ka) same l)) q)
        | inr (away, f) ↦ rw f refl
      ]
