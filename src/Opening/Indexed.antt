-- ===== src/Opening/Indexed.antt =====
-- What IndexedEnvelope.open finds in a table that is in order.
use anonym_sharing.Base.{
  ℕ, zero, suc, ◌+◌, ◌-◌, ◌/◌, ◌≤◌, ◌<◌, ◌≡◌, ◌≢◌, refl, sym, ◌∙◌, subst, arith, [], ◌∷◌, Option,
  none, some, ltb, ltb→lt, length, All, Ordering, inl, inr, Bool-cases,
}
use mathlib.Core.Option.{some-injective}
use anonym_sharing.Std.Order.{
  Bytes, bytes_order, cmp_bytes, cmp_bytes_refl, cmp_bytes_eq, cmp_bytes-flip, cmp_bytes_trans,
  Ordering-cases,
}
use anonym_sharing.Std.Map.{Map, find, IsSorted}
use anonym_sharing.Service.{entries}
use anonym_sharing.Opening.{
  Opened, not_in_envelope, hashed_index_bytes, compare_to, decrypt_aes, search_loop,
}
use anonym_sharing.Opening.Table.{
  IsWide, nth, entry-at, nth-some, nth_increasing, find-nth, find-nowhere, nth-IsWide,
}

-- On arrays of one length, compareTo is the order of the hashes.
pub compare_to_lem : (a b : Bytes) → length a ≡ length b → compare_to a b ≡ some (cmp_bytes a b)
unfolding compare_to cmp_bytes
compare_to_lem [] [] h = refl
compare_to_lem [] (c ∷ cs) h = absurd (omega arith)
compare_to_lem (b ∷ bs) [] h = absurd (omega arith)
compare_to_lem (b ∷ bs) (c ∷ cs) h = ground (arith, compare_to_lem bs cs (omega arith))

-- The decryption of the entry under the hash.
abbrev pub unsealed : (Bytes → Bytes → Option Bytes) → Bytes → Option Bytes → Opened
unsealed decrypt user_key none = not_in_envelope
unsealed decrypt user_key (some c) = decrypt_aes decrypt c user_key

module _ (decrypt : Bytes → Bytes → Option Bytes) (m : Map Bytes Bytes) (hash user_key : Bytes)
    (sorted : IsSorted m) (wide : All IsWide m) (whole : length hash ≡ hashed_index_bytes) where
  -- No position below this one has the hash, or none from this one on.
  abbrev pub Low : ℕ → Type 0
  Low left = (i : ℕ) (e : Bytes × Bytes) → i < left → nth i m ≡ some e → e.0 ≢ hash

  abbrev pub High : ℕ → Type 0
  High limit = (i : ℕ) (e : Bytes × Bytes) → limit ≤ i → nth i m ≡ some e → e.0 ≢ hash

  lt-ne : (a b : Bytes) → cmp_bytes a b ≡ Ordering.lt → a ≢ b
  lt-ne a b h = λ e. ground (arith, cmp_bytes_refl b, h, e)

  not_later :
      (i mid : ℕ) (e f : Bytes × Bytes)
      → i ≤ mid
      → nth i m ≡ some e
      → nth mid m ≡ some f
      → cmp_bytes f.0 hash ≡ Ordering.lt
      → e.0 ≢ hash
  not_later i mid e f h p q l = elim (Bool-cases (ltb i mid)) [
    | inl before ↦
        let up = nth_increasing i mid m e f sorted (ltb→lt i mid before) p q in
        lt-ne e.0 hash (cmp_bytes_trans e.0 f.0 hash up l)
    | inr same ↦
        let at : nth mid m ≡ some e = subst (λ j. nth j m ≡ some e) (ground (arith, same, h)) p in
        lt-ne e.0 hash (
          subst (λ (y : Bytes × Bytes). cmp_bytes y.0 hash ≡ Ordering.lt)
            (some-injective _ _ (sym q ∙ at)) l)
  ]

  not_earlier :
      (i mid : ℕ) (e f : Bytes × Bytes)
      → mid ≤ i
      → nth i m ≡ some e
      → nth mid m ≡ some f
      → cmp_bytes f.0 hash ≡ Ordering.gt
      → e.0 ≢ hash
  not_earlier i mid e f h p q l =
      let over : cmp_bytes hash f.0 ≡ Ordering.lt = ground (arith, cmp_bytes-flip f.0 hash, l) in
      elim (Bool-cases (ltb mid i)) [
        | inl behind ↦
            let up = nth_increasing mid i m f e sorted (ltb→lt mid i behind) q p in
            λ x. lt-ne hash e.0 (cmp_bytes_trans hash f.0 e.0 over up) (sym x)
        | inr same ↦
            let at : nth mid m ≡ some e =
              subst (λ j. nth j m ≡ some e) (ground (arith, same, h)) p in
            λ x.
              lt-ne hash e.0
                (subst (λ (y : Bytes × Bytes). cmp_bytes hash y.0 ≡ Ordering.lt)
                  (some-injective _ _ (sym q ∙ at)) over)
                (sym x)
      ]

  -- On a table in order the loop, whatever it moves by, ends with what the hash finds, and in no more
  -- rounds than there are entries.
  pub search_loop_lem :
      (fuel left limit : ℕ)
      → limit < left + fuel
      → left ≤ limit
      → limit ≤ length m
      → Low left
      → High limit
      → search_loop decrypt fuel left limit (entries m) hash user_key
        ≡ some (unsealed decrypt user_key (find hash m))
  unfolding search_loop
  search_loop_lem zero left limit f l b low high = absurd (omega arith)
  search_loop_lem (suc fuel) left limit f l b low high = elim (Bool-cases (ltb left limit)) [
    | inl going ↦
        let lt = ltb→lt left limit going in
        let mid = left + (limit - 1 - left) / 2 in
        let (e, q) = nth-some mid m (omega arith) in
        let (at_hash, at_key) = entry-at mid m e wide q in
        let later = λ (n : cmp_bytes e.0 hash ≡ Ordering.lt).
          search_loop_lem fuel (left + 1) limit (omega arith) (omega arith) b
            (λ i x h p. not_later i mid x e (omega arith) p q n) high in
        let earlier = λ (n : cmp_bytes e.0 hash ≡ Ordering.gt).
          search_loop_lem fuel left (limit - 1) (omega arith) (omega arith) (omega arith) low
            (λ i x h p. not_earlier i mid x e (omega arith) p q n) in
        let order = compare_to_lem e.0 hash ((nth-IsWide mid m e wide q).0 ∙ sym whole) in
        rw (going, at_hash, at_key)
          (elim (Ordering-cases (cmp_bytes e.0 hash)) [
            | inl n ↦ rw (order, n) (later n)
            | inr (inl n) ↦
                let hit : find hash m ≡ some e.1 =
                  subst (λ h. find h m ≡ some e.1) (cmp_bytes_eq e.0 hash n)
                    (find-nth mid m e sorted q) in
                rw (n, hit) refl
            | inr (inr n) ↦ rw (order, n) (earlier n)
          ])
    | inr over ↦
        let none_left = find-nowhere hash m (λ i e q. elim (Bool-cases (ltb i left)) [
          | inl h ↦ low i e (ltb→lt i left h) q
          | inr h ↦ high i e (ground (arith, h, over)) q
        ]) in
        rw (over, none_left) refl
  ]
