-- ===== src/Opening/Rounds.antt =====
-- How many rounds IndexedEnvelope.open can take: its loop moves a bound by one.
use anonym_sharing.Base.{
  ℕ, zero, suc, ◌+◌, ◌-◌, ◌/◌, ◌≤◌, ◌≡◌, refl, sym, ap, ◌∙◌, arith, Option, none, some, lt→ltb,
  length, All, Ordering,
}
use anonym_sharing.Std.Order.{Bytes, bytes_order, cmp_bytes, cmp_bytes-flip}
use anonym_sharing.Std.Map.{Map, Above, IsSorted, find-Above}
use anonym_sharing.Service.{entries}
use anonym_sharing.Opening.{not_in_envelope, hashed_index_bytes, search_loop}
use anonym_sharing.Opening.Table.{IsWide, entry-at, nth-some, nth-IsWide, nth-past, Above-nth}
use anonym_sharing.Opening.Indexed.{compare_to_lem, unsealed, search_loop_lem}

module _ (decrypt : Bytes → Bytes → Option Bytes) (m : Map Bytes Bytes) (hash user_key : Bytes)
    (wide : All IsWide m) (whole : length hash ≡ hashed_index_bytes) (below : Above hash m) where
  -- Each round takes one entry off the end.
  out_of_fuel :
      (fuel limit : ℕ)
      → fuel ≤ limit
      → limit ≤ length m
      → search_loop decrypt fuel 0 limit (entries m) hash user_key ≡ none
  unfolding search_loop
  out_of_fuel zero limit f b = refl
  out_of_fuel (suc fuel) limit f b =
      let mid = 0 + (limit - 1 - 0) / 2 in
      let (e, q) = nth-some mid m (omega arith) in
      let (at_hash, at_key) = entry-at mid m e wide q in
      let under = Above-nth hash mid m e below q in
      let over : cmp_bytes e.0 hash ≡ Ordering.gt =
        ground (arith, cmp_bytes-flip hash e.0, under) in
      let order = compare_to_lem e.0 hash ((nth-IsWide mid m e wide q).0 ∙ sym whole) in
      rw (lt→ltb 0 limit (omega arith), at_hash, at_key)
        (rw (order, over) (out_of_fuel fuel (limit - 1) (omega arith) (omega arith)))

-- Where the hash is before every hash of the table, the search ends without the key, but only after a
-- round for each entry: with fuel for no more rounds than there are entries it does not end, and with
-- fuel for one more it does. (The table is in order, and hashes and entries have their lengths.)
pub search_rounds :
    (decrypt : Bytes → Bytes → Option Bytes) (m : Map Bytes Bytes) (hash user_key : Bytes)
    (fuel : ℕ)
    → IsSorted m
    → All IsWide m
    → length hash ≡ hashed_index_bytes
    → Above hash m
    → fuel ≤ length m
    → (search_loop decrypt fuel 0 (length m) (entries m) hash user_key ≡ none)
      × (search_loop decrypt (suc (length m)) 0 (length m) (entries m) hash user_key
          ≡ some not_in_envelope)
search_rounds decrypt m hash user_key fuel sorted wide whole below f = (
  out_of_fuel decrypt m hash user_key wide whole below fuel (length m) f (omega arith),
  search_loop_lem decrypt m hash user_key sorted wide whole (suc (length m)) 0 (length m)
        (omega arith) (omega arith) (omega arith) (λ i e h. absurd (omega arith))
        (λ i e h q. absurd (nth-past i m e h q))
      ∙ ap (λ x. some (unsealed decrypt user_key x)) (find-Above hash m below),
)
