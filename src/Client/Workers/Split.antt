-- ===== src/Client/Workers/Split.antt =====
-- The four threads share the entries: together their ranges are all of them, in order.
use anonym_sharing.Base.{
  ℕ, zero, suc, ◌+◌, ◌-◌, ◌*◌, ◌<◌, ◌≤◌, ◌≡◌, sym, ap, ◌∙◌, arith, Bool, false, ◌||◌, List, [], ◌∷◌,
  drop,
}
use native.Mathlib.Nat.{zero-add, suc-add}
use anonym_sharing.Std.Order.{Bytes}
use anonym_sharing.Client.{Evp, opens}
use anonym_sharing.Client.Workers.{start_trials, end_trials}

drop-drop : {A : Type 0} (m n : ℕ) (xs : List A) → drop m (drop n xs) ≡ drop (n + m) xs
drop-drop m zero xs = rw zero-add
drop-drop zero (suc n) [] = rw suc-add
drop-drop (suc m) (suc n) [] = rw suc-add
drop-drop m (suc n) (x ∷ xs) = rw suc-add (drop-drop m n xs)

module _ (evp : Evp) (key : Bytes) where
  -- Some hint among the first n entries opens.
  unfoldable pub any_open : ℕ → Bytes → Bool
  any_open zero c = false
  any_open (suc n) c = opens evp key c || any_open n (drop 64 c)

  any_open-add :
      (m n : ℕ) (c : Bytes) → any_open (m + n) c ≡ any_open m c || any_open n (drop (64 * m) c)
  unfolding any_open
  any_open-add zero n c = rw zero-add
  any_open-add (suc m) n c =
      let next : drop (64 * m) (drop 64 c) ≡ drop (64 * suc m) c =
        drop-drop (64 * m) 64 c ∙ ap (λ k. drop k c) (omega arith) in
      rw suc-add (ground (arith, any_open-add m n (drop 64 c), next))

start-zero : (all : ℕ) → start_trials all 0 ≡ 0
unfolding start_trials
start-zero all = omega arith

end-start : (all i : ℕ) → i < 3 → end_trials all i ≡ start_trials all (i + 1)
unfolding start_trials end_trials
end-start all zero h = ground arith
end-start all (suc zero) h = ground arith
end-start all (suc (suc zero)) h = ground arith
end-start all (suc (suc (suc i))) h = absurd (omega arith)

end_three : (all : ℕ) → end_trials all 3 ≡ all
unfolding end_trials
end_three all = ground arith

start-le-end : (all i : ℕ) → i < 4 → start_trials all i ≤ end_trials all i
unfolding start_trials end_trials
start-le-end all zero h = ground arith
start-le-end all (suc zero) h = ground arith
start-le-end all (suc (suc zero)) h = ground arith
start-le-end all (suc (suc (suc zero))) h = ground arith
start-le-end all (suc (suc (suc (suc i)))) h = absurd (omega arith)

join :
    (none_ first second third all r q p o : Bool)
    → none_ ≡ false
    → first ≡ none_ || r
    → second ≡ first || q
    → third ≡ second || p
    → all ≡ third || o
    → all ≡ (r || (q || (p || o)))
join none_ first second third all r q p o h i j k l = ground arith

module _ (evp : Evp) (key : Bytes) (all : ℕ) (c : Bytes) where
  -- Some hint in the range of thread i opens.
  abbrev pub range_open : ℕ → Bool
  range_open i =
      any_open evp key (end_trials all i - start_trials all i) (drop (64 * start_trials all i) c)

  -- The entries before the end of range i.
  range-append :
      (i : ℕ)
      → i < 4
      → any_open evp key (end_trials all i) c
        ≡ any_open evp key (start_trials all i) c || range_open i
  range-append i h =
      ap (λ n. any_open evp key n c) (omega (arith, start-le-end all i h))
      ∙ any_open-add evp key (start_trials all i) (end_trials all i - start_trials all i) c

  -- An entry that opens is in one of the four ranges.
  pub ranges_open :
      any_open evp key all c ≡ (range_open 0 || (range_open 1 || (range_open 2 || range_open 3)))
  unfolding any_open
  ranges_open =
      join _ _ _ _ _ (range_open 0) (range_open 1) (range_open 2) (range_open 3)
        (ap before (start-zero all)) (range-append 0 (omega arith))
        (range-append 1 (omega arith) ∙ ap (λ b. b || range_open 1) (meets 0 (omega arith)))
        (range-append 2 (omega arith) ∙ ap (λ b. b || range_open 2) (meets 1 (omega arith)))
        (ap before (sym (end_three all))
          ∙ (range-append 3 (omega arith) ∙ ap (λ b. b || range_open 3) (meets 2 (omega arith))))
    where
      before : ℕ → Bool
      before n = any_open evp key n c

      meets : (i : ℕ) → i < 3 → before (start_trials all (i + 1)) ≡ before (end_trials all i)
      meets i h = ap before (sym (end-start all i h))
