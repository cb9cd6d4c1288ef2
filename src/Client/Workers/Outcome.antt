-- ===== src/Client/Workers/Outcome.antt =====
-- What the four threads find together, whatever the order of their steps.
use anonym_sharing.Base.{
  ℕ, zero, suc, ◌+◌, ◌-◌, ◌*◌, ◌/◌, ◌^◌, ◌<◌, ◌≤◌, ◌≡◌, refl, sym, ap, ◌∙◌, arith, Bool, false,
  ◌||◌, List, [], ◌∷◌, drop, if◌then◌else◌, ltb, ◌==◌, inl, inr, Bool-cases, All, is_some, if_ind,
  ==_iff, subst,
}
use anonym_sharing.Std.Order.{Bytes}
use anonym_sharing.Client.{Evp, trials, opens, find_key}
use anonym_sharing.Client.Search.{trials_lem}
use anonym_sharing.Client.Workers.{
  start_trials, end_trials, Worker, testing, trying, finished, Race, feed, launch, run, step, runs,
}
use anonym_sharing.Client.Workers.Split.{any_open, range_open, ranges_open}

-- A bound on the steps that a thread has left.
abbrev pub effort : Worker → ℕ
effort (testing n c) = suc (n + n)
effort (trying n c) = suc (suc (n + n))
effort finished = 0

-- How often the schedule has thread i.
abbrev pub turns : ℕ → List ℕ → ℕ
turns i [] = 0
turns i (j ∷ schedule) = if i == j then suc (turns i schedule) else turns i schedule

module _ (evp : Evp) (key : Bytes) where
  -- Some hint that the thread has still to try opens.
  abbrev pending : Worker → Bool
  pending (testing n c) = any_open evp key n c
  pending (trying n c) = opens evp key c || any_open evp key n (drop 64 c)
  pending finished = false

  run-pending :
      (flag : Bool) (w : Worker)
      → (run evp key flag w).0 || pending (run evp key flag w).1 ≡ (flag || pending w)
  unfolding run any_open
  run-pending flag (testing zero c) = ground arith
  run-pending flag (testing (suc n) c) = ground arith
  run-pending flag (trying n c) = ground arith
  run-pending flag finished = ground arith

  run-effort : (flag : Bool) (w : Worker) → effort (run evp key flag w).1 ≤ effort w - 1
  unfolding run
  run-effort flag (testing zero c) = ground arith
  run-effort flag (testing (suc n) c) = ground arith
  run-effort flag (trying n c) = ground arith
  run-effort flag finished = ground arith

  -- The flag is set, or it will be.
  abbrev covered : Race → Bool
  covered s =
      s.found_positive
      || (pending (s.workers 0)
          || (pending (s.workers 1) || (pending (s.workers 2) || pending (s.workers 3))))

  step-covered : (i : ℕ) (s : Race) → i < 4 → covered (step evp key i s) ≡ covered s
  unfolding step
  step-covered zero s h = let e = run-pending s.found_positive (s.workers 0) in ground (arith, e)
  step-covered (suc zero) s h =
      let e = run-pending s.found_positive (s.workers 1) in ground (arith, e)
  step-covered (suc (suc zero)) s h =
      let e = run-pending s.found_positive (s.workers 2) in ground (arith, e)
  step-covered (suc (suc (suc zero))) s h =
      let e = run-pending s.found_positive (s.workers 3) in ground (arith, e)
  step-covered (suc (suc (suc (suc i)))) s h = absurd (omega arith)

  runs-covered :
      (schedule : List ℕ) (s : Race)
      → All (λ i. i < 4) schedule
      → covered (runs evp key schedule s) ≡ covered s
  unfolding runs
  runs-covered [] s a = refl
  runs-covered (i ∷ schedule) s a =
      runs-covered schedule (step evp key i s) a.1 ∙ step-covered i s a.0

  step-effort :
      (j i : ℕ) (s : Race)
      → effort ((step evp key j s).workers i) ≤ effort (s.workers i) - (if i == j then 1 else 0)
  unfolding step
  step-effort j i s = elim (Bool-cases (i == j)) [
    | inl e ↦
        let same : i ≡ j = (==_iff i j).0 e in
        rw e (
          subst
            (λ k. effort (run evp key s.found_positive (s.workers k)).1 ≤ effort (s.workers i) - 1)
            same (run-effort s.found_positive (s.workers i)))
    | inr e ↦ rw e (omega arith)
  ]

  turns-cons :
      (i j : ℕ) (schedule : List ℕ)
      → turns i (j ∷ schedule) ≡ turns i schedule + (if i == j then 1 else 0)
  turns-cons i j schedule = ground arith

  runs-effort :
      (schedule : List ℕ) (s : Race) (i : ℕ)
      → effort ((runs evp key schedule s).workers i) ≤ effort (s.workers i) - turns i schedule
  unfolding runs
  runs-effort [] s i = omega arith
  runs-effort (j ∷ schedule) s i =
      omega (
        arith,
        runs-effort schedule (step evp key j s) i,
        step-effort j i s,
        turns-cons i j schedule,
      )

  finished_lem : (w : Worker) → effort w ≤ 0 → pending w ≡ false
  finished_lem (testing n c) h = absurd (omega arith)
  finished_lem (trying n c) h = absurd (omega arith)
  finished_lem finished h = refl

  find_key-any_open : (n : ℕ) (c : Bytes) → is_some (find_key evp n key c) ≡ any_open evp key n c
  unfolding find_key any_open
  find_key-any_open zero c = refl
  find_key-any_open (suc n) c = ground (arith, find_key-any_open n (drop 64 c))

  module _ (c : Bytes) (size : ℕ) (fits : size / 64 < 2 ^ 29) where
    all : ℕ
    all = trials size

    all_fits : all < 2 ^ 29
    unfolding all trials
    all_fits = ground arith

    range_fits : (i : ℕ) → end_trials all i - start_trials all i ≤ all
    unfolding end_trials
    range_fits i = ground arith

    feed_lem :
        (i : ℕ)
        → feed c size i
          ≡ testing (end_trials all i - start_trials all i) (drop (64 * start_trials all i) c)
    unfolding feed all
    feed_lem i =
        let n = end_trials all i - start_trials all i in
        let count : trials (n * 64) ≡ n =
          trials_lem evp (n * 64) n 0 (omega arith) (omega arith)
            (omega (arith, range_fits i, all_fits)) in
        ap (λ k. testing k (drop (64 * start_trials all i) c)) count

    feed-pending : (i : ℕ) → pending (feed c size i) ≡ range_open evp key all c i
    feed-pending i = ap pending (feed_lem i)

    feed-effort : (i : ℕ) → effort (feed c size i) ≤ suc (all + all)
    feed-effort i = rw (feed_lem i) (omega (arith, range_fits i))

    launched : covered (launch false c size) ≡ any_open evp key all c
    unfolding launch
    launched =
        rw (feed-pending 0, feed-pending 1, feed-pending 2, feed-pending 3)
          (sym (ranges_open evp key all c))

    launch-effort : (i : ℕ) → effort ((launch false c size).workers i) ≤ suc (all + all)
    unfolding launch
    launch-effort i =
        if_ind (λ w. effort w ≤ suc (all + all)) (ltb i 4) (feed-effort i) (omega arith)

    ended :
        (schedule : List ℕ) (i : ℕ)
        → 2 * all < turns i schedule
        → pending ((runs evp key schedule (launch false c size)).workers i) ≡ false
    ended schedule i enough =
        finished_lem _
          (omega (arith, runs-effort schedule (launch false c size) i, launch-effort i, enough))

    -- If each of the four threads is given enough steps, in any order, the flag ends as the search in
    -- one thread does: it is set exactly if that search finds a key. (The flag is clear at the start,
    -- and four times the count of entries fits an int.)
    pub flag-find_key :
        (schedule : List ℕ)
        → All (λ i. i < 4) schedule
        → ((i : ℕ) → i < 4 → 2 * trials size < turns i schedule)
        → (runs evp key schedule (launch false c size)).found_positive
          ≡ is_some (find_key evp (trials size) key c)
    unfolding all
    flag-find_key schedule valid enough =
        let total =
          runs-covered schedule (launch false c size) valid
          ∙ (launched ∙ sym (find_key-any_open (trials size) c)) in
        let a = ended schedule 0 (enough 0 (omega arith)) in
        let b = ended schedule 1 (enough 1 (omega arith)) in
        let d = ended schedule 2 (enough 2 (omega arith)) in
        let e = ended schedule 3 (enough 3 (omega arith)) in ground (arith, total, a, b, d, e)
