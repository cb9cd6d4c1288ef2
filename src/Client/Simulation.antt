-- ===== src/Client/Simulation.antt =====
-- The client's own test, `basic_user_validation_test`: the member of the simulated group finds the
-- file key.
use anonym_sharing.Base.{
  ℕ, zero, suc, ◌+◌, ◌*◌, ◌/◌, ◌^◌, ◌<◌, ◌≤◌, ◌≡◌, refl, ap, ◌∙◌, arith, Bool, true, false, List,
  [], ◌∷◌, some, pos, if◌then◌else◌, ◌==◌, length, All, take_all, replicate, Bool-cases, inl, inr,
}
use mathlib.Core.List.{append-nil}
use anonym_sharing.Std.Order.{Bytes, cmp_bytes_refl}
use anonym_sharing.Client.{
  Evp, EvpLaws, iv, positive_hint, negative_hint, random_stream, opens, aes_decrypt, aes_encrypt,
  simulate, basic_user_validation_test, found, test_user_key, test_file_key, draws_after, run_tests,
  main,
}
use anonym_sharing.Client.Search.{
  Entry, IsEntry, envelope, first_open, user_get_file_key_first, length-envelope,
}

module _ (evp : Evp) (laws : EvpLaws evp) where
  length-aes_encrypt : (p k : Bytes) → length p ≡ 32 → length (aes_encrypt evp p 32 k iv) ≡ 32
  unfolding aes_encrypt
  length-aes_encrypt p k h = rw (take_all p 32 h) (
      rw (laws.encrypt_final-nil k iv p)
        (rw (append-nil (evp.encrypt_update k iv p)) (laws.length-encrypt k iv p ∙ h)))

  aes_decrypt-aes_encrypt :
      (p k : Bytes) → length p ≡ 32 → aes_decrypt evp (aes_encrypt evp p 32 k iv) 32 k iv ≡ p
  unfolding aes_encrypt aes_decrypt
  aes_decrypt-aes_encrypt p k h = rw (take_all p 32 h) (
      rw (laws.encrypt_final-nil k iv p) (
        rw (append-nil (evp.encrypt_update k iv p)) (
          rw (take_all (evp.encrypt_update k iv p) 32 (laws.length-encrypt k iv p ∙ h)) (
            rw (laws.decrypt_final-nil k iv (evp.encrypt_update k iv p))
              (append-nil _ ∙ laws.decrypt-encrypt k iv p)))))

  opens-positive : (k : Bytes) → opens evp k (aes_encrypt evp positive_hint 32 k iv) ≡ true
  unfolding opens positive_hint
  opens-positive k =
      rw (aes_decrypt-aes_encrypt positive_hint k refl) (rw (cmp_bytes_refl positive_hint))

  module _ (rand : ℕ → ℕ) (user_key file_key : Bytes) (n : ℕ) where
    -- Entry i of the simulated envelope.
    abbrev is_member : ℕ → Bool
    is_member i = i == 2 * (n / 3)

    abbrev entry : ℕ → ℕ → Entry
    entry i d =
        let key = if is_member i then user_key else random_stream rand d 32 in
        (
          aes_encrypt evp (if is_member i then positive_hint else negative_hint) 32 key iv,
          aes_encrypt evp file_key 32 key iv,
        )

    abbrev entries : ℕ → ℕ → ℕ → List Entry
    entries zero i d = []
    entries (suc left) i d = entry i d ∷ entries left (suc i) (if is_member i then d else d + 32)

    simulate-envelope :
        (left i d : ℕ)
        → simulate evp rand user_key file_key n left i d ≡ envelope (entries left i d) []
    unfolding simulate
    simulate-envelope zero i d = refl
    simulate-envelope (suc left) i d =
        rw (simulate-envelope left (suc i) (if is_member i then d else d + 32))

    length-entries : (left i d : ℕ) → length (entries left i d) ≡ left
    length-entries zero i d = refl
    length-entries (suc left) i d = ap suc (length-entries left (suc i) _)

    entries-IsEntry : length file_key ≡ 32 → (left i d : ℕ) → All IsEntry (entries left i d)
    unfolding positive_hint negative_hint
    entries-IsEntry h zero i d = tt
    entries-IsEntry h (suc left) i d = (
      (length-aes_encrypt _ _ (hint (is_member i)), length-aes_encrypt file_key _ h),
      entries-IsEntry h left (suc i) _,
    )
      where
        hint : (b : Bool) → length (if b then positive_hint else negative_hint) ≡ 32
        hint true = refl
        hint false = refl

    -- No hint of another user opens under the user's key.
    abbrev pub AreForeign : Type 0
    AreForeign =
        (d : ℕ)
        → opens evp user_key (aes_encrypt evp negative_hint 32 (random_stream rand d 32) iv) ≡ false

    first_open-entries :
        (left i d : ℕ)
        → AreForeign
        → length file_key ≡ 32
        → i ≤ 2 * (n / 3)
        → 2 * (n / 3) < i + left
        → first_open evp user_key (entries left i d) ≡ some file_key
    first_open-entries zero i d foreign h a b = absurd (omega arith)
    first_open-entries (suc left) i d foreign h a b = elim (Bool-cases (is_member i)) [
      | inl e ↦
          rw e
            (rw (opens-positive user_key) (ap some (aes_decrypt-aes_encrypt file_key user_key h)))
      | inr e ↦ rw e (
          rw (foreign d)
            (first_open-entries left (suc i) (d + 32) foreign h (ground arith) (omega arith)))
    ]

    -- In the simulated envelope of n users, n at least 1 and below 2^25 so that the size fits an int,
    -- the member finds the file key, if no hint that was sealed under a random key opens under the
    -- member's.
    pub validation_finds :
        (d : ℕ)
        → 1 ≤ n
        → n < 2 ^ 25
        → length file_key ≡ 32
        → AreForeign
        → basic_user_validation_test evp rand user_key file_key d n ≡ (pos 0, some (file_key, 32))
    unfolding basic_user_validation_test
    validation_finds d one small h foreign =
        let es = entries n 0 d in
        let whole = entries-IsEntry h n 0 d in
        let size : length (envelope es []) ≡ n * 32 * 2 =
          omega (arith, length-envelope evp es [] whole, length-entries n 0 d) in
        rw (simulate-envelope n 0 d) (
          rw (← size) (
            user_get_file_key_first evp user_key es [] whole (omega arith)
              (omega (arith, length-entries n 0 d))
            ∙ ap found (first_open-entries n 0 d foreign h (omega arith) (omega arith))))

  module _ (rand : ℕ → ℕ) (foreign : AreForeign rand test_user_key test_file_key 0) where
    tests_find :
        (ns : List ℕ) (d : ℕ)
        → All (λ n. (1 ≤ n) × (n < 2 ^ 25)) ns
        → run_tests evp rand d ns ≡ replicate (length ns) (pos 0, some (test_file_key, 32))
    unfolding run_tests
    tests_find [] d a = refl
    tests_find (n ∷ ns) d (a, b) = λ i.
        validation_finds rand test_user_key test_file_key n d a.0 a.1 refl foreign i
        ∷ tests_find ns (draws_after evp n n 0 d) b i

    -- All four tests of `main` find the file key, if no hint that was sealed under a random key opens
    -- under the member's.
    pub main_finds : main evp rand ≡ replicate 4 (pos 0, some (test_file_key, 32))
    unfolding main
    main_finds = tests_find (100 ∷ 1000 ∷ 10000 ∷ 100000 ∷ []) 0 (
      (omega arith, omega arith),
      ((omega arith, omega arith), ((omega arith, omega arith), ((omega arith, omega arith), tt))),
    )
