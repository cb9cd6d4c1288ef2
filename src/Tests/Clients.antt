-- ===== src/Tests/Clients.antt =====
-- The theorems on the C client, with a cipher that adds the first byte of the key.
use anonym_sharing.Base.{
  ℕ, zero, suc, ◌+◌, ◌-◌, ◌*◌, ◌<◌, ◌≡◌, refl, ap, arith, false, List, [], ◌∷◌, some, pos, length,
  replicate, is_some,
}
use anonym_sharing.Std.Order.{Bytes, cmp_bytes}
use anonym_sharing.Client.{
  Evp, EvpLaws, trials, find_key, opens, positive_hint, negative_hint, random_stream, aes_encrypt,
  user_get_file_key, found, basic_user_validation_test,
}
use anonym_sharing.Client.Search.{Entry, envelope, first_open, user_get_file_key_first}
use anonym_sharing.Client.Simulation.{validation_finds}
use anonym_sharing.Client.Workers.{launch, runs}
use anonym_sharing.Client.Workers.Outcome.{flag-find_key, turns}

abbrev head : Bytes → ℕ
head [] = 0
head (b ∷ bs) = b

abbrev shift : ℕ → Bytes → Bytes
shift n [] = []
shift n (b ∷ bs) = (b + n) ∷ shift n bs

abbrev unshift : ℕ → Bytes → Bytes
unshift n [] = []
unshift n (b ∷ bs) = (b - n) ∷ unshift n bs

length-shift : (n : ℕ) (p : Bytes) → length (shift n p) ≡ length p
length-shift n [] = refl
length-shift n (b ∷ bs) = ap suc (length-shift n bs)

unshift-shift : (n : ℕ) (p : Bytes) → unshift n (shift n p) ≡ p
unshift-shift n [] = refl
unshift-shift n (b ∷ bs) = ground (arith, unshift-shift n bs)

abbrev toy_evp : Evp
toy_evp = record {
  encrypt_update = λ k v p. shift (head k) p;
  encrypt_final = λ k v p. [];
  decrypt_update = λ k v c. unshift (head k) c;
  decrypt_final = λ k v c. [];
}

toy_evp_laws : EvpLaws toy_evp
toy_evp_laws = record {
  length-encrypt = λ k v p. length-shift (head k) p;
  encrypt_final-nil = λ k v p. refl;
  decrypt_final-nil = λ k v p. refl;
  decrypt-encrypt = λ k v p. unshift-shift (head k) p;
}

abbrev ux : Bytes
ux = 5 ∷ []

abbrev file_key : Bytes
file_key = replicate 32 7

-- Another user's entry, and that of the user with the key 5.
abbrev two_entries : List Entry
two_entries = (replicate 32 48, replicate 32 1) ∷ (replicate 32 54, replicate 32 12) ∷ []

user_get_file_key_first_example :
    user_get_file_key toy_evp ux
      (envelope two_entries (9 ∷ []))
      (length (envelope two_entries (9 ∷ [])))
    ≡ found (first_open toy_evp ux two_entries)
user_get_file_key_first_example =
    user_get_file_key_first toy_evp ux two_entries (9 ∷ []) (omega arith) (omega arith)
      (omega arith)

finds_second :
    user_get_file_key toy_evp ux (envelope two_entries (9 ∷ [])) 129 ≡ (pos 0, some (file_key, 32))
unfolding user_get_file_key cmp_bytes positive_hint
finds_second = refl

zeros : ℕ → ℕ
zeros d = 0

validation_finds_example :
    basic_user_validation_test toy_evp zeros ux file_key 5 3 ≡ (pos 0, some (file_key, 32))
unfolding zeros opens aes_encrypt negative_hint positive_hint random_stream cmp_bytes
validation_finds_example =
    validation_finds toy_evp toy_evp_laws zeros ux file_key 3 5 (omega arith) (omega arith) refl
      (λ d. refl)

-- Five turns for each thread, one after the other.
abbrev rounds : List ℕ
rounds = 0 ∷ 1 ∷ 2 ∷ 3 ∷ 0 ∷ 1 ∷ 2 ∷ 3 ∷ 0 ∷ 1 ∷ 2 ∷ 3 ∷ 0 ∷ 1 ∷ 2 ∷ 3 ∷ 0 ∷ 1 ∷ 2 ∷ 3 ∷ []

abbrev two_blocks : Bytes
two_blocks = envelope two_entries []

rounds_enough : (i : ℕ) → i < 4 → 2 * trials 128 < turns i rounds
unfolding trials
rounds_enough zero h = omega arith
rounds_enough (suc zero) h = omega arith
rounds_enough (suc (suc zero)) h = omega arith
rounds_enough (suc (suc (suc zero))) h = omega arith
rounds_enough (suc (suc (suc (suc i)))) h = absurd (omega arith)

flag-find_key_example :
    (runs toy_evp ux rounds (launch false two_blocks 128)).found_positive
    ≡ is_some (find_key toy_evp (trials 128) ux two_blocks)
flag-find_key_example =
    flag-find_key toy_evp ux two_blocks 128 (omega arith) rounds (omega arith) rounds_enough
