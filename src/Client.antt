-- ===== src/Client.antt =====
-- client/crypto.cpp and client/client.cpp: the C client that looks for its entry in an envelope of
-- hints and sealed file keys, in one thread and in four, and the envelope that its test makes.
pub mod Search
pub mod Simulation
pub mod Workers
use anonym_sharing.Base.{
  ℕ, zero, suc, ◌+◌, ◌-◌, ◌*◌, ◌/◌, ◌%◌, ◌^◌, Bool, true, false, List, [], ◌∷◌, ◌++◌, Option, none,
  some, ℤ, pos, negsuc, if◌then◌else◌, ltb, ◌==◌, take, drop, replicate, ◌≡◌, length,
}
use anonym_sharing.Std.Order.{Bytes, cmp_bytes}
use anonym_sharing.Std.Map.{is_eq}

-- The EVP calls of OpenSSL with AES-256 in counter mode: key, initialisation vector, text. The
-- update gives the bytes of the text, the final call those that are left.
pub record Evp : Type 0 where
  pub encrypt_update : Bytes → Bytes → Bytes → Bytes
  pub encrypt_final : Bytes → Bytes → Bytes → Bytes
  pub decrypt_update : Bytes → Bytes → Bytes → Bytes
  pub decrypt_final : Bytes → Bytes → Bytes → Bytes

-- What is documented of counter mode: the texts have one length, nothing is left for the final
-- call, and decryption undoes encryption.
pub record EvpLaws (evp : Evp) : Type 0 where
  pub length-encrypt : (k iv p : Bytes) → length (evp.encrypt_update k iv p) ≡ length p
  pub encrypt_final-nil : (k iv p : Bytes) → evp.encrypt_final k iv p ≡ []
  pub decrypt_final-nil : (k iv p : Bytes) → evp.decrypt_final k iv p ≡ []
  pub decrypt-encrypt : (k iv p : Bytes) → evp.decrypt_update k iv (evp.encrypt_update k iv p) ≡ p

-- unsigned char* iv = "wWw456789012345678901234567890IV"
abbrev pub iv : Bytes
iv =
    119 ∷ 87 ∷ 119 ∷ 52 ∷ 53 ∷ 54 ∷ 55 ∷ 56 ∷ 57 ∷ 48 ∷ 49 ∷ 50 ∷ 51 ∷ 52 ∷ 53 ∷ 54 ∷ 55 ∷ 56 ∷ 57
    ∷ 48 ∷ 49 ∷ 50 ∷ 51 ∷ 52 ∷ 53 ∷ 54 ∷ 55 ∷ 56 ∷ 57 ∷ 48 ∷ 73 ∷ 86 ∷ []

-- 32 times '1', and 32 times '0'
unfoldable pub positive_hint : Bytes
positive_hint = replicate 32 49

unfoldable pub negative_hint : Bytes
negative_hint = replicate 32 48

-- "ux000000000000000000000000000000"
abbrev pub test_user_key : Bytes
test_user_key = 117 ∷ 120 ∷ replicate 30 48

-- "12345678901234567890123456789012"
abbrev pub test_file_key : Bytes
test_file_key =
    49 ∷ 50 ∷ 51 ∷ 52 ∷ 53 ∷ 54 ∷ 55 ∷ 56 ∷ 57 ∷ 48 ∷ 49 ∷ 50 ∷ 51 ∷ 52 ∷ 53 ∷ 54 ∷ 55 ∷ 56 ∷ 57
    ∷ 48 ∷ 49 ∷ 50 ∷ 51 ∷ 52 ∷ 53 ∷ 54 ∷ 55 ∷ 56 ∷ 57 ∷ 48 ∷ 49 ∷ 50 ∷ []

-- b[i] = (unsigned char) (rand() % 255); `rand d` is draw number d.
unfoldable pub random_stream : (ℕ → ℕ) → ℕ → ℕ → Bytes
random_stream rand d zero = []
random_stream rand d (suc n) = rand d % 255 ∷ random_stream rand (suc d) n

-- memcmp(a, b, 32) == 0
abbrev pub equal_bytes : Bytes → Bytes → Bool
equal_bytes a b = is_eq (cmp_bytes a b)

-- int trials = c_size / 64, for a loop that counts up to it: the conversion keeps 32 bits, and a
-- negative count makes no round.
unfoldable pub trials : ℕ → ℕ
trials c_size = let t = c_size / 64 % 2 ^ 32 in if ltb t (2 ^ 31) then t else 0

-- The result of the search, and what it writes through p_file_key and p_fk_size.
abbrev pub found : Option Bytes → ℤ × Option (Bytes × ℕ)
found none = (negsuc 0, none)
found (some key) = (pos 0, some (key, 32))

module _ (evp : Evp) where
  open evp use {encrypt_update, encrypt_final, decrypt_update, decrypt_final}

  -- aes_encrypt(plaintext, n, key, iv, ...): the bytes that it writes.
  unfoldable pub aes_encrypt : Bytes → ℕ → Bytes → Bytes → Bytes
  aes_encrypt plaintext n key v =
      let p = take n plaintext in encrypt_update key v p ++ encrypt_final key v p

  unfoldable pub aes_decrypt : Bytes → ℕ → Bytes → Bytes → Bytes
  aes_decrypt ciphertext n key v =
      let c = take n ciphertext in decrypt_update key v c ++ decrypt_final key v c

  -- The hint at the pointer is the positive one under the key.
  unfoldable pub opens : Bytes → Bytes → Bool
  unfolding aes_decrypt
  opens user_key ciphertext = equal_bytes (aes_decrypt ciphertext 32 user_key iv) positive_hint

  -- The loop of `user_get_file_key`: the pointer moves by 64 bytes a round.
  unfoldable pub find_key : ℕ → Bytes → Bytes → Option Bytes
  unfolding opens aes_decrypt
  find_key zero user_key ciphertext = none
  find_key (suc left) user_key ciphertext =
      let rest = find_key left user_key (drop 64 ciphertext) in
      if opens user_key ciphertext
      then some (aes_decrypt (drop 32 ciphertext) 32 user_key iv)
      else rest

  unfoldable pub user_get_file_key : Bytes → Bytes → ℕ → ℤ × Option (Bytes × ℕ)
  unfolding find_key trials
  user_get_file_key user_key ciphertext c_size =
      found (find_key (trials c_size) user_key ciphertext)

  -- The loop that simulates the monitor: entry i of n, with `left` to go; user number 2 * (n / 3) is
  -- the member.
  unfoldable pub simulate : (ℕ → ℕ) → Bytes → Bytes → ℕ → ℕ → ℕ → ℕ → Bytes
  unfolding aes_encrypt random_stream
  simulate rand user_key file_key n zero i d = []
  simulate rand user_key file_key n (suc left) i d =
      let is_member = i == 2 * (n / 3) in
      let key = if is_member then user_key else random_stream rand d 32 in
      let hint = if is_member then positive_hint else negative_hint in
      aes_encrypt hint 32 key iv
      ++ (aes_encrypt file_key 32 key iv
          ++ simulate rand user_key file_key n left (suc i) (if is_member then d else d + 32))

  -- The number of the next draw after that loop.
  unfoldable pub draws_after : ℕ → ℕ → ℕ → ℕ → ℕ
  draws_after n zero i d = d
  draws_after n (suc left) i d = draws_after n left (suc i) (if i == 2 * (n / 3) then d else d + 32)

  -- basic_user_validation_test: what `user_get_file_key` gives on the simulated envelope, which the
  -- function times and drops, to return 0; `d` is the number of the next draw.
  unfoldable pub basic_user_validation_test :
      (ℕ → ℕ) → Bytes → Bytes → ℕ → ℕ → ℤ × Option (Bytes × ℕ)
  unfolding simulate user_get_file_key
  basic_user_validation_test rand user_key file_key d users_in_group =
      user_get_file_key user_key (simulate rand user_key file_key users_in_group users_in_group 0 d)
        (users_in_group * 32 * 2)

  -- The tests of `main`, one after the other.
  unfoldable pub run_tests : (ℕ → ℕ) → ℕ → List ℕ → List (ℤ × Option (Bytes × ℕ))
  unfolding basic_user_validation_test draws_after
  run_tests rand d [] = []
  run_tests rand d (n ∷ ns) =
      basic_user_validation_test rand test_user_key test_file_key d n
      ∷ run_tests rand (draws_after n n 0 d) ns

  unfoldable pub main : (ℕ → ℕ) → List (ℤ × Option (Bytes × ℕ))
  unfolding run_tests
  main rand = run_tests rand 0 (100 ∷ 1000 ∷ 10000 ∷ 100000 ∷ [])
