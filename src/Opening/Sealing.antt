-- ===== src/Opening/Sealing.antt =====
-- What is taken for granted of the sealing of keys, and which keys are told apart.
use anonym_sharing.Base.{
  ℕ, ◌+◌, ◌≡◌, ◌≢◌, ◌++◌, Option, none, some, length, inl, inr, ◌⊎◌, Bool-cases,
}
use anonym_sharing.Std.Order.{Bytes, bytes_order, cmp_bytes}
use anonym_sharing.Std.Map.{is_eq}
use anonym_sharing.Platform.{Crypto}
use anonym_sharing.Database.{KeyArray}
use anonym_sharing.Service.Envelope.{In, is_eq→≡, not-eq}

-- What is documented of SHA-224, of AES-GCM with a nonce of 12 bytes before the text and a tag of 16
-- behind it, and of the random bytes.
pub record SealLaws (crypto : Crypto) (decrypt : Bytes → Bytes → Option Bytes) : Type 0 where
  pub decrypts : (k p : Bytes) (d : ℕ) → decrypt k (crypto.encrypt_aesgcm k p d) ≡ some p
  pub length-encrypt : (k p : Bytes) (d : ℕ) → length (crypto.encrypt_aesgcm k p d) ≡ 28 + length p
  pub length-sha224 : (x : Bytes) → length (crypto.sha224 x) ≡ 28
  pub length-get_rand : (n d : ℕ) → length (crypto.get_rand n d) ≡ n

-- The key is this one, or another one.
pub key_cases : (j key : Bytes) → (j ≡ key) ⊎ (j ≢ key)
key_cases j key = elim (Bool-cases (is_eq (cmp_bytes j key))) [
  | inl same ↦ inl (is_eq→≡ j key same)
  | inr other ↦ inr (not-eq j key other)
]

module _ (crypto : Crypto) (decrypt : Bytes → Bytes → Option Bytes) (bucket_key : Bytes) where
  open crypto use {sha224, encrypt_aesgcm, get_rand}

  -- The key is told apart from the others: their hashes differ under the nonce, and what is sealed
  -- for them does not open with it.
  pub record Apart (nonce key : Bytes) (ka : KeyArray) : Type 0 where
    pub hashes : (j : Bytes) → In j ka → j ≢ key → sha224 (nonce ++ j) ≢ sha224 (nonce ++ key)
    pub tags :
        (j : Bytes) (d : ℕ) → In j ka → j ≢ key → decrypt key (encrypt_aesgcm j bucket_key d) ≡ none
