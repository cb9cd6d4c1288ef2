-- ===== src/Opening.antt =====
-- anonymbe-client/src/main/kotlin/ch/unine/anonymbe/client/Envelope.kt: how a member of a group opens
-- an envelope of the access monitor, plain or indexed. A ByteBuffer is the bytes from its position on.
pub mod Table
pub mod Indexed
pub mod Sealing
pub mod Seeking
pub mod Trying
pub mod Envelopes
pub mod Members
pub mod Group
pub mod Rounds
use anonym_sharing.Base.{
  ℕ, zero, suc, ◌+◌, ◌-◌, ◌*◌, ◌/◌, ◌++◌, [], ◌∷◌, Option, none, some, ltb, ◌||◌, if◌then◌else◌,
  take, drop, replicate, length, compare, Ordering,
}
use anonym_sharing.Std.Order.{Bytes, cmp_bytes}
use anonym_sharing.Std.Map.{is_eq}

-- How `open` ends: with the bucket key, or with an exception: its own, the cipher's
-- AEADBadTagException, or one for a position or an index that is out of range.
pub data Opened : Type 0 where
  opened : Bytes → Opened
  not_in_envelope bad_tag out_of_range : Opened

-- CIPHER_IV_BYTES + CIPHER_KEY_BYTES + CIPHER_TAG_BYTES
abbrev pub encrypted_key_bytes : ℕ
encrypted_key_bytes = 12 + 32 + 16

abbrev pub nonce_bytes : ℕ
nonce_bytes = 12

abbrev pub hashed_index_bytes : ℕ
hashed_index_bytes = 28

abbrev pub indexed_encrypted_key_bytes : ℕ
indexed_encrypted_key_bytes = hashed_index_bytes + encrypted_key_bytes

-- ByteArray.compareTo: the first difference over the indices of the first array; `none` is an index
-- that the second one does not have.
unfoldable pub compare_to : Bytes → Bytes → Option Ordering
compare_to [] other = some Ordering.eq
compare_to (b ∷ bs) [] = none
compare_to (b ∷ bs) (c ∷ cs) =
    let rest = compare_to bs cs in
    elim (compare b c) [
      | Ordering.lt ↦ some Ordering.lt
      | Ordering.eq ↦ rest
      | Ordering.gt ↦ some Ordering.gt
    ]

-- The decryption of `Encryption.decryptAes`: a key and the sealed bytes; `none` is its
-- AEADBadTagException.
module _ (decrypt : Bytes → Bytes → Option Bytes) where
  abbrev pub decrypt_aes : Bytes → Bytes → Opened
  decrypt_aes encrypted user_key = elim (decrypt user_key encrypted) [
    | none ↦ bad_tag
    | some key ↦ opened key
  ]

  -- The loop of Envelope.open; the fuel bounds its rounds, and `none` is a loop that runs out of it.
  unfoldable pub open_loop : ℕ → Bytes → Bytes → Option Opened
  open_loop zero envelope user_key = none
  open_loop (suc fuel) [] user_key = some not_in_envelope
  open_loop (suc fuel) (b ∷ bs) user_key =
      let rest = open_loop fuel (drop encrypted_key_bytes (b ∷ bs)) user_key in
      if ltb (length (b ∷ bs)) encrypted_key_bytes
      then some out_of_range
      else elim (decrypt user_key (take encrypted_key_bytes (b ∷ bs))) [
        | some key ↦ some (opened key)
        | none ↦ rest
      ]

  -- Envelope.open: each round reads at least one byte.
  unfoldable pub open_envelope : Bytes → Bytes → Option Opened
  unfolding open_loop
  open_envelope envelope user_key = open_loop (suc (length envelope)) envelope user_key

  -- The loop of IndexedEnvelope.open over the entries behind the nonce. `limit` is `right + 1`.
  unfoldable pub search_loop : ℕ → ℕ → ℕ → Bytes → Bytes → Bytes → Option Opened
  unfolding compare_to
  search_loop zero left limit entries hash user_key = none
  search_loop (suc fuel) left limit entries hash user_key =
      let current_index = left + (limit - 1 - left) / 2 in
      let entry = drop (current_index * indexed_encrypted_key_bytes) entries in
      let hashed_index = take hashed_index_bytes entry in
      let encrypted = take encrypted_key_bytes (drop hashed_index_bytes entry) in
      let later = search_loop fuel (left + 1) limit entries hash user_key in
      let earlier = search_loop fuel left (limit - 1) entries hash user_key in
      if ltb left limit
      then if is_eq (cmp_bytes hashed_index hash)
        then some (decrypt_aes encrypted user_key)
        else elim (compare_to hashed_index hash) [
          | none ↦ some out_of_range
          | some Ordering.lt ↦ later
          | some Ordering.eq ↦ earlier
          | some Ordering.gt ↦ earlier
        ]
      else some not_in_envelope

  -- IndexedEnvelope.open; `digest` is SHA-224. The nonce and the key are copied into an array of 44
  -- bytes, which has zeros behind a shorter key.
  unfoldable pub open_indexed : (Bytes → Bytes) → Bytes → Bytes → Option Opened
  open_indexed digest envelope user_key =
      let hash =
        digest (take nonce_bytes envelope ++ (user_key ++ replicate (32 - length user_key) 0)) in
      let entries = drop nonce_bytes envelope in
      let count = length entries / indexed_encrypted_key_bytes in
      if ltb (length envelope) nonce_bytes || ltb 32 (length user_key)
      then some out_of_range
      else search_loop (suc count) 0 count entries hash user_key
