-- ===== src/Opening/Trying.antt =====
-- Envelope.open on the plain envelope that `generate_envelope` makes.
use anonym_sharing.Base.{
  ℕ, zero, suc, ◌+◌, ◌<◌, ◌≡◌, ◌≢◌, refl, sym, ap, ◌∙◌, arith, false, [], ◌∷◌, ◌++◌, Option, none,
  some, ltb, length, take-append, drop-append, length-append, inl, inr, ◌⊎◌, Option-cases,
}
use anonym_sharing.Std.Order.{Bytes, bytes_order}
use anonym_sharing.Platform.{Crypto}
use anonym_sharing.Database.{KeyArray}
use anonym_sharing.Service.{plain_entries}
use anonym_sharing.Service.Envelope.{In}
use anonym_sharing.Opening.{opened, not_in_envelope, open_loop}
use anonym_sharing.Opening.Sealing.{SealLaws, Apart, key_cases}

module _ (crypto : Crypto) (decrypt : Bytes → Bytes → Option Bytes) (laws : SealLaws crypto decrypt)
    (bucket_key : Bytes) (sized : length bucket_key ≡ 32) where
  open crypto use {sha224, encrypt_aesgcm, get_rand}

  -- One round of the plain search.
  open_loop_step :
      (fuel : ℕ) (sealed rest key : Bytes)
      → length sealed ≡ 60
      → open_loop decrypt (suc fuel) (sealed ++ rest) key ≡ (elim (decrypt key sealed) [
        | some p ↦ some (opened p)
        | none ↦ open_loop decrypt fuel rest key
      ])
  unfolding open_loop
  open_loop_step fuel [] rest key h = absurd (omega arith)
  open_loop_step fuel (b ∷ bs) rest key h =
      let long : ltb (length ((b ∷ bs) ++ rest)) 60 ≡ false =
        ground (arith, length-append (b ∷ bs) rest, h) in
      let skip = ap (λ x. open_loop decrypt fuel x key) (drop-append (b ∷ bs) rest 60 h) in
      elim (Option-cases (decrypt key (b ∷ bs))) [
        | inl e ↦ rw (long, take-append (b ∷ bs) rest 60 h, e, open_loop) skip
        | inr (p, e) ↦ rw (long, take-append (b ∷ bs) rest 60 h, e, open_loop) refl
      ]

  Apart-tail :
      {nonce key j : Bytes} {ka : KeyArray}
      → Apart crypto decrypt bucket_key nonce key (j ∷ ka)
      → Apart crypto decrypt bucket_key nonce key ka
  Apart-tail a = record { hashes = λ k i. a.hashes k (inr i); tags = λ k d i. a.tags k d (inr i) }

  -- A round over what is sealed for another key.
  open_loop_other :
      (nonce key j : Bytes) (ka : KeyArray) (d fuel : ℕ)
      → Apart crypto decrypt bucket_key nonce key (j ∷ ka)
      → j ≢ key
      → open_loop decrypt (suc fuel) (plain_entries crypto bucket_key (j ∷ ka) d) key
        ≡ open_loop decrypt fuel (plain_entries crypto bucket_key ka (suc d)) key
  unfolding plain_entries
  open_loop_other nonce key j ka d fuel a other =
      open_loop_step fuel (encrypt_aesgcm j bucket_key d)
        (plain_entries crypto bucket_key ka (suc d)) key
        (omega (arith, laws.length-encrypt j bucket_key d, sized))
      ∙ rw (a.tags j d (inl refl) other) refl

  length-plain_entries :
      (j : Bytes) (ka : KeyArray) (d : ℕ)
      → length (plain_entries crypto bucket_key (j ∷ ka) d)
        ≡ 60 + length (plain_entries crypto bucket_key ka (suc d))
  unfolding plain_entries
  length-plain_entries j ka d = omega (
    arith,
    length-append (encrypt_aesgcm j bucket_key d) (plain_entries crypto bucket_key ka (suc d)),
    laws.length-encrypt j bucket_key d,
    sized,
  )

  pub open_loop_member :
      (nonce key : Bytes) (ka : KeyArray) (d fuel : ℕ)
      → Apart crypto decrypt bucket_key nonce key ka
      → length (plain_entries crypto bucket_key ka d) < fuel
      → In key ka
      → open_loop decrypt fuel (plain_entries crypto bucket_key ka d) key ≡ some (opened bucket_key)
  unfolding plain_entries
  open_loop_member nonce key [] d fuel a f i = absurd i
  open_loop_member nonce key (j ∷ ka) d zero a f i = absurd (omega arith)
  open_loop_member nonce key (j ∷ ka) d (suc fuel) a f i = elim (key_cases j key) [
    | inl same ↦
        open_loop_step fuel (encrypt_aesgcm j bucket_key d)
          (plain_entries crypto bucket_key ka (suc d)) key
          (omega (arith, laws.length-encrypt j bucket_key d, sized))
        ∙ rw same (rw (laws.decrypts key bucket_key d) refl)
    | inr other ↦
        open_loop_other nonce key j ka d fuel a other
        ∙ open_loop_member nonce key ka (suc d) fuel (Apart-tail a)
            (omega (arith, length-plain_entries j ka d)) (later i other)
  ]
    where
      later : (key ≡ j) ⊎ In key ka → j ≢ key → In key ka
      later (inl e) other = absurd (other (sym e))
      later (inr k) other = k

  pub open_loop_foreign :
      (nonce key : Bytes) (ka : KeyArray) (d fuel : ℕ)
      → Apart crypto decrypt bucket_key nonce key ka
      → length (plain_entries crypto bucket_key ka d) < fuel
      → ¬ In key ka
      → open_loop decrypt fuel (plain_entries crypto bucket_key ka d) key ≡ some not_in_envelope
  unfolding plain_entries open_loop
  open_loop_foreign nonce key [] d zero a f i = absurd (omega arith)
  open_loop_foreign nonce key [] d (suc fuel) a f i = refl
  open_loop_foreign nonce key (j ∷ ka) d zero a f i = absurd (omega arith)
  open_loop_foreign nonce key (j ∷ ka) d (suc fuel) a f i =
      open_loop_other nonce key j ka d fuel a (λ e. i (inl (sym e)))
      ∙ open_loop_foreign nonce key ka (suc d) fuel (Apart-tail a)
          (omega (arith, length-plain_entries j ka d)) (λ k. i (inr k))
