-- ===== src/Client/Search.antt =====
-- What the search of the client finds.
use anonym_sharing.Base.{
  ℕ, ◌+◌, ◌*◌, ◌/◌, ◌%◌, ◌^◌, ◌<◌, ◌≡◌, refl, sym, ap, ◌∙◌, arith, List, [], ◌∷◌, ◌++◌, Option,
  none, some, if◌then◌else◌, take, drop, length, All, take-append, drop-append, take_all,
  length-append, lt→ltb,
}
use mathlib.Core.List.{append_assoc}
use anonym_sharing.Std.Order.{Bytes}
use anonym_sharing.Client.{Evp, iv, opens, find_key, trials, user_get_file_key, found, aes_decrypt}

-- An entry of an envelope: the sealed hint and the sealed file key, of 32 bytes each.
abbrev pub Entry : Type 0
Entry = Bytes × Bytes

abbrev pub IsEntry : Entry → Type 0
IsEntry e = (length e.0 ≡ 32) × (length e.1 ≡ 32)

abbrev pub envelope : List Entry → Bytes → Bytes
envelope [] tail = tail
envelope (e ∷ es) tail = e.0 ++ (e.1 ++ envelope es tail)

module _ (evp : Evp) where
  -- The file key of the first entry whose hint opens.
  abbrev pub first_open : Bytes → List Entry → Option Bytes
  first_open key [] = none
  first_open key (e ∷ es) =
      let rest = first_open key es in
      if opens evp key e.0 then some (aes_decrypt evp e.1 32 key iv) else rest

  take-at : (xs ys : Bytes) (n : ℕ) → length xs ≡ n → take n (xs ++ ys) ≡ take n xs
  take-at xs ys n h = take-append xs ys n h ∙ sym (take_all xs n h)

  opens-append :
      (key hint rest : Bytes) → length hint ≡ 32 → opens evp key (hint ++ rest) ≡ opens evp key hint
  unfolding opens aes_decrypt
  opens-append key hint rest h = rw (take-at hint rest 32 h)

  decrypt-append :
      (key sealed rest : Bytes)
      → length sealed ≡ 32
      → aes_decrypt evp (sealed ++ rest) 32 key iv ≡ aes_decrypt evp sealed 32 key iv
  unfolding aes_decrypt
  decrypt-append key sealed rest h = rw (take-at sealed rest 32 h)

  drop-entry :
      (hint sealed rest : Bytes)
      → length hint ≡ 32
      → length sealed ≡ 32
      → drop 64 (hint ++ (sealed ++ rest)) ≡ rest
  drop-entry hint sealed rest h k =
      ap (drop 64) (sym (append_assoc hint sealed rest))
      ∙ drop-append (hint ++ sealed) rest 64 (omega (arith, length-append hint sealed))

  find_key-envelope :
      (key : Bytes) (es : List Entry) (tail : Bytes)
      → All IsEntry es
      → find_key evp (length es) key (envelope es tail) ≡ first_open key es
  unfolding find_key
  find_key-envelope key [] tail a = refl
  find_key-envelope key ((hint, sealed) ∷ es) tail ((h, k), a) =
      let rest = sealed ++ envelope es tail in
      rw (opens-append key hint rest h) (
        rw (drop-append hint rest 32 h) (
          rw (decrypt-append key sealed (envelope es tail) k) (
            rw (drop-entry hint sealed (envelope es tail) h k)
              (rw (find_key-envelope key es tail a)))))

  pub length-envelope :
      (es : List Entry) (tail : Bytes)
      → All IsEntry es
      → length (envelope es tail) ≡ 64 * length es + length tail
  length-envelope [] tail a = omega arith
  length-envelope ((hint, sealed) ∷ es) tail ((h, k), a) = omega (
    arith,
    length-append hint (sealed ++ envelope es tail),
    length-append sealed (envelope es tail),
    length-envelope es tail a,
  )

  pub trials_lem : (c n r : ℕ) → c ≡ 64 * n + r → r < 64 → n < 2 ^ 31 → trials c ≡ n
  unfolding trials
  trials_lem c n r e h k =
      let whole : c / 64 % 2 ^ 32 ≡ n = omega arith in rw whole (rw (lt→ltb n (2 ^ 31) k))

  -- On whole entries, with less than an entry after them, the search gives 0 and the file key of the
  -- first entry whose hint opens, and -1 if none does. (The count of entries is below 2^31.)
  pub user_get_file_key_first :
      (key : Bytes) (es : List Entry) (tail : Bytes)
      → All IsEntry es
      → length tail < 64
      → length es < 2 ^ 31
      → user_get_file_key evp key (envelope es tail) (length (envelope es tail))
        ≡ found (first_open key es)
  unfolding user_get_file_key
  user_get_file_key_first key es tail a t n = ap found (
      ap (λ n. find_key evp n key (envelope es tail))
        (trials_lem _ (length es) (length tail) (length-envelope es tail a) t n)
      ∙ find_key-envelope key es tail a)
