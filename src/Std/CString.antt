-- ===== src/Std/CString.antt =====
-- Char arrays as lists of bytes: strncpy, strlen, and the write of a terminator.
use anonym_sharing.Base.{
  ℕ, zero, suc, min, ◌≤◌, ◌==◌, ◌≡◌, refl, ap, ◌∙◌, arith, Bool, true, false, [], ◌∷◌, ◌++◌, take,
  drop, replicate, length, if◌then◌else◌, length-append, length-take, length-drop, length-replicate,
}
use anonym_sharing.Std.Order.{Bytes}

-- strncpy(field, arg, n): the bytes of `arg`, filled up with zeros, and what stood behind them.
unfoldable pub strncpy : ℕ → Bytes → Bytes → Bytes
strncpy n arg field = take n (arg ++ replicate n 0) ++ drop n field

-- field[n] = '\0'
unfoldable pub terminate_at : ℕ → Bytes → Bytes
terminate_at n field = take n field ++ 0 ∷ drop (suc n) field

unfoldable pub strlen : Bytes → ℕ
strlen [] = 0
strlen (b ∷ bs) = let rest = strlen bs in if b == 0 then 0 else suc rest

abbrev pub has_nul : Bytes → Bool
has_nul [] = false
has_nul (b ∷ bs) = if b == 0 then true else has_nul bs

-- What a terminated copy holds.
strlen-take :
    (n m : ℕ) (arg rest : Bytes)
    → has_nul arg ≡ false
    → strlen (take n (arg ++ replicate m 0) ++ 0 ∷ rest) ≡ min (length arg) n
unfolding strlen
strlen-take zero m arg rest e = ground arith
strlen-take (suc n) zero [] rest e = ground arith
strlen-take (suc n) (suc m) [] rest e = ground arith
strlen-take (suc n) m (a ∷ arg) rest e = ground (arith, strlen-take n m arg rest)

take-take-append :
    (n m : ℕ) (xs ys : Bytes) → n ≤ m → m ≤ length xs → take n (take m xs ++ ys) ≡ take n xs
take-take-append zero m xs ys h k = refl
take-take-append (suc n) zero xs ys h k = absurd (omega arith)
take-take-append (suc n) (suc m) [] ys h k = absurd (omega arith)
take-take-append (suc n) (suc m) (x ∷ xs) ys h k =
    ap (◌∷◌ x) (take-take-append n m xs ys (omega arith) (omega arith))

-- A copy of at most n bytes into an array, with a terminator after them, is a C string of that
-- length.
pub strlen-terminate_at :
    (n : ℕ) (arg field : Bytes)
    → has_nul arg ≡ false
    → strlen (terminate_at n (strncpy (suc n) arg field)) ≡ min (length arg) n
unfolding terminate_at strncpy
strlen-terminate_at n arg field e =
    ap (λ x. strlen (x ++ 0 ∷ drop (suc n) (strncpy (suc n) arg field)))
      (take-take-append n (suc n) (arg ++ replicate (suc n) 0) (drop (suc n) field) (omega arith) (
        omega (arith, length-append arg (replicate (suc n) 0), length-replicate {A = ℕ} (suc n) 0)))
    ∙ strlen-take n (suc n) arg (drop (suc n) (strncpy (suc n) arg field)) e

pub length-strncpy :
    (n : ℕ) (arg field : Bytes) → n ≤ length field → length (strncpy n arg field) ≡ length field
unfolding strncpy
length-strncpy n arg field h = omega (
  arith,
  length-append (take n (arg ++ replicate n 0)) (drop n field),
  length-take n (arg ++ replicate n 0),
  length-append arg (replicate n 0),
  length-replicate {A = ℕ} n 0,
  length-drop n field,
)

pub length-terminate_at :
    (n : ℕ) (field : Bytes) → suc n ≤ length field → length (terminate_at n field) ≡ length field
unfolding terminate_at
length-terminate_at n field h = omega (
  arith,
  length-append (take n field) (0 ∷ drop (suc n) field),
  length-take n field,
  length-drop (suc n) field,
)
