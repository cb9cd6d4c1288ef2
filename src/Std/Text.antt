-- ===== src/Std/Text.antt =====
-- Pieces of `std::string`: `resize` on bytes, and `std::to_string` on numbers.
use Prim.Native.Char.{code}
use anonym_sharing.Base.{
  ◌==◌, ℕ, zero, suc, ◌-◌, ◌/◌, ◌%◌, ◌≡◌, refl, String, ◌<>◌, ◌++◌, arith, ltb, if◌then◌else◌, take,
  replicate, length, length-append, length-take, length-replicate,
}
use anonym_sharing.Std.Order.{Bytes}

-- s.resize(n, 0)
unfoldable pub resize : ℕ → Bytes → Bytes
resize n s = take n s ++ replicate (n - length s) 0

pub length-resize : (n : ℕ) (s : Bytes) → length (resize n s) ≡ n
unfolding resize
length-resize n s = omega (
  arith,
  length-append (take n s) (replicate (n - length s) 0),
  length-take n s,
  length-replicate {A = ℕ} (n - length s) 0,
)

-- The text that `std::string(s.c_str())` has: up to the first NUL.
unfoldable pub c_str : String → String
c_str String.[] = ""
c_str (String.◌∷◌ c s) = let rest = c_str s in if code c == 0 then "" else String.◌∷◌ c rest

abbrev pub digit : ℕ → String
digit zero = "0"
digit (suc zero) = "1"
digit (suc (suc zero)) = "2"
digit (suc (suc (suc zero))) = "3"
digit (suc (suc (suc (suc zero)))) = "4"
digit (suc (suc (suc (suc (suc zero))))) = "5"
digit (suc (suc (suc (suc (suc (suc zero)))))) = "6"
digit (suc (suc (suc (suc (suc (suc (suc zero))))))) = "7"
digit (suc (suc (suc (suc (suc (suc (suc (suc zero)))))))) = "8"
digit _ = "9"

-- The fuel bounds the number of digits; a number is larger than its number of digits.
digits : ℕ → ℕ → String
digits zero n = ""
digits (suc fuel) n =
    let front = digits fuel (n / 10) in if ltb n 10 then digit n else front <> digit (n % 10)

-- std::to_string
unfoldable pub to_string : ℕ → String
unfolding digits
to_string n = digits (suc n) n

to_string_test : to_string 10405 ≡ "10405"
unfolding to_string
to_string_test = refl
