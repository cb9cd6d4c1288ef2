-- ===== src/Options/Monitor.antt =====
-- The command line of the access monitor: anonymBE/src/anonymbe.cpp and anonymbe_args.h. Here strncpy
-- is given the whole size of the array, and `ecall_init` writes no terminator.
use anonym_sharing.Base.{
  ℕ, zero, suc, ◌≤◌, ◌++◌, ◌≡◌, refl, ap, ◌∙◌, arith, String, Bool, false, [], ◌∷◌, Result, ok,
  raise, ℤ, length, take, drop, replicate, ltb, if◌then◌else◌, str_eq,
}
use mathlib.Core.List.{append-nil}
use anonym_sharing.Std.Order.{Bytes}
use anonym_sharing.Std.CString.{strncpy, has_nul}
use anonym_sharing.Options.{Parsed, accepted, unknown_key, size_of}

-- struct Arguments
pub record MonitorArguments : Type 0 where
  pub port : ℕ
  pub indexed : ℕ
  pub mongo : Bytes

-- sizeof(args->mongo)
abbrev pub mongo_size : ℕ
mongo_size = 1024

-- `server` is the default address, and `garbage` what the array holds before.
unfoldable pub init_monitor_args : Bytes → Bytes → MonitorArguments
unfolding strncpy
init_monitor_args server garbage = record {
  port = 4444;
  indexed = 1;
  mongo = strncpy mongo_size server garbage;
}

unfoldable pub set_monitor_port : Result ℤ → MonitorArguments → Result Parsed × MonitorArguments
set_monitor_port (ok port) args = (ok accepted, record args { port = size_of port })
set_monitor_port (raise e) args = (raise e, args)

-- `is_false` is the comparison of the argument with "false".
unfoldable pub parse_monitor_opt :
    (Bytes → Result ℤ)
    → (Bytes → Bool)
    → String
    → Bytes
    → MonitorArguments
    → Result Parsed × MonitorArguments
unfolding set_monitor_port strncpy
parse_monitor_opt stoi is_false key arg args =
    if str_eq key "p"
    then set_monitor_port (stoi arg) args
    else if str_eq key "m"
    then (ok accepted, record args { mongo = strncpy mongo_size arg args.mongo })
    else if str_eq key "i"
    then (ok accepted, record args { indexed = if is_false arg then 0 else args.indexed })
    else (ok unknown_key, args)

has_nul-take :
    (n m : ℕ) (arg : Bytes)
    → n ≤ m
    → has_nul arg ≡ false
    → has_nul (take n (arg ++ replicate m 0)) ≡ ltb (length arg) n
has_nul-take zero m arg h e = ground arith
has_nul-take (suc n) zero arg h e = absurd (omega arith)
has_nul-take (suc n) (suc m) [] h e = ground arith
has_nul-take (suc n) (suc m) (a ∷ arg) h e =
    ground (arith, has_nul-take n (suc m) arg (omega arith))

drop_whole : (n : ℕ) (xs : Bytes) → length xs ≡ n → drop n xs ≡ []
drop_whole zero [] h = refl
drop_whole zero (x ∷ xs) h = absurd (omega arith)
drop_whole (suc n) [] h = refl
drop_whole (suc n) (x ∷ xs) h = drop_whole n xs (omega arith)

has_nul-strncpy :
    (n : ℕ) (arg field : Bytes)
    → length field ≡ n
    → has_nul arg ≡ false
    → has_nul (strncpy n arg field) ≡ ltb (length arg) n
unfolding strncpy
has_nul-strncpy n arg field h e =
    ap (λ x. has_nul (take n (arg ++ replicate n 0) ++ x)) (drop_whole n field h)
    ∙ ap has_nul (append-nil (take n (arg ++ replicate n 0)))
    ∙ has_nul-take n n arg (omega arith) e

-- After the option of the database's address, the array is a C string exactly if the argument is
-- shorter than the array; an argument of 1024 bytes or more leaves no terminator in it. (The array
-- has its 1024 bytes, and the argument no byte zero.)
pub has_nul-mongo :
    (stoi : Bytes → Result ℤ) (is_false : Bytes → Bool) (arg : Bytes) (args : MonitorArguments)
    → length args.mongo ≡ mongo_size
    → has_nul arg ≡ false
    → has_nul (parse_monitor_opt stoi is_false "m" arg args).1.mongo ≡ ltb (length arg) mongo_size
unfolding parse_monitor_opt
has_nul-mongo stoi is_false arg args h e = has_nul-strncpy mongo_size arg args.mongo h e
