-- ===== src/Options.antt =====
-- The command line of the writer proxy: anonymBE/src/writeproxy.cpp, writeproxy_args.h, and the
-- terminators that `ecall_init` of ecalls_writeproxy.cpp writes. A char array is the list of its
-- bytes; std::stoi is a parameter, and argp ends the process at an option that is not accepted.
pub mod Documented
pub mod Monitor
pub mod Terminated
use anonym_sharing.Base.{
  ℕ, suc, ◌==◌, ◌+◌, ◌-◌, ◌^◌, String, Bool, true, false, List, [], ◌∷◌, ◌++◌, Option, none, some,
  Result, ok, raise, ℤ, pos, negsuc, take, drop, replicate, if◌then◌else◌, str_eq,
}
use anonym_sharing.Std.Order.{Bytes}
use anonym_sharing.Std.CString.{strncpy}

pub data Field : Type 0 where
  minioendpoint miniosecret minioaccesskey tokenuser tokenpass tokenendpoint amendpoint : Field

-- struct Arguments
pub record RawArguments : Type 0 where
  pub port : ℕ
  pub fields : Field → Bytes

-- The last byte of an array of 100.
abbrev pub last_index : ℕ
last_index = 99

abbrev index : Field → ℕ
index minioendpoint = 0
index miniosecret = 1
index minioaccesskey = 2
index tokenuser = 3
index tokenpass = 4
index tokenendpoint = 5
index amendpoint = 6

abbrev pub set_field : Field → Bytes → (Field → Bytes) → Field → Bytes
set_field f bytes fields g = if index g == index f then bytes else fields g

-- memset(field, 0, sizeof(field))
unfoldable pub init_args : RawArguments
init_args = record { port = 4445; fields = λ f. replicate (suc last_index) 0 }

-- The options other than the port.
unfoldable pub field_of : String → Option Field
field_of key =
    if str_eq key "m"
    then some minioendpoint
    else if str_eq key "a"
    then some minioaccesskey
    else if str_eq key "k"
    then some miniosecret
    else if str_eq key "u"
    then some tokenuser
    else if str_eq key "w"
    then some tokenpass
    else if str_eq key "t"
    then some tokenendpoint
    else if str_eq key "e"
    then some amendpoint
    else none

-- 0 or ARGP_ERR_UNKNOWN
pub data Parsed : Type 0 where
  accepted unknown_key : Parsed

-- An int as a size_t.
abbrev pub size_of : ℤ → ℕ
size_of (pos n) = n
size_of (negsuc n) = 2 ^ 64 - suc n

unfoldable pub set_port : Result ℤ → RawArguments → Result Parsed × RawArguments
set_port (ok port) args = (ok accepted, record args { port = size_of port })
set_port (raise e) args = (raise e, args)

unfoldable pub set_option : Option Field → Bytes → RawArguments → Result Parsed × RawArguments
unfolding strncpy
set_option none arg args = (ok unknown_key, args)
set_option (some f) arg args = (
  ok accepted,
  record args { fields = set_field f (strncpy last_index arg (args.fields f)) args.fields },
)

unfoldable pub parse_opt :
    (Bytes → Result ℤ) → String → Bytes → RawArguments → Result Parsed × RawArguments
unfolding set_port set_option field_of
parse_opt stoi key arg args =
    if str_eq key "p" then set_port (stoi arg) args else set_option (field_of key) arg args

-- The options of a command line, in order; `none` is a process that has ended.
unfoldable pub parse_all :
    (Bytes → Result ℤ) → List (String × Bytes) → RawArguments → Option RawArguments
unfolding parse_opt
parse_all stoi [] args = some args
parse_all stoi ((key, arg) ∷ options) args =
    let (r, args') = parse_opt stoi key arg args in
    elim r [ ok accepted ↦ parse_all stoi options args' | _ ↦ none ]

-- field[sizeof(field) - 1] = '\0'
unfoldable pub terminate : Bytes → Bytes
terminate field = take last_index field ++ 0 ∷ drop (suc last_index) field

-- The arguments that the enclave's `init` is given.
unfoldable pub ecall_init_args : RawArguments → RawArguments
unfolding terminate
ecall_init_args args = record args { fields = λ f. terminate (args.fields f) }
