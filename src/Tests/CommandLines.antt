-- ===== src/Tests/CommandLines.antt =====
-- The theorems on the command lines, for a port, an endpoint and an access key.
use anonym_sharing.Base.{
  ℕ, false, ltb, length-replicate, ◌≡◌, refl, String, List, [], ◌∷◌, Result, ok, ℤ, pos, length,
  replicate,
}
use anonym_sharing.Std.Order.{Bytes}
use anonym_sharing.Std.CString.{has_nul}
use anonym_sharing.Options.{
  Field, minioendpoint, minioaccesskey, RawArguments, last_index, set_field, init_args, parse_all,
  ecall_init_args,
}
use anonym_sharing.Options.Monitor.{MonitorArguments, mongo_size, parse_monitor_opt, has_nul-mongo}
use anonym_sharing.Options.Terminated.{IsTerminated, parse_all-IsTerminated}

abbrev stoi : Bytes → Result ℤ
stoi arg = ok (pos (length arg))

abbrev options : List (String × Bytes)
options = ("p", 52 ∷ 52 ∷ []) ∷ ("m", 104 ∷ 58 ∷ 57 ∷ []) ∷ ("a", 65 ∷ []) ∷ []

abbrev arguments : RawArguments
arguments = record {
  port = 2;
  fields =
      set_field minioaccesskey (65 ∷ replicate 99 0)
        (set_field minioendpoint (104 ∷ 58 ∷ 57 ∷ replicate 97 0) (λ f. replicate 100 0));
}

parse_all-IsTerminated_example :
    ((f : Field) → IsTerminated last_index (arguments.fields f))
    × (ecall_init_args arguments ≡ arguments)
unfolding parse_all init_args
parse_all-IsTerminated_example = parse_all-IsTerminated stoi options arguments refl

abbrev monitor_arguments : MonitorArguments
monitor_arguments = record { port = 4444; indexed = 1; mongo = replicate 1024 0 }

-- An address of 1024 letters.
abbrev long : Bytes
long = replicate 1024 65

has_nul-mongo_example :
    has_nul (parse_monitor_opt stoi (λ arg. false) "m" long monitor_arguments).1.mongo
    ≡ ltb (length long) mongo_size
has_nul-mongo_example =
    has_nul-mongo stoi (λ arg. false) long monitor_arguments (length-replicate {A = ℕ} 1024 0) refl
