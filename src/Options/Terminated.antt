-- ===== src/Options/Terminated.antt =====
-- Every char array that a command line of the writer proxy leaves is a C string.
use anonym_sharing.Base.{
  ℕ, suc, ◌≡◌, refl, sym, ap, ◌∙◌, subst, arith, String, List, [], ◌∷◌, ◌++◌, Option, none, some,
  Result, ok, raise, ℤ, length, take, drop, replicate, length-take, length-append, length-replicate,
  take-append, drop-append, if_ind, str_eq,
}
use mathlib.Core.List.{append-nil}
use anonym_sharing.Std.Order.{Bytes}
use anonym_sharing.Std.CString.{strncpy}
use anonym_sharing.Options.{
  Field, RawArguments, last_index, init_args, field_of, Parsed, accepted, unknown_key, set_port,
  set_option, parse_opt, parse_all, terminate, ecall_init_args,
}

-- An array of n + 1 bytes with a terminator at its end.
abbrev pub IsTerminated : ℕ → Bytes → Type 0
IsTerminated n field = (xs : Bytes) × (length xs ≡ n) × (field ≡ xs ++ 0 ∷ [])

zeros-IsTerminated : (n : ℕ) → IsTerminated n (replicate (suc n) 0)
zeros-IsTerminated n = (replicate {A = ℕ} n 0, length-replicate {A = ℕ} n 0, shift n)
  where
    shift : (n : ℕ) → replicate {A = ℕ} (suc n) 0 ≡ replicate n 0 ++ 0 ∷ []
    shift Prim.Native.Nat.zero = refl
    shift (suc n) = ap (λ x. 0 ∷ x) (shift n)

strncpy-IsTerminated :
    (n : ℕ) (arg field : Bytes) → IsTerminated n field → IsTerminated n (strncpy n arg field)
unfolding strncpy
strncpy-IsTerminated n arg field (xs, l, e) = (
  take n (arg ++ replicate n 0),
  omega (
    arith,
    length-take n (arg ++ replicate n 0),
    length-append arg (replicate n 0),
    length-replicate {A = ℕ} n 0,
  ),
  ap (λ x. take n (arg ++ replicate n 0) ++ x) (ap (drop n) e ∙ drop-append xs (0 ∷ []) n l),
)

terminate_lem :
    (n : ℕ) (field : Bytes) → IsTerminated n field → take n field ++ 0 ∷ drop (suc n) field ≡ field
terminate_lem n field (xs, l, e) =
    subst (λ x. take n x ++ 0 ∷ drop (suc n) x ≡ x) (sym e)
      (ap (λ x. x ++ 0 ∷ drop (suc n) (xs ++ 0 ∷ [])) (take-append xs (0 ∷ []) n l)
        ∙ ap (λ x. xs ++ 0 ∷ x) nothing)
  where
    nothing : drop (suc n) (xs ++ 0 ∷ []) ≡ []
    nothing =
        ap (drop (suc n)) (sym (append-nil (xs ++ 0 ∷ [])))
        ∙ drop-append (xs ++ 0 ∷ []) [] (suc n) (omega (arith, length-append xs (0 ∷ []), l))

abbrev AllTerminated : RawArguments → Type 0
AllTerminated args = (f : Field) → IsTerminated last_index (args.fields f)

set_port-AllTerminated :
    (r : Result ℤ) (args : RawArguments) → AllTerminated args → AllTerminated (set_port r args).1
unfolding set_port
set_port-AllTerminated (ok port) args v = v
set_port-AllTerminated (raise e) args v = v

set_option-AllTerminated :
    (o : Option Field) (arg : Bytes) (args : RawArguments)
    → AllTerminated args
    → AllTerminated (set_option o arg args).1
unfolding set_option
set_option-AllTerminated none arg args v = v
set_option-AllTerminated (some f) arg args v = λ g.
    if_ind (IsTerminated last_index) _ (strncpy-IsTerminated last_index arg (args.fields f) (v f))
      (v g)

parse_opt-AllTerminated :
    (stoi : Bytes → Result ℤ) (key : String) (arg : Bytes) (args : RawArguments)
    → AllTerminated args
    → AllTerminated (parse_opt stoi key arg args).1
unfolding parse_opt
parse_opt-AllTerminated stoi key arg args v =
    if_ind (λ (x : Result Parsed × RawArguments). AllTerminated x.1) (str_eq key "p")
      (set_port-AllTerminated (stoi arg) args v)
      (set_option-AllTerminated (field_of key) arg args v)

abbrev Holds : {A : Type 0} → (A → Type 0) → Option A → Type 0
Holds P none = Unit
Holds P (some a) = P a

parse_all-AllTerminated :
    (stoi : Bytes → Result ℤ) (options : List (String × Bytes)) (args : RawArguments)
    → AllTerminated args
    → Holds AllTerminated (parse_all stoi options args)
unfolding parse_all
parse_all-AllTerminated stoi [] args v = v
parse_all-AllTerminated stoi ((key, arg) ∷ options) args v =
    ends (parse_opt stoi key arg args).0 (parse_all stoi options (parse_opt stoi key arg args).1) (
      parse_all-AllTerminated stoi options (parse_opt stoi key arg args).1
        (parse_opt-AllTerminated stoi key arg args v))
  where
    ends :
        (r : Result Parsed) (o : Option RawArguments)
        → Holds AllTerminated o
        → Holds AllTerminated (elim r [ ok accepted ↦ o | _ ↦ none ])
    ends (ok accepted) o h = h
    ends (ok unknown_key) o h = tt
    ends (raise e) o h = tt

-- Whatever the options of a command line, however long their arguments: if the process goes on, each
-- array is a C string that keeps its size of 100 bytes, and the terminators that `ecall_init` writes
-- change nothing.
pub parse_all-IsTerminated :
    (stoi : Bytes → Result ℤ) (options : List (String × Bytes)) (args : RawArguments)
    → parse_all stoi options init_args ≡ some args
    → ((f : Field) → IsTerminated last_index (args.fields f)) × (ecall_init_args args ≡ args)
unfolding init_args ecall_init_args terminate
parse_all-IsTerminated stoi options args e =
    let v : AllTerminated args =
      subst (Holds AllTerminated) e
        (parse_all-AllTerminated stoi options init_args (λ f. zeros-IsTerminated last_index)) in
    (
      v,
      λ i. record {
        port = args.port;
        fields = λ f. terminate_lem last_index (args.fields f) (v f) i;
      },
    )
