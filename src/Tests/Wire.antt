-- ===== src/Tests/Wire.antt =====
-- A wire form of requests that can be read back: each text as its characters and an end.
use Prim.Native.Char.{Char, char, code, IsLt, nul}
use Prim.Native.Nat.{Ordering, compare}
use anonym_sharing.Base.{
  ℕ, zero, suc, ◌≡◌, refl, sym, ap, ◌∙◌, String, true, false, Bool, [], ◌∷◌, ◌++◌, ok, str_eq,
  if◌then◌else◌,
}
use mathlib.Core.List.{append-nil}
use anonym_sharing.Std.Order.{Bytes}
use anonym_sharing.Platform.{Request}
use anonym_sharing.Profile.{ReadyDecoder, RequestLib}
use anonym_sharing.Profile.Effects.{WireLaws}

abbrev BothLt : Ordering → Ordering → Type 0
BothLt Ordering.lt o = IsLt o
BothLt Ordering.eq _ = ⊥
BothLt Ordering.gt _ = ⊥

abbrev IsScalarOrder : Ordering → Ordering → Ordering → Type 0
IsScalarOrder Ordering.lt _ _ = Unit
IsScalarOrder Ordering.eq o p = BothLt o p
IsScalarOrder Ordering.gt o p = BothLt o p

abbrev inside : (o p : Ordering) → (BothLt o p → Char) → Char
inside Ordering.lt Ordering.lt f = f tt
inside _ _ f = nul

abbrev from_orders : (o p q : Ordering) → (IsScalarOrder o p q → Char) → Char
from_orders Ordering.lt p q f = f tt
from_orders Ordering.eq p q f = inside p q f
from_orders Ordering.gt p q f = inside p q f

inside_at : (o p : Ordering) (f : BothLt o p → Char) (x : BothLt o p) → inside o p f ≡ f x
inside_at Ordering.lt Ordering.lt f x = refl
inside_at Ordering.lt Ordering.eq f x = absurd x
inside_at Ordering.lt Ordering.gt f x = absurd x
inside_at Ordering.eq p f x = absurd x
inside_at Ordering.gt p f x = absurd x

from_orders_at :
    (o p q : Ordering) (f : IsScalarOrder o p q → Char) (x : IsScalarOrder o p q)
    → from_orders o p q f ≡ f x
from_orders_at Ordering.lt p q f x = refl
from_orders_at Ordering.eq p q f x = inside_at p q f x
from_orders_at Ordering.gt p q f x = inside_at p q f x

abbrev to_char : ℕ → Char
to_char n = from_orders (compare n 55296) (compare 57343 n) (compare n 1114112) (char n)

to_char-code : (c : Char) → to_char (code c) ≡ c
to_char-code (char n x) =
    from_orders_at (compare n 55296) (compare 57343 n) (compare n 1114112) (char n) x

pub encode : String → Bytes
encode String.[] = 0 ∷ []
encode (String.◌∷◌ c s) = suc (code c) ∷ encode s

pub decode : Bytes → String × Bytes
decode [] = ("", [])
decode (zero ∷ bs) = ("", bs)
decode (suc n ∷ bs) = let (s, rest) = decode bs in (String.◌∷◌ (to_char n) s, rest)

decode-encode : (s : String) (rest : Bytes) → decode (encode s ++ rest) ≡ (s, rest)
unfolding encode decode
decode-encode String.[] rest = refl
decode-encode (String.◌∷◌ c s) rest = rw (decode-encode s rest) (rw (to_char-code c))

abbrev paths : String → String
paths url =
    if str_eq url "https://localhost/access/user"
    then "/access/user"
    else if str_eq url "https://localhost/access/group"
    then "/access/group"
    else if str_eq url "https://localhost/access/usergroup"
    then "/access/usergroup"
    else "/verifier/envelope"

unfoldable pub wires : RequestLib
wires = record {
  wire = λ r. encode r.method ++ (encode r.path ++ encode r.body);
  encoded_path = paths;
}

abbrev is_ready : Bytes → Bool
is_ready [] = false
is_ready (b ∷ bs) = true

abbrev with_body : String → String → String × Bytes → Request × Bytes
with_body method path (body, rest) = (record { method = method; path = path; body = body }, rest)

abbrev with_path : String → String × Bytes → Request × Bytes
with_path method (path, rest) = with_body method path (decode rest)

abbrev with_method : String × Bytes → Request × Bytes
with_method (method, rest) = with_path method (decode rest)

abbrev take_texts : Bytes → Request × Bytes
take_texts d = with_method (decode d)

unfoldable pub ready_decoder : ReadyDecoder Bytes
ready_decoder = record {
  new_decoder = [];
  add_chunk = λ c d. (ok tt, d ++ c);
  request_ready = is_ready;
  take_request = take_texts;
}

begins : (s : String) (rest : Bytes) → is_ready (encode s ++ rest) ≡ true
unfolding encode
begins String.[] rest = refl
begins (String.◌∷◌ c s) rest = refl

take_texts-wire :
    (r : Request) → take_texts (encode r.method ++ (encode r.path ++ encode r.body)) ≡ (r, [])
take_texts-wire r =
    ap with_method (decode-encode r.method (encode r.path ++ encode r.body))
    ∙ ap (with_path r.method) (decode-encode r.path (encode r.body))
    ∙ ap (with_body r.method r.path)
        (ap decode (sym (append-nil (encode r.body))) ∙ decode-encode r.body [])

pub wires_laws : WireLaws ready_decoder wires
unfolding wires ready_decoder
wires_laws = record {
  not_ready = refl;
  delivers = λ r. (
    encode r.method ++ (encode r.path ++ encode r.body),
    refl,
    begins r.method (encode r.path ++ encode r.body),
    take_texts-wire r,
  );
}
