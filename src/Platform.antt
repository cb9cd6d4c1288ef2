-- ===== src/Platform.antt =====
-- What the servers use and do not implement, as records of operations: the JSON library
-- (nlohmann, anonymBE/src/json), the cryptographic library and the HTTP types.
use anonym_sharing.Base.{List, ℕ, ℤ, String, Result}
use anonym_sharing.Std.Order.{Bytes}
use anonym_sharing.Std.Map.{Map}

-- typedef std::map<std::string, std::string> KVString
abbrev pub KvString : Type 0
KvString = Map String String

-- `parse` may throw a `parse_error`; `json_str` is `.at(field).get<std::string>()`, and may throw
-- an `out_of_range` for a missing field or a `type_error`; `dump` prints an object of texts.
pub record JsonLib (J : Type 0) : Type 0 where
  pub parse : String → Result J
  pub json_str : J → String → Result String
  pub json_int : J → String → Result ℤ
  pub dump : KvString → Result String

-- Each draw of randomness has an index, the number of draws before it.
-- `get_rand n d` are the `n` bytes of draw `d`; an encryption draws its own nonce.
pub record Crypto : Type 0 where
  pub b64_encode : Bytes → String
  pub b64_decode : String → Result Bytes
  pub sha224 : Bytes → Bytes
  pub get_rand : ℕ → ℕ → Bytes
  pub encrypt_aesgcm : Bytes → Bytes → ℕ → Bytes

-- What the handlers read of a request: `method()`, `url().encodedPath()` and `stringBody()`.
pub record Request : Type 0 where
  pub method : String
  pub path : String
  pub body : String

-- The constants of `HttpStrings`, whose texts are the HTTP library's, and the texts of headers.
pub data HttpString : Type 0 where
  http11 connection keepalive contenttype auth : HttpString

pub data HeaderText : Type 0 where
  constant : HttpString → HeaderText
  text : String → HeaderText

abbrev pub Headers : Type 0
Headers = List (HeaderText × HeaderText)

-- Protocol, code, message, headers and body, and the response of the default constructor.
pub data Response : Type 0 where
  response : HttpString → ℕ → String → Headers → String → Response
  default_response : Response
