-- ===== src/Proxy/Libs.antt =====
-- What the writer proxy uses and does not implement: the HTTP library (urls, builders of responses,
-- the decoder), the digest library and the outcomes of the MinIO client.
use anonym_sharing.Base.{ℕ, String, Bool, List, Option, ℤ, ◌≡◌, ◌<>◌}
use anonym_sharing.Std.Order.{Bytes}
use anonym_sharing.Platform.{HttpString, HeaderText, Headers}

-- HttpUrl and UrlBuilder. `no_url` is the default value, whose port is -1; `query` appends encoded
-- query parameters.
pub record UrlLib (U : Type 0) : Type 0 where
  pub no_url : U
  pub parse_url : String → U
  pub host : U → String
  pub port : U → ℤ
  pub query : U → List (String × String) → U

-- ResponseBuilder and Response. The methods of a builder change it and return it; `of_response` is
-- the builder that starts from a response.
pub record HttpLib (B R : Type 0) : Type 0 where
  pub code : ℕ → B → B
  pub message : String → B → B
  pub protocol : HttpString → B → B
  pub headers : Headers → B → B
  pub append_body : String → B → B
  pub build : B → R
  pub of_response : R → B
  pub is_successful : R → Bool
  pub body : R → String
  pub set_header : HeaderText → HeaderText → Headers → Headers

-- What the library documents of the status, the message and the body of a builder.
pub record HttpLaws (B R : Type 0) (http : HttpLib B R) : Type 0 where
  pub status : R → ℕ
  pub status_of : B → ℕ
  pub body_of : B → String
  pub status-build : (b : B) → status (http.build b) ≡ status_of b
  pub body-build : (b : B) → http.body (http.build b) ≡ body_of b
  pub status-code : (n : ℕ) (b : B) → status_of (http.code n b) ≡ n
  pub status-message : (m : String) (b : B) → status_of (http.message m b) ≡ status_of b
  pub status-append_body : (t : String) (b : B) → status_of (http.append_body t b) ≡ status_of b
  pub status-of_response : (r : R) → status_of (http.of_response r) ≡ status r
  pub body-code : (n : ℕ) (b : B) → body_of (http.code n b) ≡ body_of b
  pub body-message : (m : String) (b : B) → body_of (http.message m b) ≡ body_of b
  pub body-append_body : (t : String) (b : B) → body_of (http.append_body t b) ≡ body_of b <> t
  pub body-protocol : (p : HttpString) (b : B) → body_of (http.protocol p b) ≡ body_of b
  pub body-headers : (h : Headers) (b : B) → body_of (http.headers h b) ≡ body_of b
  pub body-of_response : (r : R) → body_of (http.of_response r) ≡ http.body r

-- A request as a RequestBuilder has it when it is built, in the order in which headers were given.
pub record OutRequest (U : Type 0) : Type 0 where
  pub method : String
  pub url : U
  pub protocol : HttpString
  pub headers : List (HeaderText × String)
  pub body : String

-- Http1Decoder for responses: `get_response` gives a response once it is complete.
pub record ResponseDecoder (D R : Type 0) : Type 0 where
  pub new_decoder : D
  pub add_chunk : D → Bytes → D
  pub get_response : D → Option R

-- `split` of the common HTTP helpers, Digest::base64_encode, and Request::toString().
pub record TextLib (U : Type 0) : Type 0 where
  pub split : String → String → List String
  pub base64_encode : String → String
  pub wire : OutRequest U → Bytes

-- How a call of MinioClient::forwardObject ends: it stores the object, or throws an
-- ErrorResponseException (NO_SUCH_BUCKET or another code), another std::exception, or a value that
-- is no std::exception.
pub data Upload : Type 0 where
  stored no_such_bucket other_error foreign : Upload
  failure : String → Upload

-- The outcomes of the calls of the MinIO client, by the number of calls before.
pub record Minio : Type 0 where
  pub forward_object : ℕ → Upload
  pub makes_bucket : ℕ → Bool

-- A TLS peer: whether it accepts the connection, what `send` returns, and the results of `recv` in
-- order: a chunk, or `none` for a negative length. A list that ends is a peer that stays silent.
pub record Peer : Type 0 where
  pub connects : Bool
  pub sent : ℤ
  pub receives : List (Option Bytes)

-- What a server answers to a connection at a host and a port and to the bytes of one request.
pub record Network : Type 0 where
  pub exchange : String → ℤ → Bytes → Peer
