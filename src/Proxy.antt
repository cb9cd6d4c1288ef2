-- ===== src/Proxy.antt =====
-- anonymBE/src/enclave/writerproxy_service.h and writerproxy_service.cpp: the writer proxy. It
-- forwards uploads to MinIO and fetches temporary credentials from the identity server and from
-- MinIO. What other servers answer is an argument; what is asked of them is a log.
pub mod Libs
pub mod Forward
pub mod Token
pub mod Server
pub mod Uploads
pub mod Exchange
pub mod Replies
pub mod Credentials
pub mod Start
pub mod Kept
pub mod Memory
pub mod Answers
use package.text.Mathlib.Text.{starts_with}
use anonym_sharing.Base.{
  ℕ, zero, suc, String, Bool, true, false, List, [], ◌∷◌, ◌++◌, none, some, Option, ℤ, pos, negsuc,
  Result, ok, raise, unknown, if◌then◌else◌, str_eq, ◌<>◌, ◌||◌, not, ◌&&◌,
}
use anonym_sharing.Std.Text.{to_string}
use anonym_sharing.Platform.{
  Request, Headers, HeaderText, constant, text, http11, connection, keepalive,
}
use anonym_sharing.Tls.{Tls}
use anonym_sharing.Tls
use anonym_sharing.Proxy.Libs.{
  UrlLib, HttpLib, OutRequest, TextLib, Upload, stored, no_such_bucket, other_error, foreign,
  failure, Minio,
}

-- struct Arguments: each array as the text up to its NUL.
pub record Arguments : Type 0 where
  pub minioendpoint : String
  pub miniosecret : String
  pub minioaccesskey : String
  pub tokenuser : String
  pub tokenpass : String
  pub tokenendpoint : String
  pub amendpoint : String

-- What the proxy asks of the access monitor and of MinIO.
pub data Event : Type 0 where
  pings : String → Event
  forwards : Request → Event
  makes_bucket : String → Event

-- `client` is the endpoint, the access key and the secret of the MinIO client, if there is one;
-- `uploads` and `makes` count its calls.
pub record WriterProxy (B U : Type 0) : Type 0 where
  pub tuser_ : String
  pub tpass_ : String
  pub isendpoint_ : U
  pub minioendpoint_ : U
  pub amendpoint_ : U
  pub client : Option (String × String × String)
  pub header_builder : Headers
  pub response_builder : B
  pub uploads : ℕ
  pub makes : ℕ
  pub log : List Event

-- std::to_string(int)
unfoldable pub int_to_string : ℤ → String
int_to_string (pos n) = to_string n
int_to_string (negsuc n) = "-" <> to_string (suc n)

-- port() > 0
abbrev pub is_positive : ℤ → Bool
is_positive (pos zero) = false
is_positive (pos (suc n)) = true
is_positive (negsuc n) = false

-- How `init` ends: it returns a code, or the process exits.
pub data Started : Type 0 where
  returned : ℤ → Started
  exited : ℕ → Started

abbrev pub is_empty : String → Bool
is_empty s = str_eq s ""

-- std::string::operator!= on Booleans
abbrev pub differ : Bool → Bool → Bool
differ true b = not b
differ false b = b

-- The three tests of `init`: a parameter of MinIO is missing, an endpoint names a protocol, the
-- parameters of the identity server are given in part.
unfoldable pub is_missing : Arguments → Bool
is_missing args =
    is_empty args.minioendpoint || is_empty args.minioaccesskey || is_empty args.miniosecret

unfoldable pub names_protocol : Arguments → Bool
names_protocol args =
    starts_with args.minioendpoint "http"
    || starts_with args.amendpoint "http"
    || starts_with args.tokenendpoint "http"

unfoldable pub is_partial : Arguments → Bool
is_partial args =
    differ (is_empty args.tokenendpoint) (is_empty args.tokenuser)
    || differ (is_empty args.tokenendpoint) (is_empty args.tokenpass)

module _ {B U R : Type 0} (http : HttpLib B R) (urls : UrlLib U) where
  open http use {code, message, protocol, headers, build, set_header}
  open urls use {no_url, parse_url, host, port}

  -- The constructor; `builder` is a new ResponseBuilder.
  unfoldable pub construct : B → WriterProxy B U
  construct builder = record {
    tuser_ = "";
    tpass_ = "";
    isendpoint_ = no_url;
    minioendpoint_ = no_url;
    amendpoint_ = no_url;
    client = none;
    header_builder = [];
    response_builder = builder;
    uploads = 0;
    makes = 0;
    log = [];
  }

  -- finish(): the client is deleted, and the TLS connections are closed.
  unfoldable pub finish : WriterProxy B U → Tls → WriterProxy B U × Tls
  finish s tls = (record s { client = none }, Tls.finish tls)

  -- The end of `init`; `creates` says whether the constructor of MinioClient returns.
  unfoldable pub start_client :
      Bool → Arguments → WriterProxy B U → Tls → Started × WriterProxy B U × Tls
  start_client creates args s tls =
      let hs =
        set_header (text "Server") (text "A-SKY WriterProxy")
          (set_header (constant connection) (constant keepalive) s.header_builder) in
      let endpoint = "https://" <> args.minioendpoint in
      let s' = record s {
        header_builder = hs;
        response_builder = headers hs (protocol http11 s.response_builder);
        minioendpoint_ = parse_url endpoint;
      } in
      if creates
      then (
        returned (pos 0),
        record s' { client = some (endpoint, args.minioaccesskey, args.miniosecret) },
        Tls.init tls,
      )
      else (exited 2, s', Tls.init tls)

  -- The connection to the access monitor, if one is configured; `connects` says whether a peer
  -- accepts a connection.
  unfoldable pub connect_monitor :
      (String → ℤ → Bool)
      → Bool
      → Arguments
      → WriterProxy B U
      → Tls
      → Started × WriterProxy B U × Tls
  unfolding start_client
  connect_monitor connects creates args s tls =
      if is_empty args.amendpoint
      then start_client creates args s tls
      else (let url = parse_url ("https://" <> args.amendpoint) in
          let s' = record s { amendpoint_ = url } in
          if connects (host url) (port url)
          then start_client creates args s' tls
          else (exited 1, s', tls))

  unfoldable pub init :
      (String → ℤ → Bool)
      → Bool
      → Arguments
      → WriterProxy B U
      → Tls
      → Started × WriterProxy B U × Tls
  init connects creates args s tls =
      if is_missing args
      then (returned (negsuc 0), s, tls)
      else (let s' = record s { tuser_ = args.tokenuser; tpass_ = args.tokenpass } in
          if names_protocol args
          then (returned (negsuc 1), s', tls)
          else if is_partial args
          then (returned (negsuc 2), s', tls)
          else if is_empty args.tokenendpoint
          then connect_monitor connects creates args s' tls
          else connect_monitor connects creates args
              (record s' { isendpoint_ = parse_url ("https://" <> args.tokenendpoint) }) tls)
