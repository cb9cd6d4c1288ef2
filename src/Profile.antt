-- ===== src/Profile.antt =====
-- anonymBE/src/enclave/profile.cpp: a driver that makes users, a group with all of them and an
-- envelope, through `process_input` of the access monitor with the in-memory database. It uses the
-- decoder in another form than the enclaves do, and prints where they send.
pub mod Effects
pub mod Filled
pub mod Outcome
pub mod Requests
use anonym_sharing.Base.{
  ℕ, zero, suc, ◌-◌, String, ◌<>◌, Bool, true, false, List, [], ◌∷◌, ◌++◌, Option, none, some,
  Result, ok, raise, if◌then◌else◌,
}
use anonym_sharing.Std.Order.{Bytes}
use anonym_sharing.Std.Text.{to_string}
use anonym_sharing.Platform.{JsonLib, Crypto, Request, Response}
use anonym_sharing.Service.{AnonymBe, construct, init}
use anonym_sharing.Service.Server.{process_input}
use anonym_sharing.Enclave.{RequestDecoder, Served, Handler, request_loop, take_input, text_of}

-- Http1Decoder with `requestReady` and a `getRequest` that returns the request.
pub record ReadyDecoder (D : Type 0) : Type 0 where
  pub new_decoder : D
  pub add_chunk : Bytes → D → Result (Unit {0}) × D
  pub request_ready : D → Bool
  pub take_request : D → Request × D

-- Request::toString() and the path of UrlBuilder::parse.
pub record RequestLib : Type 0 where
  pub wire : Request → Bytes
  pub encoded_path : String → String

-- `p`, and what was printed, oldest first.
pub record MyConnection : Type 0 where
  pub p : Bool
  pub printed : List String

unfoldable pub print_if : String → MyConnection → MyConnection
print_if text conn = if conn.p then record conn { printed = conn.printed ++ text ∷ [] } else conn

-- The access monitor with its count of random draws, and the connection.
abbrev pub Driven : Type 0
Driven = (AnonymBe × ℕ) × MyConnection

-- RequestBuilder: the url and the body are set again for each request.
pub record RequestBuilder : Type 0 where
  pub method : String
  pub url : String
  pub body : String

abbrev pub put : RequestBuilder
put = record { method = "PUT"; url = ""; body = "" }

abbrev pub post : RequestBuilder
post = record { method = "POST"; url = ""; body = "" }

abbrev pub user : ℕ → String
user u = "user" <> to_string u

abbrev pub group : ℕ → String
group g = "group" <> to_string g

-- RequestBody usergroup(int g, int u)
abbrev pub usergroup : ℕ → ℕ → String
usergroup g u = "{\"user_id\": \"" <> user u <> "\",\"group_name\": \"" <> group g <> "\"}"

abbrev pub user_body : ℕ → String
user_body u = "{\"user_id\": \"" <> user u <> "\"}"

abbrev pub envelope_body : ℕ → String → String
envelope_body g key = "{\"group_id\": \"" <> group g <> "\", \"bucket_key\": \"" <> key <> "\" }"

-- r.url(...); r.body(...)
abbrev pub set_url_body : String → String → RequestBuilder → RequestBuilder
set_url_body url body r = record r { url = url; body = body }

module _ (requests : RequestLib) where
  open requests use {wire, encoded_path}

  -- r.build()
  abbrev pub build : RequestBuilder → Request
  build r = record { method = r.method; path = encoded_path r.url; body = r.body }

  -- The text of the request, and the builder after it.
  unfoldable pub make_usergroup_req : RequestBuilder → ℕ → ℕ → Bytes × RequestBuilder
  make_usergroup_req r gid uid =
      let r' = set_url_body "https://localhost/access/usergroup" (usergroup gid uid) r in
      (wire (build r'), r')

  unfoldable pub make_group_req : RequestBuilder → ℕ → ℕ → Bytes × RequestBuilder
  make_group_req r gid uid =
      let r' = set_url_body "https://localhost/access/group" (usergroup gid uid) r in
      (wire (build r'), r')

  unfoldable pub make_user_req : RequestBuilder → ℕ → Bytes × RequestBuilder
  make_user_req r i =
      let r' = set_url_body "https://localhost/access/user" (user_body i) r in (wire (build r'), r')

  unfoldable pub make_envelope_req : RequestBuilder → ℕ → String → Bytes × RequestBuilder
  make_envelope_req r i key =
      let r' = set_url_body "https://localhost/verifier/envelope" (envelope_body i key) r in
      (wire (build r'), r')

-- The loop `while (decoder.requestReady()) { req = decoder.getRequest(); ... }` as the enclaves'.
abbrev pub as_request_decoder : {D : Type 0} → ReadyDecoder D → RequestDecoder D
as_request_decoder decoder = record {
  new_decoder = decoder.new_decoder;
  add_chunk = decoder.add_chunk;
  get_request = λ d. if decoder.request_ready d then some (decoder.take_request d) else none;
}

-- What `main` changes: the connection's decoder, the service with its counter, the two builders.
pub record Driver (D : Type 0) : Type 0 where
  pub decoder : D
  pub served : Served Driven
  pub put_builder : RequestBuilder
  pub post_builder : RequestBuilder

abbrev pub and_then : {A : Type 0} → Option A → (A → Option A) → Option A
and_then none f = none
and_then (some a) f = f a

module _ {J D : Type 0} (json : JsonLib J) (crypto : Crypto) (decoder : ReadyDecoder D)
    (requests : RequestLib) (to_string : Response → String) (fuel : ℕ) where
  -- anonymbe.process_input(req).toString() and conn.send(...)
  unfoldable pub answer_and_print : Handler Driven
  unfolding process_input print_if
  answer_and_print request ((service, draws), conn) =
      let (answer, after, drawn) = process_input json crypto request service draws in
      elim (text_of to_string answer) [
        | ok text ↦ some (ok text, ((after, drawn), print_if text conn))
        | raise e ↦ some (raise e, ((after, drawn), conn))
      ]

  -- doreq, and `process_input` with its handlers, which only print; `fuel` bounds the requests of
  -- one chunk.
  unfoldable pub doreq : Bytes → Driver D → Option (Driver D)
  unfolding take_input answer_and_print
  doreq request s =
      elim (take_input (as_request_decoder decoder) answer_and_print fuel request s.decoder
        s.served) [
          | none ↦ none
          | some (_, d, served) ↦ some (record s { decoder = d; served = served })
        ]

  unfoldable pub do_user : ℕ → Driver D → Option (Driver D)
  unfolding doreq make_user_req
  do_user i s =
      let (request, r) = make_user_req requests s.post_builder i in
      doreq request (record s { post_builder = r })

  unfoldable pub do_group : ℕ → ℕ → Driver D → Option (Driver D)
  unfolding doreq make_group_req
  do_group g i s =
      let (request, r) = make_group_req requests s.post_builder g i in
      doreq request (record s { post_builder = r })

  unfoldable pub do_usergroup : ℕ → ℕ → Driver D → Option (Driver D)
  unfolding doreq make_usergroup_req
  do_usergroup g i s =
      let (request, r) = make_usergroup_req requests s.put_builder g i in
      doreq request (record s { put_builder = r })

  unfoldable pub do_envelope : ℕ → Bytes → Driver D → Option (Driver D)
  unfolding doreq make_envelope_req
  do_envelope g key s =
      let (request, r) = make_envelope_req requests s.post_builder g (crypto.b64_encode key) in
      doreq request (record s { post_builder = r })

  -- conn.print() = p
  abbrev pub set_print : Bool → Driver D → Driver D
  set_print p s = record s {
    served = record (s.served) {
      service = (s.served.service.0, record (s.served.service.1) { p = p });
    };
  }

  -- The loop over i, with the rounds that are left.
  unfoldable pub fill : ℕ → ℕ → Driver D → Option (Driver D)
  unfolding do_user do_usergroup
  fill zero i s = some s
  fill (suc left) i s = and_then (and_then (do_user i s) (do_usergroup 1 i)) (fill left (suc i))

  -- The bucket key of the last request.
  abbrev pub bucket_key : Bytes
  bucket_key = 107 ∷ 108 ∷ 115 ∷ 100 ∷ 102 ∷ 106 ∷ 97 ∷ 195 ∷ 167 ∷ 108 ∷ 118 ∷ 107 ∷ []

  -- At the start of `main`; `garbage` is `args.indexed`, which nothing sets, and `print` the p of
  -- the new connection.
  unfoldable pub started : Bool → ℕ → Bool → Driver D
  unfolding init
  started first garbage print = record {
    decoder = decoder.new_decoder;
    served = record {
      service = (((init garbage (construct first)).1, 0), record { p = print; printed = [] });
      received = 0;
      sent = [];
    };
    put_builder = put;
    post_builder = post;
  }

  -- `main`, with `users` in place of 10000.
  unfoldable pub main : ℕ → Driver D → Option (Driver D)
  unfolding do_user do_group fill do_envelope
  main users s =
      and_then
        (and_then (and_then (and_then (some (set_print true s)) (do_user 0)) (do_group 1 0))
          (λ t. fill users 1 (set_print false t)))
        (λ t. do_envelope 1 bucket_key (set_print false t))
