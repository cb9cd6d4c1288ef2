-- ===== src/Proxy/Token.antt =====
-- writerproxy_service.cpp: `request_reply` and `generate_token`, the way to temporary credentials.
use anonym_sharing.Base.{
  zero, suc, String, ◌<>◌, Bool, true, false, List, [], ◌∷◌, none, some, Option, ℤ, pos, negsuc, ok,
  raise, if◌then◌else◌,
}
use anonym_sharing.Std.Order.{Bytes}
use anonym_sharing.Platform.{JsonLib, constant, text, http11, contenttype, auth}
use anonym_sharing.Proxy.{WriterProxy, is_positive, int_to_string}
use anonym_sharing.Proxy.Libs.{UrlLib, HttpLib, TextLib, OutRequest, ResponseDecoder, Network}
use anonym_sharing.Proxy.Forward.{Served, check_user, respond}

-- How `request_reply` ends: a body, a response that it throws, or a `recv` that never returns.
pub data Reply (R : Type 0) : Type 0 where
  replied : String → Reply R
  thrown : R → Reply R
  waiting : Reply R

-- endpoint.port() == -1
abbrev pub is_unset : ℤ → Bool
is_unset (pos n) = false
is_unset (negsuc zero) = true
is_unset (negsuc (suc n)) = false

module _ {B R : Type 0} (http : HttpLib B R) where
  -- A copy of the builder of the thrown response, with the reason appended.
  abbrev pub complain : String → R → R
  complain why r = http.build (http.append_body why (http.of_response r))

module _ {B R D : Type 0} (http : HttpLib B R) (decoder : ResponseDecoder D R) where
  open http use {is_successful, body}
  open decoder use {add_chunk, get_response}

  -- The loop over `recv`.
  unfoldable pub receive : R → D → List (Option Bytes) → Reply R
  receive error d [] = waiting
  receive error d (none ∷ receives) = thrown error
  receive error d (some chunk ∷ receives) =
      let d' = add_chunk d chunk in
      let rest = receive error d' receives in
      elim (get_response d') [
        | none ↦ rest
        | some r ↦ if is_successful r then replied (body r) else replied ""
      ]

module _ {B U : Type 0} (urls : UrlLib U) (texts : TextLib U) where
  -- The request to the identity server, and the one to MinIO.
  unfoldable pub identity_request : WriterProxy B U → OutRequest U
  unfolding int_to_string
  identity_request s = record {
    method = "POST";
    url = urls.parse_url "http://0:0/oauth2/token";
    protocol = http11;
    headers =
        (text "Host", urls.host s.isendpoint_ <> ":" <> int_to_string (urls.port s.isendpoint_))
        ∷ (constant auth, "Basic " <> texts.base64_encode (s.tuser_ <> ":" <> s.tpass_))
        ∷ (constant contenttype, "application/x-www-form-urlencoded")
        ∷ [];
    body = "grant_type=client_credentials";
  }

  unfoldable pub minio_request : String → String → WriterProxy B U → OutRequest U
  unfolding int_to_string
  minio_request expires token s = record {
    method = "POST";
    url = urls.query s.minioendpoint_ (
        ("Action", "AssumeRoleWithClientGrants")
        ∷ ("DurationSeconds", expires)
        ∷ ("Token", token)
        ∷ []);
    protocol = http11;
    headers =
        (
          text "Host",
          urls.host s.minioendpoint_ <> ":" <> int_to_string (urls.port s.minioendpoint_),
        )
        ∷ [];
    body = "";
  }

module _ {B U R D : Type 0} (http : HttpLib B R) (urls : UrlLib U) (texts : TextLib U)
    (decoder : ResponseDecoder D R) (network : Network) where
  open http use {code, message, build, append_body}
  open decoder use {new_decoder}

  -- The builder is set for the error also where no error comes.
  unfoldable pub request_reply : U → OutRequest U → WriterProxy B U → Reply R × WriterProxy B U
  request_reply endpoint request s =
      let peer = network.exchange (urls.host endpoint) (urls.port endpoint) (texts.wire request) in
      let refused = message "Method Not Allowed" (code 405 s.response_builder) in
      let timeout = message "Gateway Timeout" (code 504 s.response_builder) in
      let error = build timeout in
      let s' = record s { response_builder = timeout } in
      if is_unset (urls.port endpoint)
      then (thrown (build refused), record s { response_builder = refused })
      else if peer.connects
      then if is_positive peer.sent
        then (receive http decoder error new_decoder peer.receives, s')
        else (thrown error, s')
      else (thrown error, s')

  unfoldable pub give_credentials : Reply R × WriterProxy B U → Served B U R
  give_credentials (waiting, s) = none
  give_credentials (thrown r, s) = some (ok (complain http "Error communicating with minio\n" r), s)
  give_credentials (replied credentials, s) =
      some (ok (build (append_body credentials (message "OK" (code 200 s.response_builder)))), s)

  module _ {J : Type 0} (json : JsonLib J) where
    open json use {parse, json_str, json_int}

    unfoldable pub assume_role : J → WriterProxy B U → Served B U R
    assume_role j s = elim (json_int j "expires_in") [
      | raise e ↦ some (raise e, s)
      | ok expires ↦ elim (json_str j "access_token") [
        | raise e ↦ some (raise e, s)
        | ok token ↦ give_credentials (
            request_reply s.minioendpoint_
              (minio_request urls texts (int_to_string expires) token s) s)
      ]
    ]

    unfoldable pub use_token : Reply R × WriterProxy B U → Served B U R
    use_token (waiting, s) = none
    use_token (thrown r, s) =
        some (ok (complain http "Error communicating with Identity Server\n" r), s)
    use_token (replied access_token, s) = elim (parse access_token) [
      | raise e ↦ some (raise e, s)
      | ok j ↦ assume_role j s
    ]

    unfoldable pub generate_token : WriterProxy B U → Served B U R
    unfolding respond
    generate_token s =
        let (allowed, s1) = check_user urls s in
        if allowed
        then use_token (request_reply s1.isendpoint_ (identity_request urls texts s1) s1)
        else some (respond http 401 "Unauthorized" s1)
