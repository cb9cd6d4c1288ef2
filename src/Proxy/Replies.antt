-- ===== src/Proxy/Replies.antt =====
-- The parts of a request for credentials: `generate_token` of writerproxy_service.cpp up to what the
-- identity server replies.
use anonym_sharing.Base.{
  ℕ, ◌≡◌, refl, ap, ◌∙◌, arith, String, ◌<>◌, true, false, ℤ, some, ok, inl, inr, ◌⊎◌,
}
use anonym_sharing.Platform.{JsonLib}
use anonym_sharing.Proxy.{WriterProxy, int_to_string}
use anonym_sharing.Proxy.Libs.{
  UrlLib, HttpLib, HttpLaws, TextLib, OutRequest, ResponseDecoder, Network, Peer,
}
use anonym_sharing.Proxy.Forward.{check_user, Served}
use anonym_sharing.Proxy.Uploads.{check_user-true}
use anonym_sharing.Proxy.Token.{
  thrown, request_reply, identity_request, minio_request, use_token, generate_token, is_unset,
  complain,
}
use anonym_sharing.Proxy.Exchange.{Breaks, peer_of, request_reply-Breaks, request_reply_unset}

module _ {B U R D J : Type 0} (http : HttpLib B R) (urls : UrlLib U) (texts : TextLib U)
    (decoder : ResponseDecoder D R) (network : Network) (json : JsonLib J)
    (laws : HttpLaws B R http) where
  open laws use {status, status_of, body_of}

  -- The proxy after the ping.
  unfoldable pub pinged : WriterProxy B U → WriterProxy B U
  pinged s = (check_user urls s).1

  pub pinged_same :
      (s : WriterProxy B U)
      → ((pinged s).response_builder ≡ s.response_builder)
        × ((pinged s).isendpoint_ ≡ s.isendpoint_)
        × ((pinged s).minioendpoint_ ≡ s.minioendpoint_)
        × ((pinged s).tuser_ ≡ s.tuser_)
        × ((pinged s).tpass_ ≡ s.tpass_)
  unfolding pinged check_user
  pinged_same s = (ground arith, ground arith, ground arith, ground arith, ground arith)

  pub identity_request-pinged :
      (s : WriterProxy B U) → identity_request urls texts (pinged s) ≡ identity_request urls texts s
  unfolding identity_request
  identity_request-pinged s = let (b, i, m, u, p) = pinged_same s in ground (arith, i, u, p)

  -- The first exchange.
  pub generate_token_lem :
      (s : WriterProxy B U)
      → generate_token http urls texts decoder network json s
        ≡ use_token http urls texts decoder network json (
            request_reply http urls texts decoder network s.isendpoint_
              (identity_request urls texts s)
              (pinged s))
  unfolding generate_token pinged
  generate_token_lem s =
      let (b, i, m, u, p) = pinged_same s in
      rw (check_user-true urls s) (rw i (rw (identity_request-pinged s)))

  -- The answer has this status and this body.
  abbrev pub Gives : ℕ → String → Served B U R → Type 0
  Gives n body a =
      (r : R) × (t : WriterProxy B U) × (a ≡ some (ok r, t)) × (status r ≡ n) × (http.body r ≡ body)

  -- A response that was built from the builder with this status, with a complaint appended.
  pub complain-Gives :
      (n : ℕ) (m why : String) (b : B) (s : WriterProxy B U)
      → Gives n
          (body_of b <> why)
          (some (ok (complain http why (http.build (http.message m (http.code n b)))), s))
  complain-Gives n m why b s =
      let c = http.message m (http.code n b) in
      let r = http.build c in
      let d = http.append_body why (http.of_response r) in
      (
        http.build d,
        s,
        refl,
        laws.status-build d
            ∙ (laws.status-append_body why _
                ∙ (laws.status-of_response r
                    ∙ (laws.status-build c ∙ (laws.status-message m _ ∙ laws.status-code n b)))),
        laws.body-build d
            ∙ (laws.body-append_body why _
                ∙ ap (λ x. x <> why)
                    (laws.body-of_response r
                      ∙ (laws.body-build c ∙ (laws.body-message m _ ∙ laws.body-code n b)))),
      )

  -- The server that is asked for a token, and the one that is asked for credentials with it.
  abbrev pub identity_peer : WriterProxy B U → Peer
  identity_peer s = peer_of urls texts network s.isendpoint_ (identity_request urls texts s)

  abbrev pub minio_peer : ℤ → String → WriterProxy B U → Peer
  minio_peer expires token s =
      peer_of urls texts network s.minioendpoint_
        (minio_request urls texts (int_to_string expires) token s)

  -- Why an exchange fails, and the status that stands for it: no endpoint is set, or the peer
  -- cannot be reached or breaks off.
  abbrev pub Fails : U → Peer → ℕ → Type 0
  Fails endpoint peer n =
      ((n ≡ 405) × (is_unset (urls.port endpoint) ≡ true))
      ⊎ ((n ≡ 504) × (is_unset (urls.port endpoint) ≡ false) × Breaks decoder peer)

  pub reply-Fails :
      (endpoint : U) (request : OutRequest U) (n : ℕ) (s : WriterProxy B U)
      → Fails endpoint (peer_of urls texts network endpoint request) n
      → (m : String) × (t : WriterProxy B U) × (request_reply http urls texts decoder network
            endpoint request s
          ≡ (thrown (http.build (http.message m (http.code n s.response_builder))), t))
  reply-Fails endpoint request n s (inl (e, unset)) = (
    "Method Not Allowed",
    record s {
      response_builder = http.message "Method Not Allowed" (http.code n s.response_builder);
    },
    rw e (request_reply_unset http urls texts decoder network endpoint request s unset),
  )
  reply-Fails endpoint request n s (inr (e, set, v)) = (
    "Gateway Timeout",
    record s { response_builder = http.message "Gateway Timeout" (http.code n s.response_builder) },
    rw e (request_reply-Breaks http urls texts decoder network endpoint request s set v),
  )
