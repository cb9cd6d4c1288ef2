-- ===== src/Proxy/Kept.antt =====
-- writerproxy_service.cpp: what a request for credentials keeps of the shared response builder.
use anonym_sharing.Base.{
  ℕ, ◌≡◌, ap, ◌∙◌, arith, String, none, some, ok, raise, if_ind, Result-cases, inl, inr,
}
use anonym_sharing.Platform.{JsonLib}
use anonym_sharing.Proxy.{WriterProxy, int_to_string}
use anonym_sharing.Proxy.Libs.{
  UrlLib, HttpLib, HttpLaws, TextLib, OutRequest, ResponseDecoder, Network,
}
use anonym_sharing.Proxy.Forward.{Served, check_user, respond, after_retry}
use anonym_sharing.Proxy.Uploads.{check_user_same}
use anonym_sharing.Proxy.Token.{
  Reply, replied, thrown, waiting, request_reply, identity_request, minio_request, use_token,
  assume_role, give_credentials, generate_token,
}

module _ {B R : Type 0} (http : HttpLib B R) (laws : HttpLaws B R http) where
  open laws use {body_of}

  -- code(...) and message(...) do not touch the body.
  pub relabel-body :
      (n : ℕ) (m : String) (b : B) → body_of (http.message m (http.code n b)) ≡ body_of b
  relabel-body n m b = laws.body-message m _ ∙ laws.body-code n b

module _ {B U R : Type 0} (http : HttpLib B R) (laws : HttpLaws B R http) where
  open laws use {body_of}

  -- If the call returns, or throws, the builder has this body.
  abbrev pub Keeps : String → Served B U R → Type 0
  Keeps body none = Unit {0}
  Keeps body (some (r, s)) = body_of s.response_builder ≡ body

  -- And if it returns a response, that has this body too.
  abbrev pub Bare : String → Served B U R → Type 0
  Bare body none = Unit {0}
  Bare body (some (ok r, s)) = (http.body r ≡ body) × (body_of s.response_builder ≡ body)
  Bare body (some (raise e, s)) = body_of s.response_builder ≡ body

  pub Bare-Keeps : (body : String) (a : Served B U R) → Bare body a → Keeps body a
  Bare-Keeps body none h = tt
  Bare-Keeps body (some (ok r, s)) h = h.1
  Bare-Keeps body (some (raise e, s)) h = h

  pub respond-Bare :
      (n : ℕ) (m body : String) (s : WriterProxy B U)
      → body_of s.response_builder ≡ body
      → Bare body (some (respond http n m s))
  unfolding respond
  respond-Bare n m body s e =
      let kept = relabel-body http laws n m s.response_builder ∙ e in
      (laws.body-build _ ∙ kept, kept)

  pub respond-Keeps :
      (n : ℕ) (m body : String) (s : WriterProxy B U)
      → body_of s.response_builder ≡ body
      → Keeps body (some (respond http n m s))
  unfolding respond
  respond-Keeps n m body s e = relabel-body http laws n m s.response_builder ∙ e

  pub after_retry-Bare :
      (body : String) (a : Served B U R) → Keeps body a → Bare body (after_retry http a)
  unfolding after_retry
  after_retry-Bare body none h = tt
  after_retry-Bare body (some (ok r, s)) h = respond-Bare 200 "OK" body s h
  after_retry-Bare body (some (raise e, s)) h = h

module _ {B U R D : Type 0} (http : HttpLib B R) (laws : HttpLaws B R http) (urls : UrlLib U)
    (texts : TextLib U) (decoder : ResponseDecoder D R) (network : Network) where
  open laws use {body_of}

  pub request_reply_body :
      (endpoint : U) (request : OutRequest U) (body : String) (s : WriterProxy B U)
      → body_of s.response_builder ≡ body
      → body_of
          (request_reply http urls texts decoder network endpoint request s).1.response_builder
        ≡ body
  unfolding request_reply
  request_reply_body endpoint request body s e =
      let refused = relabel-body http laws 405 "Method Not Allowed" s.response_builder in
      let timeout = relabel-body http laws 504 "Gateway Timeout" s.response_builder in
      ground (arith, refused, timeout, e)

  pub give_credentials-Keeps :
      (body : String) (x : Reply R × WriterProxy B U)
      → body_of x.1.response_builder ≡ body
      → Keeps http laws body (give_credentials http urls texts decoder network x)
  unfolding give_credentials
  give_credentials-Keeps body (waiting, s) e = tt
  give_credentials-Keeps body (thrown r, s) e = e
  give_credentials-Keeps body (replied t, s) e = e

  module _ {J : Type 0} (json : JsonLib J) where
    pub assume_role-Keeps :
        (body : String) (j : J) (s : WriterProxy B U)
        → body_of s.response_builder ≡ body
        → Keeps http laws body (assume_role http urls texts decoder network json j s)
    unfolding assume_role
    assume_role-Keeps body j s h = elim (Result-cases (json.json_int j "expires_in")) [
      | inl (x, e) ↦ rw (e, assume_role) h
      | inr (expires, e) ↦ elim (Result-cases (json.json_str j "access_token")) [
        | inl (x, k) ↦ rw (e, assume_role) (rw (k, assume_role) h)
        | inr (token, k) ↦
            rw (e, assume_role)
              (rw (k, assume_role)
                (give_credentials-Keeps body
                  (request_reply http urls texts decoder network s.minioendpoint_
                    (minio_request urls texts (int_to_string expires) token s) s)
                  (request_reply_body s.minioendpoint_
                    (minio_request urls texts (int_to_string expires) token s) body s h)))
      ]
    ]

    pub use_token-Keeps :
        (body : String) (x : Reply R × WriterProxy B U)
        → body_of x.1.response_builder ≡ body
        → Keeps http laws body (use_token http urls texts decoder network json x)
    unfolding use_token
    use_token-Keeps body (waiting, s) h = tt
    use_token-Keeps body (thrown r, s) h = h
    use_token-Keeps body (replied t, s) h = elim (Result-cases (json.parse t)) [
      | inl (x, e) ↦ rw (e, use_token) h
      | inr (j, e) ↦ rw (e, use_token) (assume_role-Keeps body j s h)
    ]

    pub generate_token-Keeps :
        (body : String) (s : WriterProxy B U)
        → body_of s.response_builder ≡ body
        → Keeps http laws body (generate_token http urls texts decoder network json s)
    unfolding generate_token
    generate_token-Keeps body s h =
        let t = (check_user urls s).1 in
        let kept : body_of t.response_builder ≡ body = ap body_of (check_user_same urls s).0 ∙ h in
        if_ind (Keeps http laws body) (check_user urls s).0
          (use_token-Keeps body
            (request_reply http urls texts decoder network t.isendpoint_
              (identity_request urls texts t) t)
            (request_reply_body t.isendpoint_ (identity_request urls texts t) body t kept))
          (respond-Keeps http laws 401 "Unauthorized" body t kept)
