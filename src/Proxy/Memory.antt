-- ===== src/Proxy/Memory.antt =====
-- writerproxy_service.cpp: the response builder of the proxy, which every request shares, from one
-- request to the next. Credentials and complaints go into copies of it.
use anonym_sharing.Base.{
  ℕ, zero, suc, ◌≡◌, ap, ◌∙◌, arith, String, Bool, true, false, if_ind, str_eq, Bool-cases, ◌&&◌,
  inl, inr,
}
use anonym_sharing.Platform.{Request, JsonLib}
use anonym_sharing.Proxy.{WriterProxy}
use anonym_sharing.Proxy.Libs.{
  UrlLib, HttpLib, HttpLaws, TextLib, ResponseDecoder, Network, Minio, Upload, stored,
  no_such_bucket, other_error, foreign, failure,
}
use anonym_sharing.Proxy.Forward.{Served, forward}
use anonym_sharing.Proxy.Uploads.{
  react, forward_step, attempted, attempted_same, bucketed, bucketed_same,
}
use anonym_sharing.Proxy.Server.{treat_request}
use anonym_sharing.Proxy.Kept.{
  Keeps, Bare, Bare-Keeps, respond-Bare, respond-Keeps, after_retry-Bare, generate_token-Keeps,
}

abbrev pub asks_token : Request → Bool
asks_token request = str_eq request.method "GET" && str_eq request.path "/token"

module _ {B U R : Type 0} (http : HttpLib B R) (laws : HttpLaws B R http) (urls : UrlLib U)
    (texts : TextLib U) (minio : Minio) (request : Request) where
  open laws use {body_of}

  react-Bare :
      (o : Upload) (made : Bool) (retry : Served B U R) (body : String) (s t : WriterProxy B U)
      → Bare http laws body retry
      → body_of s.response_builder ≡ body
      → body_of t.response_builder ≡ body
      → Bare http laws body (react http urls texts minio laws o made retry s t)
  react-Bare stored made retry body s t m e k = respond-Bare http laws 200 "OK" body s e
  react-Bare no_such_bucket true retry body s t m e k = m
  react-Bare no_such_bucket false retry body s t m e k =
      respond-Bare http laws 409 "Conflict" body t k
  react-Bare other_error made retry body s t m e k = respond-Bare http laws 409 "Conflict" body s e
  react-Bare foreign made retry body s t m e k = e
  react-Bare (failure w) made retry body s t m e k =
      if_ind (Bare http laws body) (str_eq "No response" w)
        (respond-Bare http laws 444 "No response" body s e)
        (respond-Bare http laws 200 "OK" body s e)

  forward-Bare :
      (fuel : ℕ) (body : String) (s : WriterProxy B U)
      → body_of s.response_builder ≡ body
      → Bare http laws body (forward http urls texts minio fuel request s)
  unfolding forward
  forward-Bare zero body s h = tt
  forward-Bare (suc fuel) body s h =
      let t = attempted http urls texts minio laws request s in
      let u = bucketed http urls texts minio laws request s in
      let (b, v, m) = attempted_same http urls texts minio laws request s in
      let (c, w) = bucketed_same http urls texts minio laws request s in
      let later = forward-Bare fuel body u (ap body_of c ∙ h) in
      rw (forward_step http urls texts minio laws request fuel s) (
        react-Bare (minio.forward_object s.uploads) _ _ body t u
          (after_retry-Bare http laws body (forward http urls texts minio fuel request u)
            (Bare-Keeps http laws body (forward http urls texts minio fuel request u) later))
          (ap body_of b ∙ h) (ap body_of c ∙ h))

module _ {B U R D J : Type 0} (http : HttpLib B R) (laws : HttpLaws B R http) (urls : UrlLib U)
    (texts : TextLib U) (decoder : ResponseDecoder D R) (network : Network) (json : JsonLib J)
    (minio : Minio) where
  open laws use {body_of}

  token_kept :
      (fuel : ℕ) (request : Request) (body : String) (s : WriterProxy B U)
      → body_of s.response_builder ≡ body
      → asks_token request ≡ true
      → Keeps http laws body
          (treat_request http urls texts decoder network json minio fuel request s)
  unfolding treat_request
  token_kept fuel request body s h asks =
      let g : str_eq request.method "GET" ≡ true = ground (arith, asks) in
      let p : str_eq request.path "/token" ≡ true = ground (arith, asks, g) in
      rw g (
        if_ind (Keeps http laws body) (str_eq request.path "/ping")
          (respond-Keeps http laws 200 "OK" body s h)
          (rw p (generate_token-Keeps http laws urls texts decoder network json body s h)))

  -- A request other than one for a token, if it is answered, gets the body of the shared builder.
  pub treat_request-Bare :
      (fuel : ℕ) (request : Request) (body : String) (s : WriterProxy B U)
      → body_of s.response_builder ≡ body
      → asks_token request ≡ false
      → Bare http laws body
          (treat_request http urls texts decoder network json minio fuel request s)
  unfolding treat_request
  treat_request-Bare fuel request body s h other =
      let bad = respond-Bare http laws 400 "Bad Request" body s h in
      let pong = respond-Bare http laws 200 "OK" body s h in
      let put = forward-Bare http laws urls texts minio request fuel body s h in
      elim (Bool-cases (str_eq request.method "GET")) [
        | inl g ↦ elim (Bool-cases (str_eq request.path "/token")) [
          | inl p ↦ absurd (ground (arith, other, g, p))
          | inr p ↦ rw (g, p) (if_ind (Bare http laws body) (str_eq request.path "/ping") pong bad)
        ]
        | inr g ↦ rw g (if_ind (Bare http laws body) (str_eq request.method "PUT") put bad)
      ]

  -- However a request ends, the body of the shared builder is what it was: the credentials and the
  -- complaints that one client gets do not reach the next one's answer.
  pub treat_request-Keeps :
      (fuel : ℕ) (request : Request) (body : String) (s : WriterProxy B U)
      → body_of s.response_builder ≡ body
      → Keeps http laws body
          (treat_request http urls texts decoder network json minio fuel request s)
  treat_request-Keeps fuel request body s h = elim (Bool-cases (asks_token request)) [
    | inl t ↦ token_kept fuel request body s h t
    | inr t ↦
        Bare-Keeps http laws body
          (treat_request http urls texts decoder network json minio fuel request s)
          (treat_request-Bare fuel request body s h t)
  ]
