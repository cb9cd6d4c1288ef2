-- ===== src/Proxy/Answers.antt =====
-- Which status a request gets that does not ask for a token: `treat_request` of
-- writerproxy_service.cpp.
use anonym_sharing.Base.{
  ℕ, ◌+◌, ◌<◌, ◌≡◌, ◌≢◌, refl, String, if◌then◌else◌, str_eq, Bool-cases, inl, inr,
}
use anonym_sharing.Platform.{Request, JsonLib}
use anonym_sharing.Proxy.{WriterProxy}
use anonym_sharing.Proxy.Libs.{
  UrlLib, HttpLib, HttpLaws, TextLib, ResponseDecoder, Network, Minio, no_such_bucket, foreign,
}
use anonym_sharing.Proxy.Uploads.{Answered, Gets, can_make, respond-Answered, forward_answers}
use anonym_sharing.Proxy.Server.{treat_request}

-- What a request is to the proxy.
pub data Kind : Type 0 where
  ping token upload other : Kind

abbrev pub kind : Request → Kind
kind request =
    if str_eq request.method "GET"
    then if str_eq request.path "/ping"
      then ping
      else if str_eq request.path "/token"
      then token
      else other
    else if str_eq request.method "PUT"
    then upload
    else other

module _ {B U R D J : Type 0} (http : HttpLib B R) (laws : HttpLaws B R http) (urls : UrlLib U)
    (texts : TextLib U) (decoder : ResponseDecoder D R) (network : Network) (json : JsonLib J)
    (minio : Minio) where
  open laws use {body_of}

  -- The status by the kind: that of an upload is the one that its first attempt gets.
  abbrev pub Gives : Kind → Request → WriterProxy B U → ℕ → Type 0
  Gives ping request s n = n ≡ 200
  Gives token request s n = ⊥
  Gives upload request s n =
      Gets (minio.forward_object s.uploads) (can_make http urls texts minio laws request s) n
  Gives other request s n = n ≡ 400

  -- If MinIO does not go on answering for ever that the bucket is missing, and throws standard
  -- exceptions only, every request that does not ask for a token is answered, whatever was asked
  -- before: a GET of /ping with 200, a PUT by the outcome of its first attempt alone, and every
  -- other one with 400. That outcome gives 200 if the file was stored, 409 for an error response,
  -- 444 for "No response" and 200 for another exception, and, if the bucket is missing, 409 where
  -- it cannot be made and 200 where it can, also if a later attempt is refused. The body of the
  -- answer is that of the shared builder, which is left as it was.
  pub treat_request_answers :
      (n fuel : ℕ) (request : Request) (s : WriterProxy B U)
      → n < fuel
      → minio.forward_object (s.uploads + n) ≢ no_such_bucket
      → ((m : ℕ) → minio.forward_object m ≢ foreign)
      → kind request ≢ token
      → Answered http urls texts minio laws
          (body_of s.response_builder)
          (Gives (kind request) request s)
          (treat_request http urls texts decoder network json minio fuel request s)
  unfolding treat_request
  treat_request_answers n fuel request s h end std k =
      let body = body_of s.response_builder in
      let says =
        λ (c : ℕ) (m : String). respond-Answered http urls texts minio laws c m body s refl in
      elim (Bool-cases (str_eq request.method "GET")) [
        | inl g ↦ elim (Bool-cases (str_eq request.path "/ping")) [
          | inl p ↦ rw (g, p) (says 200 "OK")
          | inr p ↦ elim (Bool-cases (str_eq request.path "/token")) [
            | inl t ↦ absurd (k (rw (g, p, t) refl))
            | inr t ↦ rw (g, p, t) (says 400 "Bad Request")
          ]
        ]
        | inr g ↦ elim (Bool-cases (str_eq request.method "PUT")) [
          | inl p ↦
              rw (g, p) (forward_answers http urls texts minio laws request n fuel s h end std)
          | inr p ↦ rw (g, p) (says 400 "Bad Request")
        ]
      ]
