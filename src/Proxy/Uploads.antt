-- ===== src/Proxy/Uploads.antt =====
-- What an upload is answered: `forward` of writerproxy_service.cpp.
use anonym_sharing.Base.{
  ℕ, zero, suc, ◌+◌, ◌<◌, ◌≡◌, ◌≢◌, refl, ap, subst, ◌∙◌, arith, String, Bool, true, false, not,
  ◌&&◌, some, ok, raise, unknown, if◌then◌else◌, str_eq, inl, inr, ◌⊎◌, Bool-cases,
}
use native.Mathlib.Nat.{add-zero}
use anonym_sharing.Platform.{Request}
use anonym_sharing.Proxy.{WriterProxy, is_empty}
use anonym_sharing.Proxy.Libs.{
  UrlLib, HttpLib, HttpLaws, TextLib, Upload, stored, no_such_bucket, other_error, foreign, failure,
  Minio,
}
use anonym_sharing.Proxy.Forward.{
  check_user, make_bucket, forward_object, respond, after_retry, forward, first_or_empty, Served,
}

-- The status that an upload gets, by the outcome of its first attempt and by whether its bucket
-- can be made.
abbrev pub Gets : Upload → Bool → ℕ → Type 0
Gets stored made n = n ≡ 200
Gets no_such_bucket made n = n ≡ (if made then 200 else 409)
Gets other_error made n = n ≡ 409
Gets foreign made n = ⊥
Gets (failure what) made n = n ≡ (if str_eq "No response" what then 444 else 200)

Upload-cases : (o : Upload) → (o ≡ no_such_bucket) ⊎ (o ≢ no_such_bucket)
Upload-cases no_such_bucket = inl refl
Upload-cases stored = inr (λ e. cc)
Upload-cases other_error = inr (λ e. cc)
Upload-cases foreign = inr (λ e. cc)
Upload-cases (failure w) = inr (λ e. cc)

module _ {B U : Type 0} (urls : UrlLib U) where
  pub check_user-true : (s : WriterProxy B U) → (check_user urls s).0 ≡ true
  unfolding check_user
  check_user-true s = ground arith

  pub check_user_same :
      (s : WriterProxy B U)
      → let t = (check_user urls s).1 in
        (t.response_builder ≡ s.response_builder) × (t.uploads ≡ s.uploads) × (t.makes ≡ s.makes)
  unfolding check_user
  check_user_same s = (ground arith, ground arith, ground arith)

module _ {B U R : Type 0} (http : HttpLib B R) (urls : UrlLib U) (texts : TextLib U) (minio : Minio)
    (laws : HttpLaws B R http) where
  open laws use {status, status_of, body_of}

  -- The path names a bucket, and MinIO makes it.
  abbrev pub can_make : Request → WriterProxy B U → Bool
  can_make request s =
      not (is_empty (first_or_empty (texts.split request.path "/"))) && minio.makes_bucket s.makes

  make_bucket_lem :
      (request : Request) (s : WriterProxy B U)
      → let r = make_bucket http urls texts minio request s in
        (r.0 ≡ can_make request s)
        × (r.1.response_builder ≡ s.response_builder)
        × (r.1.uploads ≡ s.uploads)
  unfolding make_bucket
  make_bucket_lem request s = (ground arith, ground arith, ground arith)

  -- An answer with such a status and this body, and a builder that still has the body.
  abbrev pub Answered : String → (ℕ → Type 0) → Served B U R → Type 0
  Answered body P a =
      (r : R) × (t : WriterProxy B U) × (a ≡ some (ok r, t))
      × P (status r)
      × (http.body r ≡ body)
      × (body_of t.response_builder ≡ body)

  pub respond-Answered :
      (n : ℕ) (m body : String) (s : WriterProxy B U)
      → body_of s.response_builder ≡ body
      → Answered body (λ k. k ≡ n) (some (respond http n m s))
  unfolding respond
  respond-Answered n m body s e =
      let b = http.message m (http.code n s.response_builder) in
      (
        http.build b,
        record s { response_builder = b },
        refl,
        laws.status-build b ∙ (laws.status-message m _ ∙ laws.status-code n _),
        laws.body-build b ∙ (laws.body-message m _ ∙ (laws.body-code n _ ∙ e)),
        laws.body-message m _ ∙ (laws.body-code n _ ∙ e),
      )

  after_retry-Answered :
      (body : String) (P : ℕ → Type 0) (a : Served B U R)
      → Answered body P a
      → Answered body (λ k. k ≡ 200) (after_retry http a)
  unfolding after_retry
  after_retry-Answered body P a (r, t, e, p, b, c) = rw e (respond-Answered 200 "OK" body t c)

  -- The handlers of one attempt.
  abbrev pub react : Upload → Bool → Served B U R → WriterProxy B U → WriterProxy B U → Served B U R
  react stored made retry s t = some (respond http 200 "OK" s)
  react no_such_bucket made retry s t = if made then retry else some (respond http 409 "Conflict" t)
  react other_error made retry s t = some (respond http 409 "Conflict" s)
  react foreign made retry s t = some (raise unknown, s)
  react (failure what) made retry s t =
      if str_eq "No response" what
      then some (respond http 444 "No response" s)
      else some (respond http 200 "OK" s)

  module _ (request : Request) where
    -- The proxy after the ping and the first attempt, and after the call that makes the bucket.
    pub attempted : WriterProxy B U → WriterProxy B U
    attempted s = (forward_object http urls texts minio request (check_user urls s).1).1

    pub bucketed : WriterProxy B U → WriterProxy B U
    bucketed s = (make_bucket http urls texts minio request (attempted s)).1

    pub attempted_same :
        (s : WriterProxy B U)
        → ((attempted s).response_builder ≡ s.response_builder)
          × ((attempted s).uploads ≡ suc s.uploads)
          × ((attempted s).makes ≡ s.makes)
    unfolding attempted forward_object
    attempted_same s = let (b, u, m) = check_user_same urls s in (b, ap suc u, m)

    pub bucketed_same :
        (s : WriterProxy B U)
        → ((bucketed s).response_builder ≡ s.response_builder)
          × ((bucketed s).uploads ≡ suc s.uploads)
    unfolding bucketed
    bucketed_same s =
        let (b, u, m) = attempted_same s in
        let (made, c, v) = make_bucket_lem request (attempted s) in (c ∙ b, v ∙ u)

    pub forward_step :
        (fuel : ℕ) (s : WriterProxy B U)
        → forward http urls texts minio (suc fuel) request s
          ≡ react
              (minio.forward_object s.uploads)
              (can_make request s)
              (after_retry http (forward http urls texts minio fuel request (bucketed s)))
              (attempted s)
              (bucketed s)
    unfolding forward attempted bucketed forward_object
    forward_step fuel s =
        let u = check_user-true urls s in
        let (b, v, m) = check_user_same urls s in
        let (made, c, w) = make_bucket_lem request (attempted s) in ground (arith, u, v, m, made)

    react-Answered :
        (o : Upload) (made : Bool) (retry : Served B U R) (body : String) (s t : WriterProxy B U)
        → o ≢ foreign
        → (o ≡ no_such_bucket → Answered body (λ k. k ≡ 200) retry)
        → body_of s.response_builder ≡ body
        → body_of t.response_builder ≡ body
        → Answered body (Gets o made) (react o made retry s t)
    react-Answered stored made retry body s t f m e k = respond-Answered 200 "OK" body s e
    react-Answered no_such_bucket true retry body s t f m e k = m refl
    react-Answered no_such_bucket false retry body s t f m e k =
        respond-Answered 409 "Conflict" body t k
    react-Answered other_error made retry body s t f m e k =
        respond-Answered 409 "Conflict" body s e
    react-Answered foreign made retry body s t f m e k = absurd (f refl)
    react-Answered (failure w) made retry body s t f m e k =
        elim (Bool-cases (str_eq "No response" w)) [
          | inl h ↦ rw h (respond-Answered 444 "No response" body s e)
          | inr h ↦ rw h (respond-Answered 200 "OK" body s e)
        ]

    -- One attempt, where the next one is answered if the bucket is missing.
    forward_first :
        (fuel : ℕ) (s : WriterProxy B U)
        → minio.forward_object s.uploads ≢ foreign
        → (minio.forward_object s.uploads ≡ no_such_bucket
            → Answered
                (body_of s.response_builder)
                (λ k. k ≡ 200)
                (after_retry http (forward http urls texts minio fuel request (bucketed s))))
        → Answered
            (body_of s.response_builder)
            (Gets (minio.forward_object s.uploads) (can_make request s))
            (forward http urls texts minio (suc fuel) request s)
    forward_first fuel s f again = rw (forward_step fuel s) (
        react-Answered (minio.forward_object s.uploads) (can_make request s) _
          (body_of s.response_builder) (attempted s) (bucketed s) f again
          (ap body_of (attempted_same s).0) (ap body_of (bucketed_same s).0))

    -- If MinIO does not go on answering for ever that the bucket is missing, and throws standard
    -- exceptions only, every upload is answered, by the outcome of its first attempt alone: 200 if
    -- it was stored, 444 for "No response", 409 for an error response, but 200 for any other
    -- exception, and 200 if a missing bucket was made, whatever the later attempts did. The body is
    -- the builder's, which is left as it was.
    pub forward_answers :
        (n fuel : ℕ) (s : WriterProxy B U)
        → n < fuel
        → minio.forward_object (s.uploads + n) ≢ no_such_bucket
        → ((m : ℕ) → minio.forward_object m ≢ foreign)
        → Answered
            (body_of s.response_builder)
            (Gets (minio.forward_object s.uploads) (can_make request s))
            (forward http urls texts minio fuel request s)
    forward_answers n zero s h end f = absurd (omega arith)
    forward_answers zero (suc fuel) s h end f =
        forward_first fuel s (f s.uploads) (λ e. absurd (end (ground (arith, add-zero s.uploads))))
    forward_answers (suc n) (suc fuel) s h end f =
        let (b, u) = bucketed_same s in
        forward_first fuel s (f s.uploads) (λ e.
          after_retry-Answered (body_of s.response_builder)
            (Gets (minio.forward_object (bucketed s).uploads) (can_make request (bucketed s))) _
            (subst
              (λ x.
                Answered (body_of x)
                  (Gets (minio.forward_object (bucketed s).uploads) (can_make request (bucketed s)))
                  (forward http urls texts minio fuel request (bucketed s)))
              b
              (forward_answers n fuel (bucketed s) (omega arith)
                (subst (λ k. minio.forward_object k ≢ no_such_bucket) (omega (arith, u)) end) f)))
