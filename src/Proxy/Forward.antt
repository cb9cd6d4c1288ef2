-- ===== src/Proxy/Forward.antt =====
-- writerproxy_service.cpp: `check_user`, `make_bucket` and `forward`, the way of an upload.
use anonym_sharing.Base.{
  ℕ, zero, suc, String, ◌<>◌, Bool, true, false, List, [], ◌∷◌, ◌++◌, none, some, Option, Result,
  ok, raise, unknown, if◌then◌else◌, str_eq,
}
use anonym_sharing.Platform.{Request}
use anonym_sharing.Proxy.{
  WriterProxy, pings, forwards, makes_bucket, Event, is_positive, is_empty, int_to_string,
}
use anonym_sharing.Proxy.Libs.{
  UrlLib, HttpLib, TextLib, Upload, stored, no_such_bucket, other_error, foreign, failure, Minio,
}

module _ {B U : Type 0} where
  abbrev pub note : Event → WriterProxy B U → WriterProxy B U
  note e s = record s { log = s.log ++ e ∷ [] }

abbrev pub first_or_empty : List String → String
first_or_empty [] = ""
first_or_empty (p ∷ ps) = p

-- What a call returns, with the proxy after it; `none` is a call that never returns.
abbrev pub Served : Type 0 → Type 0 → Type 0 → Type 0
Served B U R = Option (Result R × WriterProxy B U)

module _ {B U : Type 0} (urls : UrlLib U) where
  -- The ping goes out where an access monitor is configured; its answer is not looked at.
  unfoldable pub check_user : WriterProxy B U → Bool × WriterProxy B U
  unfolding int_to_string
  check_user s =
      if is_positive (urls.port s.amendpoint_)
      then (
        true,
        note (pings (urls.host s.amendpoint_ <> ":" <> int_to_string (urls.port s.amendpoint_))) s,
      )
      else (true, s)

module _ {B U R : Type 0} (http : HttpLib B R) where
  open http use {code, message, build}

  -- response_builder.code(...).message(...), which changes the builder, and build().
  unfoldable pub respond : ℕ → String → WriterProxy B U → Result R × WriterProxy B U
  respond n m s =
      let b = message m (code n s.response_builder) in
      (ok (build b), record s { response_builder = b })

  -- What follows the recursive call: its response is dropped, an exception goes on.
  unfoldable pub after_retry : Served B U R → Served B U R
  unfolding respond
  after_retry none = none
  after_retry (some (ok r, s)) = some (respond 200 "OK" s)
  after_retry (some (raise e, s)) = some (raise e, s)

module _ {B U R : Type 0} (http : HttpLib B R) (urls : UrlLib U) (texts : TextLib U)
    (minio : Minio) where
  -- The bucket is the first piece of the path.
  unfoldable pub make_bucket : Request → WriterProxy B U → Bool × WriterProxy B U
  make_bucket request s =
      let bucket = first_or_empty (texts.split request.path "/") in
      if is_empty bucket then (false, s) else (
        minio.makes_bucket s.makes,
        note (makes_bucket bucket) (record s { makes = suc s.makes }),
      )

  -- minioClient->forwardObject(request)
  unfoldable pub forward_object : Request → WriterProxy B U → Upload × WriterProxy B U
  forward_object request s = (
    minio.forward_object s.uploads,
    note (forwards request) (record s { uploads = suc s.uploads }),
  )

  -- `forward` calls itself after it has made a missing bucket; the fuel bounds these calls, and
  -- `none` is a call that runs out of it.
  unfoldable pub forward : ℕ → Request → WriterProxy B U → Served B U R
  unfolding check_user make_bucket respond forward_object after_retry
  forward zero request s = none
  forward (suc fuel) request s =
      let (allowed, s1) = check_user urls s in
      let (outcome, s2) = forward_object request s1 in
      let (made, s3) = make_bucket request s2 in
      let retry = after_retry http (forward fuel request s3) in
      elim allowed [
        | false ↦ some (respond http 401 "Unauthorized" s1)
        | true ↦ elim outcome [
          | stored ↦ some (respond http 200 "OK" s2)
          | no_such_bucket ↦ elim made [
            | true ↦ retry
            | false ↦ some (respond http 409 "Conflict" s3)
          ]
          | other_error ↦ some (respond http 409 "Conflict" s2)
          | foreign ↦ some (raise unknown, s2)
          | failure what ↦
              if str_eq "No response" what
              then some (respond http 444 "No response" s2)
              else some (respond http 200 "OK" s2)
        ]
      ]
