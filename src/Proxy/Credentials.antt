-- ===== src/Proxy/Credentials.antt =====
-- What a request for credentials is answered: `generate_token` of writerproxy_service.cpp.
use anonym_sharing.Base.{
  ℕ, ◌≡◌, refl, sym, ap, ◌∙◌, String, ◌<>◌, true, false, ℤ, some, ok, raise, Exception, subst,
}
use anonym_sharing.Platform.{JsonLib}
use anonym_sharing.Proxy.{WriterProxy, int_to_string}
use anonym_sharing.Proxy.Libs.{
  UrlLib, HttpLib, HttpLaws, TextLib, OutRequest, ResponseDecoder, Network,
}
use anonym_sharing.Proxy.Token.{
  Reply, replied, thrown, request_reply, identity_request, minio_request, use_token, assume_role,
  give_credentials, generate_token, is_unset,
}
use anonym_sharing.Proxy.Exchange.{Delivers, content, asked, request_reply-Delivers}
use anonym_sharing.Proxy.Replies.{
  pinged, pinged_same, generate_token_lem, Gives, complain-Gives, identity_peer, minio_peer, Fails,
  reply-Fails,
}

module _ {B U R D J : Type 0} (http : HttpLib B R) (urls : UrlLib U) (texts : TextLib U)
    (decoder : ResponseDecoder D R) (network : Network) (json : JsonLib J)
    (laws : HttpLaws B R http) where
  open laws use {status, status_of, body_of}

  use_token-thrown :
      (n : ℕ) (m : String) (b : B) (t : WriterProxy B U) (x : Reply R × WriterProxy B U)
      → x ≡ (thrown (http.build (http.message m (http.code n b))), t)
      → Gives http urls texts decoder network json laws n
          (body_of b <> "Error communicating with Identity Server\n")
          (use_token http urls texts decoder network json x)
  unfolding use_token
  use_token-thrown n m b t x e =
      rw e (complain-Gives http urls texts decoder network json laws n m _ b t)

  -- Where the identity server is not configured a request for a token is answered with 405, and
  -- where it cannot be reached or breaks off, with 504. The body of the answer is the builder's,
  -- with the complaint about the identity server behind it.
  pub token_unreachable :
      (n : ℕ) (s : WriterProxy B U)
      → Fails http urls texts decoder network json laws s.isendpoint_
          (identity_peer http urls texts decoder network json laws s)
          n
      → Gives http urls texts decoder network json laws n
          (body_of s.response_builder <> "Error communicating with Identity Server\n")
          (generate_token http urls texts decoder network json s)
  token_unreachable n s f =
      let (m, t, e) =
        reply-Fails http urls texts decoder network json laws s.isendpoint_
          (identity_request urls texts s) n (pinged http urls texts decoder network json laws s)
          f in
      rw (generate_token_lem http urls texts decoder network json laws s) (
        subst
          (λ b.
            Gives http urls texts decoder network json laws n
              (body_of b <> "Error communicating with Identity Server\n")
              (use_token http urls texts decoder network json (
                request_reply http urls texts decoder network s.isendpoint_
                  (identity_request urls texts s)
                  (pinged http urls texts decoder network json laws s))))
          (pinged_same http urls texts decoder network json laws s).0
          (use_token-thrown n m
            (pinged http urls texts decoder network json laws s).response_builder t _ e))

  -- Where the identity server answers with a status that is no success, the empty text is parsed,
  -- and the exception of the parser leaves `generate_token`: there is no response.
  pub token_refused :
      (r : R) (e : Exception) (s : WriterProxy B U)
      → is_unset (urls.port s.isendpoint_) ≡ false
      → Delivers decoder (identity_peer http urls texts decoder network json laws s) r
      → http.is_successful r ≡ false
      → json.parse "" ≡ raise e
      → (t : WriterProxy B U) × (generate_token http urls texts decoder network json s
          ≡ some (raise e, t))
  unfolding use_token
  token_refused r e s set v bad empty = (
    asked http urls texts decoder network s.isendpoint_ (identity_request urls texts s)
        (pinged http urls texts decoder network json laws s),
    rw (generate_token_lem http urls texts decoder network json laws s) (
        rw
          (request_reply-Delivers http urls texts decoder network s.isendpoint_ _
            (pinged http urls texts decoder network json laws s) r set v)
          (rw bad (rw (empty, use_token)))),
  )

  -- What the identity server's answer gives: how long the token lasts, and the token.
  pub record Grants (r : R) (expires : ℤ) (token : String) : Type 0 where
    pub successful : http.is_successful r ≡ true
    pub object : J
    pub parses : json.parse (http.body r) ≡ ok object
    pub lasts : json.json_int object "expires_in" ≡ ok expires
    pub has_token : json.json_str object "access_token" ≡ ok token

  give-Gives :
      (credentials : String) (t : WriterProxy B U)
      → Gives http urls texts decoder network json laws 200
          (body_of t.response_builder <> credentials)
          (give_credentials http urls texts decoder network (replied credentials, t))
  unfolding give_credentials
  give-Gives credentials t =
      let c = http.message "OK" (http.code 200 t.response_builder) in
      let d = http.append_body credentials c in
      (
        http.build d,
        t,
        refl,
        laws.status-build d
            ∙ (laws.status-append_body _ c ∙ (laws.status-message _ _ ∙ laws.status-code 200 _)),
        laws.body-build d
            ∙ (laws.body-append_body _ c
                ∙ ap (λ x. x <> credentials) (laws.body-message _ _ ∙ laws.body-code 200 _)),
      )

  body_of-asked :
      (endpoint : U) (request : OutRequest U) (s : WriterProxy B U)
      → body_of (asked http urls texts decoder network endpoint request s).response_builder
        ≡ body_of s.response_builder
  body_of-asked endpoint request s = laws.body-message _ _ ∙ laws.body-code 504 _

  -- The exchange with MinIO.
  assume_role-Gives :
      (r' : R) (j : J) (expires : ℤ) (token : String) (s : WriterProxy B U)
      → json.json_int j "expires_in" ≡ ok expires
      → json.json_str j "access_token" ≡ ok token
      → is_unset (urls.port s.minioendpoint_) ≡ false
      → Delivers decoder (minio_peer http urls texts decoder network json laws expires token s) r'
      → Gives http urls texts decoder network json laws 200
          (body_of s.response_builder <> content http decoder r')
          (assume_role http urls texts decoder network json j s)
  unfolding assume_role
  assume_role-Gives r' j expires token s h k set v =
      let request = minio_request urls texts (int_to_string expires) token s in
      rw (h, assume_role)
        (rw (k, assume_role)
          (rw
            (request_reply-Delivers http urls texts decoder network s.minioendpoint_ request s r'
              set v)
            (rw (← body_of-asked s.minioendpoint_ request s) (give-Gives _ _))))

  -- The proxy when it has the token.
  holding : WriterProxy B U → WriterProxy B U
  holding s =
      asked http urls texts decoder network s.isendpoint_ (identity_request urls texts s)
        (pinged http urls texts decoder network json laws s)

  holding_same :
      (s : WriterProxy B U)
      → (body_of (holding s).response_builder ≡ body_of s.response_builder)
        × ((holding s).minioendpoint_ ≡ s.minioendpoint_)
  unfolding holding
  holding_same s =
      let (b, i, m, u, p) = pinged_same http urls texts decoder network json laws s in
      (
        body_of-asked s.isendpoint_ (identity_request urls texts s)
              (pinged http urls texts decoder network json laws s)
            ∙ ap body_of b,
        m,
      )

  minio_peer-holding :
      (expires : ℤ) (token : String) (s : WriterProxy B U)
      → minio_peer http urls texts decoder network json laws expires token (holding s)
        ≡ minio_peer http urls texts decoder network json laws expires token s
  unfolding minio_request
  minio_peer-holding expires token s = rw ((holding_same s).1)

  -- With the identity server's grant, MinIO is asked, and what it answers is passed on with 200: its
  -- body, or nothing where its status is no success.
  pub token_granted :
      (r r' : R) (expires : ℤ) (token : String) (s : WriterProxy B U)
      → is_unset (urls.port s.isendpoint_) ≡ false
      → Delivers decoder (identity_peer http urls texts decoder network json laws s) r
      → Grants r expires token
      → is_unset (urls.port s.minioendpoint_) ≡ false
      → Delivers decoder (minio_peer http urls texts decoder network json laws expires token s) r'
      → Gives http urls texts decoder network json laws 200
          (body_of s.response_builder <> content http decoder r')
          (generate_token http urls texts decoder network json s)
  unfolding use_token holding
  token_granted r r' expires token s set v g set' v' =
      let (b, m) = holding_same s in
      rw (generate_token_lem http urls texts decoder network json laws s) (
        rw
          (request_reply-Delivers http urls texts decoder network s.isendpoint_ _
            (pinged http urls texts decoder network json laws s) r set v)
          (rw (g.successful) (
            rw (g.parses, use_token)
              (subst
                (λ x.
                  Gives http urls texts decoder network json laws 200 (x <> content http decoder r')
                    (assume_role http urls texts decoder network json g.object (holding s)))
                b
                (assume_role-Gives r' g.object expires token (holding s) g.lasts g.has_token
                  (rw m set')
                  (subst (λ x. Delivers decoder x r') (sym (minio_peer-holding expires token s))
                    v'))))))
