-- ===== src/Enclave/Writer/Dialogue.antt =====
-- A call of `ecall_tls_recv` of the writer proxy carries its dialogue with the clients on.
use mathlib.Core.Option.{some-injective}
use mathlib.Core.List.{append-nil, append_assoc}
use anonym_sharing.Base.{
  if_ind, true, ℕ, ◌≡◌, refl, sym, ap, ◌∙◌, subst, String, Bool, false, List, [], ◌∷◌, ◌++◌, Option,
  some, Result, ok, raise, ℤ, pos, negsuc, Option-cases, inl, inr,
}
use anonym_sharing.Std.Order.{Bytes}
use anonym_sharing.Platform.{JsonLib, Request}
use anonym_sharing.Tls.{Tls, handshake, Read, ecall_tls_recv, add_connection}
use anonym_sharing.Proxy.{WriterProxy}
use anonym_sharing.Proxy.Libs.{UrlLib, HttpLib, HttpLaws, TextLib, ResponseDecoder, Network, Minio}
use anonym_sharing.Proxy.Server.{treat_request}
use anonym_sharing.Proxy.Kept.{Keeps, Bare}
use anonym_sharing.Proxy.Memory.{asks_token, treat_request-Keeps, treat_request-Bare}
use anonym_sharing.Enclave.{RequestDecoder, DecoderLaws, Served, replace, accept, decoders_after}
use anonym_sharing.Enclave.Order.{settle}
use anonym_sharing.Enclave.Dialogue.{
  Dialogue, Occurrence, dials, arrives, connects, refuses, Whenever, settled, replace-old,
  hears_here, answers_here,
}
use anonym_sharing.Enclave.Writer.{treat}
use anonym_sharing.Enclave.Writer.Calls.{
  WriterEnclave, deliver, going_on, Ended, returns, waits, terminated,
}
use anonym_sharing.Enclave.Writer.Reachable.{Ends, deliver-Ends}
use anonym_sharing.EventLoop.Heard.{from}

module _ {B U R D J Q : Type 0} (http : HttpLib B R) (http_laws : HttpLaws B R http)
    (urls : UrlLib U) (texts : TextLib U) (decoder : ResponseDecoder D R) (network : Network)
    (json : JsonLib J) (minio : Minio) (requests : RequestDecoder Q) (laws : DecoderLaws Q requests)
    (to_string : R → String) (attempts : ℕ) (body : String) where
  open http_laws use {body_of}

  -- A response that has this body.
  abbrev pub IsBare : Result R → Type 0
  IsBare (ok response) = http.body response ≡ body
  IsBare (raise e) = Unit {0}

  -- What is served after `treat_request` was given the request, where a response has this body unless
  -- the request asks for a token.
  pub record IsReply (r : Request) (s t : Served (WriterProxy B U)) : Type 0 where
    pub result : Result R
    pub after : WriterProxy B U
    pub treated :
        treat_request http urls texts decoder network json minio attempts r s.service
        ≡ some (result, after)
    pub changed : t ≡ settled to_string result after s
    pub bare : asks_token r ≡ false → IsBare result

  module _ (ds₀ : ℕ → Q) (s₀ : Served (WriterProxy B U)) where
    abbrev pub Said : List Occurrence → (ℕ → Q) → Served (WriterProxy B U) → Type 0
    Said = Dialogue requests IsReply ds₀ s₀

    -- The dialogue, and the shared builder has this body.
    abbrev pub Talked : List Occurrence → (ℕ → Q) → Served (WriterProxy B U) → Type 0
    Talked log ds s = (body_of s.service.response_builder ≡ body) × Said log ds s

    treat-Talked :
        (log : List Occurrence) (ds : ℕ → Q) (fd : ℕ) (r : Request) (d e : Q)
        (s : Served (WriterProxy B U))
        → requests.get_request d ≡ some (r, e)
        → Talked log (replace requests fd d ds) s
        → Whenever
            (λ x. Talked log (replace requests fd e ds) (
              settle requests
                (treat http urls texts decoder network json minio requests laws to_string attempts)
                x
                s))
            (treat http urls texts decoder network json minio requests laws to_string attempts r
              s.service)
    unfolding treat
    treat-Talked log ds fd r d e s g (clean, p) =
        let a = treat_request http urls texts decoder network json minio attempts r s.service in
        let kept : Keeps http http_laws body a =
          treat_request-Keeps http http_laws urls texts decoder network json minio attempts r body
            s.service clean in
        elim (Option-cases a) [
          | inl q ↦ rw (q, treat) tt
          | inr ((raise x, t), q) ↦
              rw (q, treat)
                (
                  subst (Keeps http http_laws body) q kept,
                  answers_here requests IsReply ds₀ s₀ log ds s fd d r e _ g
                      (record {
                        result = raise x;
                        after = t;
                        treated = q;
                        changed = refl;
                        bare = λ other. tt;
                      })
                      p,
                )
          | inr ((ok response, t), q) ↦
              rw (q, treat)
                (
                  subst (Keeps http http_laws body) q kept,
                  answers_here requests IsReply ds₀ s₀ log ds s fd d r e _ g
                      (record {
                        result = ok response;
                        after = t;
                        treated = q;
                        changed = refl;
                        bare = λ other.
                            (subst (Bare http http_laws body) q (
                              treat_request-Bare http http_laws urls texts decoder network json
                                minio attempts r body s.service clean other)).0;
                      })
                      p,
                )
        ]

    deliver_ends :
        (log : List Occurrence) (fd : ℕ) (reads : List Read) (m : WriterEnclave B U Q)
        → Talked log m.decoders m.served
        → let h = ecall_tls_recv fd reads m.tls in
          Ends
            (λ x.
              (d : Q) × Talked
                (log ++ from fd h.chunks)
                (replace requests fd d m.decoders)
                x.1.served
              × (x.1.decoders ≡ replace requests fd d m.decoders)
              × (x.1.tls ≡ h.tls))
            (deliver http urls texts decoder network json minio requests laws to_string attempts fd
              reads m)
    deliver_ends log fd reads m (clean, p) =
        deliver-Ends http urls texts decoder network json minio requests laws to_string attempts
          (λ cs d s. Talked (log ++ from fd cs) (replace requests fd d m.decoders) s)
          (λ cs c d s t. (
            t.0,
            subst (λ l. Said l (replace requests fd (requests.add_chunk c d).1 m.decoders) s)
                (append_assoc log (from fd cs) (arrives fd c ∷ [])
                  ∙ ap (λ l. log ++ l) (from-append cs c))
                (hears_here requests IsReply ds₀ s₀ (log ++ from fd cs) m.decoders s fd d c t.1),
          ))
          (λ cs r d e s q t. treat-Talked (log ++ from fd cs) m.decoders fd r d e s q t) fd reads m
          (
            clean,
            subst (λ l. Said l (replace requests fd (m.decoders fd) m.decoders) m.served)
                (sym (append-nil log))
                (subst (λ ds. Said log ds m.served) (sym (replace-old requests fd m.decoders)) p),
          )
      where
        from-append :
            (cs : List Bytes) (c : Bytes) → from fd cs ++ arrives fd c ∷ [] ≡ from fd (cs ++ c ∷ [])
        from-append [] c = refl
        from-append (x ∷ cs) c = ap (λ l. arrives fd x ∷ l) (from-append cs c)

    pub deliver-Said :
        (log : List Occurrence) (fd : ℕ) (reads : List Read) (m : WriterEnclave B U Q)
        (r : Option ℤ) (m' : WriterEnclave B U Q)
        → Talked log m.decoders m.served
        → going_on http urls texts decoder network json minio requests laws to_string attempts (
            deliver http urls texts decoder network json minio requests laws to_string attempts fd
              reads m)
          ≡ some (r, m')
        → Talked (log ++ from fd (ecall_tls_recv fd reads m.tls).chunks) m'.decoders m'.served
    deliver-Said log fd reads m r m' p q = ended _ (deliver_ends log fd reads m p) q
      where
        ended :
            (x : Ended (Option ℤ × WriterEnclave B U Q))
            → let h = ecall_tls_recv fd reads m.tls in
              Ends
                (λ x.
                  (d : Q) × Talked
                    (log ++ from fd h.chunks)
                    (replace requests fd d m.decoders)
                    x.1.served
                  × (x.1.decoders ≡ replace requests fd d m.decoders)
                  × (x.1.tls ≡ h.tls))
                x
              → going_on http urls texts decoder network json minio requests laws to_string attempts
                  x
                ≡ some (r, m')
              → Talked (log ++ from fd (ecall_tls_recv fd reads m.tls).chunks) m'.decoders m'.served
        ended (returns (_, n)) (d, t, e, table) q =
            subst
              (λ n.
                Talked (log ++ from fd (ecall_tls_recv fd reads m.tls).chunks) n.decoders n.served)
              (ap (λ z. z.1) (some-injective _ _ q))
              (
                t.0,
                subst
                    (λ ds. Said (log ++ from fd (ecall_tls_recv fd reads m.tls).chunks) ds n.served)
                    (sym e) t.1,
              )
        ended waits h q = absurd (cc)
        ended terminated h q = absurd (cc)

    pub accept-Said :
        (log : List Occurrence) (fd : ℕ) (b : Bool) (m : WriterEnclave B U Q)
        → Talked log m.decoders m.served
        → Talked
            (log ++ dials fd b ∷ [])
            (accept requests fd b m).1.decoders
            (accept requests fd b m).1.served
    unfolding accept decoders_after add_connection handshake
    accept-Said log fd false m (clean, p) = (
      clean,
      if_ind
          (λ (x : ℤ × Tls).
            Said (log ++ dials fd false ∷ []) (decoders_after requests x.0 fd m.decoders) m.served)
          m.tls.ssl_ctx (refuses fd false p) (refuses fd false p),
    )
    accept-Said log fd true m (clean, p) = (clean, opened (add_connection fd true m.tls).0)
      where
        opened :
            (r : ℤ)
            → Said (log ++ dials fd true ∷ []) (decoders_after requests r fd m.decoders) m.served
        opened (pos n) = connects fd p
        opened (negsuc n) = refuses fd true p
