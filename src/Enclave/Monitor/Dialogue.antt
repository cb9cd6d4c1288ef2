-- ===== src/Enclave/Monitor/Dialogue.antt =====
-- A call of `ecall_tls_recv` of the access monitor carries its dialogue with the clients on.
use mathlib.Core.List.{append-nil, append_assoc}
use anonym_sharing.Base.{
  if_ind, true, false, ℕ, suc, ◌≡◌, refl, sym, subst, List, [], ◌∷◌, ◌++◌, Option, none, some,
  Result, ok, raise, ℤ, Bool, pos, negsuc, Option-cases, inl, inr, String,
}
use anonym_sharing.Std.Order.{Bytes}
use anonym_sharing.Platform.{JsonLib, Crypto, Request, Response}
use anonym_sharing.Service.Server.{process_input}
use anonym_sharing.Tls.{Tls, handshake, Read, ecall_tls_recv, add_connection}
use anonym_sharing.Enclave.{
  RequestDecoder, DecoderLaws, Served, replace, accept, decoders_after, text_of,
}
use anonym_sharing.Enclave.Order.{settle}
use anonym_sharing.Enclave.Dialogue.{
  Dialogue, Occurrence, dials, arrives, connects, refuses, Whenever, settled, replace-old,
  hears_here, answers_here, take_input-Whenever,
}
use anonym_sharing.Enclave.Monitor.{Monitor, Enclave, handle, catch_input, feed, feed_all, deliver}
use anonym_sharing.EventLoop.Heard.{from}

module _ {J D : Type 0} (json : JsonLib J) (crypto : Crypto) (decoder : RequestDecoder D)
    (laws : DecoderLaws D decoder) (to_string : Response → String) where
  -- What is served after `process_input` of AnonymBE was given the request.
  abbrev pub IsReply : Request → Served Monitor → Served Monitor → Type 0
  IsReply r s t =
      let (answer, after, drawn) = process_input json crypto r s.service.0 s.service.1 in
      t ≡ settled to_string answer (after, drawn) s

  module _ (ds₀ : ℕ → D) (s₀ : Served Monitor) where
    abbrev pub Said : List Occurrence → (ℕ → D) → Served Monitor → Type 0
    Said = Dialogue decoder IsReply ds₀ s₀

    settle-settled :
        (x : Result Response) (u : Monitor) (s : Served Monitor)
        → settle decoder (handle json crypto decoder laws to_string) (text_of to_string x, u) s
          ≡ settled to_string x u s
    settle-settled (ok r) u s = refl
    settle-settled (raise e) u s = refl

    handle-Said :
        (log : List Occurrence) (ds : ℕ → D) (fd : ℕ) (r : Request) (d e : D) (s : Served Monitor)
        → decoder.get_request d ≡ some (r, e)
        → Said log (replace decoder fd d ds) s
        → Whenever
            (λ x.
              Said log
                (replace decoder fd e ds)
                (settle decoder (handle json crypto decoder laws to_string) x s))
            (handle json crypto decoder laws to_string r s.service)
    unfolding handle
    handle-Said log ds fd r d e s q p =
        let (answer, after, drawn) = process_input json crypto r s.service.0 s.service.1 in
        answers_here decoder IsReply ds₀ s₀ log ds s fd d r e _ q
          (settle-settled answer (after, drawn) s) p

    feed-Said :
        (log : List Occurrence) (ds : ℕ → D) (fd : ℕ) (input : Bytes) (d : D) (s : Served Monitor)
        → Said log (replace decoder fd d ds) s
        → Whenever
            (λ x. Said (log ++ arrives fd input ∷ []) (replace decoder fd x.0 ds) x.1)
            (feed json crypto decoder laws to_string input d s)
    unfolding feed catch_input
    feed-Said log ds fd input d s p = caught _ (
        take_input-Whenever decoder (handle json crypto decoder laws to_string)
          (λ e t. Said heard (replace decoder fd e ds) t) (handle-Said heard ds fd)
          (suc (laws.held (decoder.add_chunk input d).1)) input d s
          (hears_here decoder IsReply ds₀ s₀ log ds s fd d input p))
      where
        heard : List Occurrence
        heard = log ++ arrives fd input ∷ []

        caught :
            (r : Option (Result (Unit {0}) × D × Served Monitor))
            → Whenever (λ x. Said (log ++ arrives fd input ∷ []) (replace decoder fd x.1 ds) x.2) r
            → Whenever
                (λ x. Said (log ++ arrives fd input ∷ []) (replace decoder fd x.0 ds) x.1)
                (catch_input json crypto decoder laws to_string r)
        caught none h = tt
        caught (some r) h = h

    feed_all-Said :
        (log : List Occurrence) (ds : ℕ → D) (fd : ℕ) (chunks : List Bytes) (d : D)
        (s : Served Monitor)
        → Said log (replace decoder fd d ds) s
        → Whenever
            (λ x. Said (log ++ from fd chunks) (replace decoder fd x.0 ds) x.1)
            (feed_all json crypto decoder laws to_string chunks d s)
    unfolding feed_all
    feed_all-Said log ds fd [] d s p =
        subst (λ l. Said l (replace decoder fd d ds) s) (sym (append-nil log)) p
    feed_all-Said log ds fd (c ∷ cs) d s p =
        let kept = feed-Said log ds fd c d s p in
        elim (Option-cases (feed json crypto decoder laws to_string c d s)) [
          | inl e ↦ rw (e, feed_all) tt
          | inr ((d', s'), e) ↦
              rw (e, feed_all)
                (subst
                  (λ l.
                    Whenever (λ x. Said l (replace decoder fd x.0 ds) x.1)
                      (feed_all json crypto decoder laws to_string cs d' s'))
                  (append_assoc log (arrives fd c ∷ []) (from fd cs))
                  (feed_all-Said (log ++ arrives fd c ∷ []) ds fd cs d' s' (
                    subst
                      (Whenever
                        (λ x. Said (log ++ arrives fd c ∷ []) (replace decoder fd x.0 ds) x.1))
                      e kept)))
        ]

    pub deliver-Said :
        (log : List Occurrence) (fd : ℕ) (reads : List Read) (m : Enclave D) (r : Option ℤ)
        (m' : Enclave D)
        → Said log m.decoders m.served
        → deliver json crypto decoder laws to_string fd reads m ≡ some (r, m')
        → Said (log ++ from fd (ecall_tls_recv fd reads m.tls).chunks) m'.decoders m'.served
    unfolding deliver
    deliver-Said log fd reads m r m' p q =
        let h = ecall_tls_recv fd reads m.tls in
        let kept =
          feed_all-Said log m.decoders fd h.chunks (m.decoders fd) m.served
            (subst (λ ds. Said log ds m.served) (sym (replace-old decoder fd m.decoders)) p) in
        let Q = Whenever (λ x. Said (log ++ from fd h.chunks) x.1.decoders x.1.served) in
        subst Q q
          (elim (Option-cases
            (feed_all json crypto decoder laws to_string h.chunks (m.decoders fd) m.served)) [
              | inl e ↦ rw (e, deliver) tt
              | inr ((d, s), e) ↦
                  rw (e, deliver)
                    (subst
                      (Whenever (λ x.
                        Said (log ++ from fd h.chunks) (replace decoder fd x.0 m.decoders) x.1))
                      e kept)
            ])

    pub accept-Said :
        (log : List Occurrence) (fd : ℕ) (b : Bool) (m : Enclave D)
        → Said log m.decoders m.served
        → Said
            (log ++ dials fd b ∷ [])
            (accept decoder fd b m).1.decoders
            (accept decoder fd b m).1.served
    unfolding accept decoders_after add_connection handshake
    accept-Said log fd false m p =
        if_ind
          (λ (x : ℤ × Tls).
            Said (log ++ dials fd false ∷ []) (decoders_after decoder x.0 fd m.decoders) m.served)
          m.tls.ssl_ctx (refuses fd false p) (refuses fd false p)
    accept-Said log fd true m p = opened (add_connection fd true m.tls).0
      where
        opened :
            (r : ℤ)
            → Said (log ++ dials fd true ∷ []) (decoders_after decoder r fd m.decoders) m.served
        opened (pos n) = connects fd p
        opened (negsuc n) = refuses fd true p
