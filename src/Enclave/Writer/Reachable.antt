-- ===== src/Enclave/Writer/Reachable.antt =====
-- What the calls into the writer proxy's enclave keep: what the requests keep.
use anonym_sharing.Base.{
  ℕ, suc, ◌≡◌, refl, subst, String, List, [], ◌∷◌, ◌++◌, sym, Option, none, some, Result, ok, raise,
  unknown, out_of_range, parse_error, type_error, invalid_argument, logic_error, std_exception, ◌⊎◌,
  inl, inr,
}
use mathlib.Core.List.{append-nil, append_assoc}
use anonym_sharing.Enclave.Dialogue.{Whenever, take_input-Whenever}
use anonym_sharing.Std.Order.{Bytes}
use anonym_sharing.Platform.{JsonLib, Request}
use anonym_sharing.Tls.{Read, ecall_tls_recv}
use anonym_sharing.Proxy.{WriterProxy}
use anonym_sharing.Proxy.Libs.{UrlLib, HttpLib, TextLib, ResponseDecoder, Network, Minio}
use anonym_sharing.Enclave.{RequestDecoder, DecoderLaws, Served, replace}
use anonym_sharing.Enclave.Order.{settle}
use anonym_sharing.Enclave.Writer.{process_chunk, treat, catch_std, caught}
use anonym_sharing.Enclave.Writer.Calls.{
  WriterEnclave, Ended, returns, waits, terminated, feed, feed_all, deliver, ended,
}

abbrev pub Ends : {A : Type 0} → (A → Type 0) → Ended A → Type 0
Ends P (returns a) = P a
Ends P waits = Unit {0}
Ends P terminated = Unit {0}

Ended-cases :
    {A : Type 0} (x : Ended A) → ((x ≡ waits) ⊎ (x ≡ terminated)) ⊎ ((a : A) × (x ≡ returns a))
Ended-cases waits = inl (inl refl)
Ended-cases terminated = inl (inr refl)
Ended-cases (returns a) = inr (a, refl)

module _ {B U R D J Q : Type 0} (http : HttpLib B R) (urls : UrlLib U) (texts : TextLib U)
    (decoder : ResponseDecoder D R) (network : Network) (json : JsonLib J) (minio : Minio)
    (requests : RequestDecoder Q) (laws : DecoderLaws Q requests) (to_string : R → String)
    (attempts : ℕ) where
  -- What holds after the chunks that a call has read so far.
  module _ (P : List Bytes → Q → Served (WriterProxy B U) → Type 0)
      (hears : (cs : List Bytes) (c : Bytes) (d : Q) (s : Served (WriterProxy B U))
        → P cs d s
        → P (cs ++ c ∷ []) (requests.add_chunk c d).1 s)
      (keeps : (cs : List Bytes) (r : Request) (d e : Q) (s : Served (WriterProxy B U))
        → requests.get_request d ≡ some (r, e)
        → P cs d s
        → Whenever
            (λ x. P cs e (
              settle requests
                (treat http urls texts decoder network json minio requests laws to_string attempts)
                x
                s))
            (treat http urls texts decoder network json minio requests laws to_string attempts r
              s.service)) where
    ends :
        (cs : List Bytes) (x : Option (Result (Unit {0}) × Q × Served (WriterProxy B U)))
        → Whenever (λ y. P cs y.1 y.2) x
        → Ends
            (λ y. P cs y.0 y.1)
            (ended http urls texts decoder network json minio requests laws to_string attempts (
              caught http urls texts decoder network json minio requests laws to_string attempts x))
    unfolding catch_std
    ends cs none h = tt
    ends cs (some (ok x, d, s)) h = h
    ends cs (some (raise (out_of_range w), d, s)) h = h
    ends cs (some (raise (parse_error w), d, s)) h = h
    ends cs (some (raise (type_error w), d, s)) h = h
    ends cs (some (raise (invalid_argument w), d, s)) h = h
    ends cs (some (raise (logic_error w), d, s)) h = h
    ends cs (some (raise (std_exception w), d, s)) h = h
    ends cs (some (raise unknown, d, s)) h = tt

    feed-Ends :
        (cs : List Bytes) (input : Bytes) (d : Q) (s : Served (WriterProxy B U))
        → P cs d s
        → Ends
            (λ y. P (cs ++ input ∷ []) y.0 y.1)
            (feed http urls texts decoder network json minio requests laws to_string attempts input
              d s)
    unfolding feed process_chunk
    feed-Ends cs input d s p = ends (cs ++ input ∷ []) _ (
        take_input-Whenever requests
          (treat http urls texts decoder network json minio requests laws to_string attempts)
          (P (cs ++ input ∷ [])) (keeps (cs ++ input ∷ []))
          (suc (laws.held (requests.add_chunk input d).1)) input d s (hears cs input d s p))

    feed_all-Ends :
        (before chunks : List Bytes) (d : Q) (s : Served (WriterProxy B U))
        → P before d s
        → Ends
            (λ y. P (before ++ chunks) y.0 y.1)
            (feed_all http urls texts decoder network json minio requests laws to_string attempts
              chunks d s)
    unfolding feed_all
    feed_all-Ends before [] d s p = subst (λ cs. P cs d s) (sym (append-nil before)) p
    feed_all-Ends before (c ∷ cs) d s p =
        let kept = feed-Ends before c d s p in
        let x =
          feed http urls texts decoder network json minio requests laws to_string attempts c d s in
        elim (Ended-cases x) [
          | inl (inl e) ↦ rw (e, feed_all) tt
          | inl (inr e) ↦ rw (e, feed_all) tt
          | inr ((d', s'), e) ↦
              rw (e, feed_all)
                (subst
                  (λ l.
                    Ends (λ y. P l y.0 y.1)
                      (feed_all http urls texts decoder network json minio requests laws to_string
                        attempts cs d' s'))
                  (append_assoc before (c ∷ []) cs)
                  (feed_all-Ends (before ++ c ∷ []) cs d' s'
                    (subst (Ends (λ y. P (before ++ c ∷ []) y.0 y.1)) e kept)))
        ]

    -- A call of `ecall_tls_recv` that returns keeps what the chunks and the requests keep, has changed
    -- the decoder of its descriptor only, and leaves the table that the reads leave.
    pub deliver-Ends :
        (fd : ℕ) (reads : List Read) (m : WriterEnclave B U Q)
        → P [] (m.decoders fd) m.served
        → let h = ecall_tls_recv fd reads m.tls in
          Ends
            (λ x.
              (d : Q) × P h.chunks d x.1.served
              × (x.1.decoders ≡ replace requests fd d m.decoders)
              × (x.1.tls ≡ h.tls))
            (deliver http urls texts decoder network json minio requests laws to_string attempts fd
              reads m)
    unfolding deliver
    deliver-Ends fd reads m p =
        let h = ecall_tls_recv fd reads m.tls in
        let kept = feed_all-Ends [] h.chunks (m.decoders fd) m.served p in
        let x =
          feed_all http urls texts decoder network json minio requests laws to_string attempts
            h.chunks (m.decoders fd) m.served in
        elim (Ended-cases x) [
          | inl (inl e) ↦ rw (e, deliver) tt
          | inl (inr e) ↦ rw (e, deliver) tt
          | inr ((d, s), e) ↦
              rw (e, deliver) (d, subst (Ends (λ y. P h.chunks y.0 y.1)) e kept, refl, refl)
        ]
