-- ===== src/Enclave/Order.antt =====
-- The requests of a connection are answered one by one, in order.
use mathlib.Core.List.{append-nil, append_assoc}
use anonym_sharing.Base.{
  Result, refl, ℕ, zero, suc, ◌+◌, ◌%◌, ◌^◌, ◌<◌, ◌≡◌, sym, subst, ap, ◌∙◌, arith, String, List, [],
  ◌∷◌, ◌++◌, Option, none, some, ok, raise, Exception, length, Option-cases, inl, inr,
}
use anonym_sharing.Platform.{Request}
use anonym_sharing.Enclave.{
  RequestDecoder, DecoderLaws, Served, Handler, count, send_text, request_loop,
}

-- A call that returns, and whose result satisfies P.
abbrev pub Returns : {A : Type 0} → (A → Type 0) → Option A → Type 0
Returns P none = ⊥
Returns P (some a) = P a

module _ {D S : Type 0} (decoder : RequestDecoder D) (handle : Handler S) where
  open decoder use {get_request}

  -- What is counted and sent for a request that the service has answered so.
  abbrev pub settle : Result String × S → Served S → Served S
  settle (ok text, service) s = send_text decoder handle text service (count decoder handle s)
  settle (raise e, service) s = record (count decoder handle s) { service = service }

  pub settle-service : (x : Result String) (u : S) (s : Served S) → (settle (x, u) s).service ≡ u
  settle-service (ok text) u s = refl
  settle-service (raise e) u s = refl

  -- The decoder gives these requests, in this order, and is then the second one.
  abbrev pub Gives : D → List Request → D → Type 0
  Gives d [] e = d ≡ e
  Gives d (r ∷ rs) e = (d' : D) × (get_request d ≡ some (r, d')) × Gives d' rs e

  -- The service answers these requests with these texts, one after the other, and is then the
  -- second one.
  abbrev pub Answers : S → List Request → List String → S → Type 0
  Answers s [] [] t = s ≡ t
  Answers s [] (x ∷ xs) t = ⊥
  Answers s (r ∷ rs) [] t = ⊥
  Answers s (r ∷ rs) (x ∷ xs) t = (u : S) × (handle r s ≡ some (ok x, u)) × Answers u rs xs t

  -- The server's state after such answers.
  abbrev pub after : List Request → List String → S → Served S → Served S
  after rs xs t s = record {
    service = t;
    received = (s.received + length rs) % 2 ^ 64;
    sent = s.sent ++ xs;
  }

  after-nil : (s : Served S) → s.received < 2 ^ 64 → after [] [] s.service s ≡ s
  after-nil s h =
      λ i. record { service = s.service; received = received i; sent = append-nil s.sent i }
    where
      received : (s.received + 0) % 2 ^ 64 ≡ s.received
      received = omega arith

  after-cons :
      (r : Request) (rs : List Request) (x : String) (xs : List String) (u t : S) (s : Served S)
      → after rs xs t (send_text decoder handle x u (count decoder handle s))
        ≡ after (r ∷ rs) (x ∷ xs) t s
  after-cons r rs x xs u t s =
      λ i. record { service = t; received = received i; sent = append_assoc s.sent (x ∷ []) xs i }
    where
      received :
          ((s.received + 1) % 2 ^ 64 + length rs) % 2 ^ 64 ≡ (s.received + suc (length rs)) % 2 ^ 64
      received = omega arith

  module _ (laws : DecoderLaws D decoder) where
    open laws use {held, consumes}

    -- The loop after some requests that were answered.
    loop-Answers :
        (rs : List Request) (xs : List String) (fuel : ℕ) (d e : D) (t : S) (s : Served S)
        → s.received < 2 ^ 64
        → held d < fuel
        → Gives d rs e
        → Answers s.service rs xs t
        → (rest : ℕ) × (held e < rest)
          × (request_loop decoder handle fuel d s
              ≡ request_loop decoder handle rest e (after rs xs t s))
    unfolding request_loop
    loop-Answers [] [] fuel d e t s b h g a =
        (fuel, subst (λ x. held x < fuel) g h, λ i. request_loop decoder handle fuel (g i) (same i))
      where
        same : s ≡ after [] [] t s
        same = sym (ap (λ x. after [] [] x s) (sym a) ∙ after-nil s b)
    loop-Answers [] (x ∷ xs) fuel d e t s b h g a = absurd a
    loop-Answers (r ∷ rs) [] fuel d e t s b h g a = absurd a
    loop-Answers (r ∷ rs) (x ∷ xs) zero d e t s b h g a = absurd (omega arith)
    loop-Answers (r ∷ rs) (x ∷ xs) (suc fuel) d e t s b h (d', p, g) (u, q, a) =
        let next = send_text decoder handle x u (count decoder handle s) in
        let (rest, m, eq) =
          loop-Answers rs xs fuel d' e t next (omega arith) (omega (arith, consumes d d' r p)) g
            a in
        (
          rest,
          m,
          rw (p, request_loop)
              (rw (q, request_loop)
                (eq ∙ ap (request_loop decoder handle rest e) (after-cons r rs x xs u t s))),
        )

    -- If the decoder gives some requests and then no further one, and the service answers each of
    -- them with a text, from the service as the request before has left it: the loop ends without
    -- an exception, the texts are sent in the order of the requests, behind those before, the
    -- requests are counted (modulo 2^64), and service and decoder are as the last request has left
    -- them. (The fuel is more than the decoder holds.)
    pub request_loop-Answers :
        (rs : List Request) (xs : List String) (fuel : ℕ) (d e : D) (t : S) (s : Served S)
        → s.received < 2 ^ 64
        → held d < fuel
        → Gives d rs e
        → get_request e ≡ none
        → Answers s.service rs xs t
        → request_loop decoder handle fuel d s ≡ some (ok tt, e, after rs xs t s)
    unfolding request_loop
    request_loop-Answers rs xs fuel d e t s b h g end a =
        let (rest, m, eq) = loop-Answers rs xs fuel d e t s b h g a in eq ∙ drained rest m
      where
        drained :
            (rest : ℕ)
            → held e < rest
            → request_loop decoder handle rest e (after rs xs t s)
              ≡ some (ok tt, e, after rs xs t s)
        drained zero m = absurd (omega arith)
        drained (suc rest) m = rw (end, request_loop)

    -- An exception at one request ends the loop: what was answered before was sent, nothing is sent for
    -- that request, and those after it stay in the decoder.
    pub request_loop_raises :
        (rs : List Request) (xs : List String) (r : Request) (x : Exception) (fuel : ℕ) (d e f : D)
        (t u : S) (s : Served S)
        → s.received < 2 ^ 64
        → held d < fuel
        → Gives d rs e
        → Answers s.service rs xs t
        → get_request e ≡ some (r, f)
        → handle r t ≡ some (raise x, u)
        → request_loop decoder handle fuel d s
          ≡ some (raise x, f, record (count decoder handle (after rs xs t s)) { service = u })
    unfolding request_loop
    request_loop_raises rs xs r x fuel d e f t u s b h g a p q =
        let (rest, m, eq) = loop-Answers rs xs fuel d e t s b h g a in eq ∙ stops rest m
      where
        stops :
            (rest : ℕ)
            → held e < rest
            → request_loop decoder handle rest e (after rs xs t s)
              ≡ some (raise x, f, record (count decoder handle (after rs xs t s)) { service = u })
        stops zero m = absurd (omega arith)
        stops (suc rest) m = rw (p, request_loop) (rw (q, request_loop))

    -- If every request returns and keeps P, so does the loop.
    pub request_loop-Keeps :
        (P : Served S → Type 0) (fuel : ℕ) (d : D) (s : Served S)
        → ((r : Request) (t : Served S) → P t → Returns (λ x. P (settle x t)) (handle r t.service))
        → held d < fuel
        → P s
        → Returns (λ x. P x.2) (request_loop decoder handle fuel d s)
    unfolding request_loop
    request_loop-Keeps P zero d s keeps h p = absurd (omega arith)
    request_loop-Keeps P (suc fuel) d s keeps h p = elim (Option-cases (get_request d)) [
      | inl e ↦ rw (e, request_loop) p
      | inr ((r, d'), e) ↦
          let kept = keeps r s p in
          elim (Option-cases (handle r s.service)) [
            | inl q ↦ absurd (subst (Returns (λ x. P (settle x s))) q kept)
            | inr ((raise x, t), q) ↦
                rw (e, request_loop)
                  (rw (q, request_loop) (subst (Returns (λ x. P (settle x s))) q kept))
            | inr ((ok x, t), q) ↦
                rw (e, request_loop)
                  (rw (q, request_loop)
                    (request_loop-Keeps P fuel d'
                      (send_text decoder handle x t (count decoder handle s)) keeps
                      (omega (arith, consumes d d' r e))
                      (subst (Returns (λ x. P (settle x s))) q kept)))
          ]
    ]
