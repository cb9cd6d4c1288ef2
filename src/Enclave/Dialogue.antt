-- ===== src/Enclave/Dialogue.antt =====
-- What a server's clients and the server say, in order: connections that open, chunks that arrive,
-- and requests that the decoder of a connection gives, each with its answer.
use anonym_sharing.Base.{
  Bool, true, ℕ, zero, suc, ◌+◌, ◌%◌, ◌^◌, ◌≡◌, ap, ◌∙◌, subst, arith, String, List, [], ◌∷◌, ◌++◌,
  Option, none, some, Result, ok, raise, Option-cases, Result-cases, inl, inr,
}
use anonym_sharing.Std.Order.{Bytes}
use anonym_sharing.Platform.{Request}
use anonym_sharing.Enclave.{
  RequestDecoder, Served, Handler, replace, take_input, request_loop, count, send_text,
}
use anonym_sharing.Enclave.Order.{settle}

-- What holds of the result, if there is one.
abbrev pub Whenever : {A : Type 0} → (A → Type 0) → Option A → Type 0
Whenever P none = Unit {0}
Whenever P (some a) = P a

-- What is served after a request that was answered so: one request more, and the text of the
-- response, if there is one, after the texts before.
abbrev pub settled : {R S : Type 0} → (R → String) → Result R → S → Served S → Served S
settled to_string (ok response) u s = record {
  service = u;
  received = (s.received + 1) % 2 ^ 64;
  sent = s.sent ++ to_string response ∷ [];
}
settled to_string (raise e) u s = record {
  service = u;
  received = (s.received + 1) % 2 ^ 64;
  sent = s.sent;
}

-- What clients do: one tries to connect, and gets this descriptor, with the outcome of the handshake;
-- or a chunk of one arrives.
pub data Occurrence : Type 0 where
  dials : (fd : ℕ) (handshake : Bool) → Occurrence
  arrives : (fd : ℕ) (chunk : Bytes) → Occurrence

module _ {D S : Type 0} (decoder : RequestDecoder D)
    (IsAnswer : Request → Served S → Served S → Type 0) (decoders₀ : ℕ → D) (s₀ : Served S) where
  open decoder use {new_decoder, add_chunk, get_request}

  -- What clients did, the decoders, and what is served.
  pub data Dialogue : List Occurrence → (ℕ → D) → Served S → Type 0 where
    begins : Dialogue [] decoders₀ s₀
    connects :
        {log : List Occurrence} {ds : ℕ → D} {s : Served S} (fd : ℕ)
        → Dialogue log ds s
        → Dialogue (log ++ dials fd true ∷ []) (replace decoder fd new_decoder ds) s
    refuses :
        {log : List Occurrence} {ds : ℕ → D} {s : Served S} (fd : ℕ) (handshake : Bool)
        → Dialogue log ds s
        → Dialogue (log ++ dials fd handshake ∷ []) ds s
    hears :
        {log : List Occurrence} {ds : ℕ → D} {s : Served S} (fd : ℕ) (chunk : Bytes)
        → Dialogue log ds s
        → Dialogue
            (log ++ arrives fd chunk ∷ [])
            (replace decoder fd (add_chunk chunk (ds fd)).1 ds)
            s
    answers :
        {log : List Occurrence} {ds : ℕ → D} {s t : Served S} (fd : ℕ) (r : Request) (d : D)
        → get_request (ds fd) ≡ some (r, d)
        → IsAnswer r s t
        → Dialogue log ds s
        → Dialogue log (replace decoder fd d ds) t

module _ {D : Type 0} (decoder : RequestDecoder D) where
  replace-same : (fd : ℕ) (d : D) (ds : ℕ → D) → replace decoder fd d ds fd ≡ d
  replace-same fd d ds = ground arith

  replace-replace :
      (fd : ℕ) (d e : D) (ds : ℕ → D)
      → replace decoder fd d (replace decoder fd e ds) ≡ replace decoder fd d ds
  replace-replace fd d e ds = λ i k. pointwise k i
    where
      pointwise :
          (k : ℕ) → replace decoder fd d (replace decoder fd e ds) k ≡ replace decoder fd d ds k
      pointwise k = ground arith

  pub replace-old : (fd : ℕ) (ds : ℕ → D) → replace decoder fd (ds fd) ds ≡ ds
  replace-old fd ds = λ i k. pointwise k i
    where
      pointwise : (k : ℕ) → replace decoder fd (ds fd) ds k ≡ ds k
      pointwise k = ground arith

  module _ {S : Type 0} (IsAnswer : Request → Served S → Served S → Type 0) (decoders₀ : ℕ → D)
      (s₀ : Served S) (log : List Occurrence) (ds : ℕ → D) (s : Served S) (fd : ℕ) (d : D) where
    open decoder use {add_chunk, get_request}

    -- The rules for the connection that is read, whose decoder is kept apart.
    pub hears_here :
        (chunk : Bytes)
        → Dialogue decoder IsAnswer decoders₀ s₀ log (replace decoder fd d ds) s
        → Dialogue decoder IsAnswer decoders₀ s₀
            (log ++ arrives fd chunk ∷ [])
            (replace decoder fd (add_chunk chunk d).1 ds)
            s
    hears_here chunk p =
        subst (λ x. Dialogue decoder IsAnswer decoders₀ s₀ (log ++ arrives fd chunk ∷ []) x s)
          (replace-replace fd (add_chunk chunk d).1 d ds)
          (subst
            (λ x.
              Dialogue decoder IsAnswer decoders₀ s₀ (log ++ arrives fd chunk ∷ [])
                (replace decoder fd (add_chunk chunk x).1 (replace decoder fd d ds)) s)
            (replace-same fd d ds) (hears fd chunk p))

    pub answers_here :
        (r : Request) (e : D) (t : Served S)
        → get_request d ≡ some (r, e)
        → IsAnswer r s t
        → Dialogue decoder IsAnswer decoders₀ s₀ log (replace decoder fd d ds) s
        → Dialogue decoder IsAnswer decoders₀ s₀ log (replace decoder fd e ds) t
    answers_here r e t q a p =
        subst (λ x. Dialogue decoder IsAnswer decoders₀ s₀ log x t) (replace-replace fd e d ds)
          (answers fd r e (ap get_request (replace-same fd d ds) ∙ q) a p)

module _ {D S : Type 0} (decoder : RequestDecoder D) (handle : Handler S)
    (P : D → Served S → Type 0)
    (keeps : (r : Request) (d e : D) (s : Served S)
      → decoder.get_request d ≡ some (r, e)
      → P d s
      → Whenever (λ x. P e (settle decoder handle x s)) (handle r s.service)) where
  open decoder use {get_request, add_chunk}

  -- What the requests keep, the loop keeps.
  request_loop-Whenever :
      (fuel : ℕ) (d : D) (s : Served S)
      → P d s
      → Whenever (λ x. P x.1 x.2) (request_loop decoder handle fuel d s)
  unfolding request_loop
  request_loop-Whenever zero d s p = tt
  request_loop-Whenever (suc fuel) d s p = elim (Option-cases (get_request d)) [
    | inl e ↦ rw (e, request_loop) p
    | inr ((r, d'), e) ↦
        let kept = keeps r d d' s e p in
        let Q : Option (Result String × S) → Type 0 =
          Whenever (λ x. P d' (settle decoder handle x s)) in
        elim (Option-cases (handle r s.service)) [
          | inl q ↦ rw (e, request_loop) (rw (q, request_loop) tt)
          | inr ((raise x, t), q) ↦ rw (e, request_loop) (rw (q, request_loop) (subst Q q kept))
          | inr ((ok x, t), q) ↦
              rw (e, request_loop)
                (rw (q, request_loop)
                  (request_loop-Whenever fuel d'
                    (send_text decoder handle x t (count decoder handle s)) (subst Q q kept)))
        ]
  ]

  -- A chunk keeps what the requests keep.
  pub take_input-Whenever :
      (fuel : ℕ) (input : Bytes) (d : D) (s : Served S)
      → P (add_chunk input d).1 s
      → Whenever (λ x. P x.1 x.2) (take_input decoder handle fuel input d s)
  unfolding take_input
  take_input-Whenever fuel input d s p = elim (Result-cases (add_chunk input d).0) [
    | inl (x, e) ↦ rw (e, take_input) p
    | inr (u, e) ↦ rw (e, take_input) (request_loop-Whenever fuel (add_chunk input d).1 s p)
  ]
