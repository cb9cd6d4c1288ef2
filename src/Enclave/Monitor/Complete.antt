-- ===== src/Enclave/Monitor/Complete.antt =====
-- Every request that reaches the access monitor is answered.
use anonym_sharing.Base.{
  suc, ◌≡◌, ◌<◌, ◌^◌, refl, ap, arith, String, List, [], ◌∷◌, none, some, ok, raise, type_error,
  Exception, Result-cases, inl, inr, length,
}
use anonym_sharing.Std.Order.{Bytes}
use anonym_sharing.Platform.{KvString, JsonLib, Crypto, Request, Response, default_response}
use anonym_sharing.Service.{AskyError, no_error}
use anonym_sharing.Service.Server.{
  process_input, answer, catch_dump, positive_response, negative_response, Outcome, conclude,
  dispatch, begin, posrep, negrep,
}
use anonym_sharing.Enclave.{RequestDecoder, DecoderLaws, Served, take_input}
use anonym_sharing.Enclave.Order.{Gives, Answers, after, request_loop-Answers}
use anonym_sharing.Enclave.Monitor.{Monitor, handle, catch_input, feed}

-- nlohmann::json::dump throws nothing but a type_error, for a text that is not UTF-8.
pub record DumpLaw {J : Type 0} (json : JsonLib J) : Type 0 where
  pub dump_throws :
      (m : KvString) (e : Exception) → json.dump m ≡ raise e → (w : String) × (e ≡ type_error w)

module _ {J : Type 0} (json : JsonLib J) (crypto : Crypto) (law : DumpLaw json) where
  open json use {dump}

  -- An object to dump, and the response that is built from the text.
  dump_caught :
      (m : KvString) (build : String → Response)
      → (r : Response) × (catch_dump json crypto
            (elim (dump m) [ ok body ↦ ok (build body) | raise e ↦ raise e ])
          ≡ ok r)
  unfolding catch_dump
  dump_caught m build = elim (Result-cases (dump m)) [
    | inl (e, q) ↦ let (w, p) = law.dump_throws m e q in (default_response, rw (q, p))
    | inr (body, q) ↦ (build body, rw q)
  ]

  -- Every outcome of a request is answered.
  pub answered : (o : Outcome) → (r : Response) × (answer json crypto o ≡ ok r)
  unfolding answer positive_response negative_response
  answered o = reply o.error
    where
      reply :
          (e : AskyError) → (r : Response) × (answer json crypto (record o { error = e }) ≡ ok r)
      reply no_error = dump_caught _ posrep
      reply e = dump_caught _ negrep

  -- `process_input` of AnonymBE responds to these requests, one after the other, these are the texts
  -- of its responses, and the service is then the second one.
  abbrev pub Responds :
      (Response → String) → Monitor → List Request → List String → Monitor → Type 0
  Responds to_string m [] [] t = m ≡ t
  Responds to_string m [] (x ∷ xs) t = ⊥
  Responds to_string m (r ∷ rs) [] t = ⊥
  Responds to_string m (r ∷ rs) (x ∷ xs) t =
      (response : Response) × (u : Monitor) × (process_input json crypto r m.0 m.1
        ≡ (ok response, u.0, u.1))
      × (x ≡ to_string response)
      × Responds to_string u rs xs t

  -- The service answers any sequence of requests, one after the other.
  all_answered :
      {D : Type 0} (decoder : RequestDecoder D) (laws : DecoderLaws D decoder)
      (to_string : Response → String) (rs : List Request) (m : Monitor)
      → (xs : List String) × (t : Monitor) × Answers decoder
          (handle json crypto decoder laws to_string)
          m
          rs
          xs
          t
        × Responds to_string m rs xs t
        × (length xs ≡ length rs)
  unfolding handle process_input
  all_answered decoder laws to_string [] m = ([], m, refl, refl, refl)
  all_answered decoder laws to_string (r ∷ rs) (s, draws) =
      let session = (dispatch json crypto r (begin json crypto s draws)).1 in
      let outcome =
        conclude r (dispatch json crypto r (begin json crypto s draws)).0 session.reply in
      let (x, q) = answered outcome in
      let next : Monitor = (session.service, session.draws) in
      let (xs, t, h, w, l) = all_answered decoder laws to_string rs next in
      (to_string x ∷ xs, t, (next, rw q, h), (x, next, rw q, refl, w), ap suc l)

  -- If the JSON library's dump throws nothing but a type_error: when a chunk is taken by the decoder
  -- and completes some requests, `process_input` of AnonymBE gives a response to each of them, from
  -- the service as the request before has left it; the texts of these responses are what is sent, in
  -- the order of the requests, which are counted (modulo 2^64); and the decoder keeps only what is not
  -- complete.
  pub feed-Answers :
      {D : Type 0} (decoder : RequestDecoder D) (laws : DecoderLaws D decoder)
      (to_string : Response → String) (input : Bytes) (rs : List Request) (d d' e : D)
      (s : Served Monitor)
      → s.received < 2 ^ 64
      → decoder.add_chunk input d ≡ (ok tt, d')
      → Gives decoder (handle json crypto decoder laws to_string) d' rs e
      → decoder.get_request e ≡ none
      → (xs : List String) × (t : Monitor) × Responds to_string s.service rs xs t
        × (length xs ≡ length rs)
        × (feed json crypto decoder laws to_string input d s
            ≡ some (e, after decoder (handle json crypto decoder laws to_string) rs xs t s))
  unfolding feed take_input catch_input
  feed-Answers decoder laws to_string input rs d d' e s b a g end =
      let (xs, t, h, w, l) = all_answered decoder laws to_string rs s.service in
      let ended =
        request_loop-Answers decoder (handle json crypto decoder laws to_string) laws rs xs
          (suc (laws.held d')) d' e t s b (omega arith) g end h in
      (xs, t, w, l, rw (ap (λ x. x.0) a, take_input) (rw (ap (λ x. x.1) a) (rw ended)))
