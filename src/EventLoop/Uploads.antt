-- ===== src/EventLoop/Uploads.antt =====
-- The process of the writer proxy: the loop and the thread over its enclave.
use mathlib.Core.Option.{some-injective}
use anonym_sharing.Base.{ℕ, ◌≡◌, refl, ap, List, subst, Option, some, [], String, Bool, ℤ}
use anonym_sharing.Std.Order.{Bytes}
use anonym_sharing.Platform.{JsonLib}
use anonym_sharing.Options.{RawArguments}
use anonym_sharing.Tls.{Tls, initial}
use anonym_sharing.Tls.Kept.{initial-IsValid}
use anonym_sharing.Proxy.{WriterProxy, Started, returned, exited, init, construct}
use anonym_sharing.Proxy.Libs.{UrlLib, HttpLib, HttpLaws, TextLib, ResponseDecoder, Network, Minio}
use anonym_sharing.Enclave.{RequestDecoder, DecoderLaws}
use anonym_sharing.Enclave.Writer.Calls.{
  WriterEnclave, Ended, returns, waits, terminated, deliver, going_on, writer_calls, ecall_init,
  started,
}
use anonym_sharing.Enclave.Writer.Reachable.{Ends}
use anonym_sharing.Enclave.Writer.Clean.{IsTidy, ecall_init-IsTidy, accept-IsTidy, deliver-IsTidy}
use anonym_sharing.EventLoop.{Ecalls, EcallsLaws, Continues, Answers, continues}
use anonym_sharing.EventLoop.Heard.{heard, Steps-Heard, main-Continues}
use anonym_sharing.Enclave.Dialogue.{Occurrence, begins}
use anonym_sharing.Enclave.Writer.Dialogue.{Said, Talked, deliver-Said, accept-Said}
use anonym_sharing.EventLoop.Threads.{Process, Steps, here, main}
use anonym_sharing.EventLoop.Safety.{reached-IsProcess}

-- The enclave when it is loaded: `builder` is a new ResponseBuilder.
abbrev pub loaded : {B U R Q : Type 0} → HttpLib B R → UrlLib U → B → (ℕ → Q) → WriterEnclave B U Q
loaded http urls builder decoders = record {
  served = record { service = construct http urls builder; received = 0; sent = [] };
  tls = initial;
  decoders = decoders;
}

module _ {B U R D J Q : Type 0} (http : HttpLib B R) (http_laws : HttpLaws B R http)
    (urls : UrlLib U) (texts : TextLib U) (decoder : ResponseDecoder D R) (network : Network)
    (json : JsonLib J) (minio : Minio) (requests : RequestDecoder Q) (laws : DecoderLaws Q requests)
    (to_string : R → String) (attempts : ℕ) (connects : String → ℤ → Bool) (creates : Bool)
    (text : Bytes → String) (args : RawArguments) (body : String) where
  abbrev pub IsGood : WriterEnclave B U Q → Type 0
  IsGood =
      IsTidy http http_laws urls texts decoder network json minio to_string attempts body requests
        laws

  goes_on :
      (x : Ended (Option ℤ × WriterEnclave B U Q)) (r : Option ℤ) (m : WriterEnclave B U Q)
      → Ends (λ y. IsGood y.1) x
      → going_on http urls texts decoder network json minio requests laws to_string attempts x
        ≡ some (r, m)
      → IsGood m
  goes_on (returns y) r m h q = subst IsGood (ap (λ z. z.1) (some-injective _ _ q)) h
  goes_on waits r m h q = absurd (cc)
  goes_on terminated r m h q = absurd (cc)

  writer_laws : EcallsLaws (WriterEnclave B U Q) (
      writer_calls http urls texts decoder network json minio requests laws to_string attempts
        connects creates text args)
  writer_laws = record {
    IsGood = IsGood;
    init-IsGood =
        ecall_init-IsTidy http http_laws urls texts decoder network json minio to_string attempts
          body requests laws connects creates text args;
    accept-IsGood =
        accept-IsTidy http http_laws urls texts decoder network json minio to_string attempts body
          requests laws;
    recv-IsGood = λ fd reads m r n v q.
        goes_on
          (deliver http urls texts decoder network json minio requests laws to_string attempts fd
            reads m)
          r n
          (deliver-IsTidy http http_laws urls texts decoder network json minio to_string attempts
            body requests laws fd reads m v)
          q;
  }

module _ {B U R D J Q : Type 0} (http : HttpLib B R) (http_laws : HttpLaws B R http)
    (urls : UrlLib U) (texts : TextLib U) (decoder : ResponseDecoder D R) (network : Network)
    (json : JsonLib J) (minio : Minio) (requests : RequestDecoder Q) (laws : DecoderLaws Q requests)
    (to_string : R → String) (attempts : ℕ) (connects : String → ℤ → Bool) (creates : Bool)
    (text : Bytes → String) (args : RawArguments) where
  abbrev calls : Ecalls (WriterEnclave B U Q)
  calls =
      writer_calls http urls texts decoder network json minio requests laws to_string attempts
        connects creates text args

  ecall_init-sent :
      (m : WriterEnclave B U Q)
      → Continues
          (λ x. x.1.served.sent ≡ m.served.sent)
          (ecall_init http urls connects creates text args m)
  unfolding ecall_init started
  ecall_init-sent m = kept (init http urls connects creates _ m.served.service m.tls)
    where
      kept :
          (x : Started × WriterProxy B U × Tls)
          → Continues (λ y. y.1.served.sent ≡ m.served.sent) (started http urls m x)
      kept (exited n, s, tls) = tt
      kept (returned r, s, tls) = refl

  -- In every state that the writer proxy's process reaches after `main`, whatever its clients send:
  -- nothing was sent when `main` had started, and the enclave is as a dialogue leaves it that
  -- begins then. In the dialogue the clients do exactly what the steps bring, in this order: they
  -- try to connect, with their descriptor, which gets a new decoder only if the handshake succeeds,
  -- and send chunks, which go to the decoder of their descriptor. Each request is one that the
  -- decoder of a connection gives. The requests are treated one after the other: what is sent,
  -- after the texts before, is the response that `treat_request` gives to that request from the
  -- proxy as the request before has left it, or nothing where it throws; the body of a response is
  -- empty unless that request asks for a token. The shared builder's body is empty, and each entry
  -- of the table of connections is its descriptor's. (A new ResponseBuilder has an empty body.)
  pub reached-IsTidy :
      (builder : B) (decoders : ℕ → Q) (initialized created bound : Bool) (host : String) (sock : ℕ)
      (a : Answers) (n : ℕ) (s t : Process (WriterEnclave B U Q))
      → http_laws.body_of builder ≡ ""
      → main calls initialized created bound host sock a (loaded http urls builder decoders)
        ≡ continues s
      → (p : Steps calls n s t)
      → (s.enclave.served.sent ≡ [])
        × Said http http_laws urls texts decoder network json minio requests laws to_string attempts
            "" s.enclave.decoders s.enclave.served
            (heard calls n s t p)
            t.enclave.decoders
            t.enclave.served
        × IsTidy http http_laws urls texts decoder network json minio to_string attempts "" requests
            laws t.enclave
  unfolding writer_laws construct
  reached-IsTidy builder decoders initialized created bound host sock a n s t new q p =
      let tidy = λ (u : Process (WriterEnclave B U Q)) (r : Steps calls n s u).
        (reached-IsProcess calls
          (writer_laws http http_laws urls texts decoder network json minio requests laws to_string
            attempts connects creates text args "")
          initialized created bound host sock a (loaded http urls builder decoders) n s u
          (record { served = new; table = initial-IsValid }) q r).0.good in
      let talk : List Occurrence → WriterEnclave B U Q → Type 0 = λ log m.
        Talked http http_laws urls texts decoder network json minio requests laws to_string attempts
          "" s.enclave.decoders s.enclave.served log m.decoders m.served in
      let talked : talk (heard calls n s t p) t.enclave =
        Steps-Heard calls talk
          (accept-Said http http_laws urls texts decoder network json minio requests laws to_string
            attempts "" s.enclave.decoders s.enclave.served)
          (deliver-Said http http_laws urls texts decoder network json minio requests laws to_string
            attempts "" s.enclave.decoders s.enclave.served)
          n s t p ((tidy s here).served, begins) in
      (
        main-Continues calls (λ m. m.served.sent ≡ []) initialized created bound host sock a
            (loaded http urls builder decoders) s
            (ecall_init-sent (loaded http urls builder decoders)) q,
        talked.1,
        tidy t p,
      )
