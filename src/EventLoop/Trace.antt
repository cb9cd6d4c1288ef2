-- ===== src/EventLoop/Trace.antt =====
-- The process of the access monitor as a sequential server: however its loop and its threads
-- interleave, it answers one request after the other.
use anonym_sharing.Base.{ℕ, ◌≡◌, refl, ap, ◌∙◌, String, Bool, List, [], Result, ok, raise}
use anonym_sharing.Platform.{JsonLib, Crypto, Response}
use anonym_sharing.Database.Spec.{Spec, view}
use anonym_sharing.Service.{init}
use anonym_sharing.Service.Server.{process_input}
use anonym_sharing.Service.Commands.{command}
use anonym_sharing.Service.Refinement.{stepped, process_input_refines}
use anonym_sharing.Enclave.{RequestDecoder, DecoderLaws, Served}
use anonym_sharing.Enclave.Dialogue.{Occurrence, begins, connects, refuses, hears, answers, settled}
use anonym_sharing.Enclave.Monitor.{Monitor, Enclave, start}
use anonym_sharing.Enclave.Monitor.Dialogue.{Said, deliver-Said, accept-Said}
use anonym_sharing.EventLoop.{Ecalls, Answers, continues}
use anonym_sharing.EventLoop.Threads.{Process, Steps, main}
use anonym_sharing.EventLoop.Heard.{heard, Steps-Heard, main-Continues}
use anonym_sharing.EventLoop.Access.{monitor_calls}

abbrev contents : Served Monitor → Spec
contents s = view s.service.0.database_

-- What is served after `init`, which sets `indexed` only.
abbrev pub initialised : ℕ → Served Monitor → Served Monitor
initialised indexed s = record s { service = ((init indexed s.service.0).1, s.service.1) }

module _ {J D : Type 0} (json : JsonLib J) (crypto : Crypto) (decoder : RequestDecoder D)
    (laws : DecoderLaws D decoder) (to_string : Response → String) where
  module _ (ds₀ : ℕ → D) (s₀ : Served Monitor) where
    -- The abstract steps of the calls that the requests ask for.
    pub promised :
        (log : List Occurrence) (ds : ℕ → D) (s : Served Monitor)
        → Said json crypto decoder laws to_string ds₀ s₀ log ds s
        → Spec
    promised log ds s begins = contents s₀
    promised log ds s (connects {log = l} {ds = d} {s = u} fd p) = promised l d u p
    promised log ds s (refuses {log = l} {ds = d} {s = u} fd b p) = promised l d u p
    promised log ds s (hears {log = l} {ds = d} {s = u} fd c p) = promised l d u p
    promised log ds s (answers {log = l} {ds = d} {s = u} {t} fd r e q a p) =
        stepped (command json crypto r u.service.1) (promised l d u p)

    settled-service :
        (x : Result Response) (u : Monitor) (s : Served Monitor)
        → (settled to_string x u s).service ≡ u
    settled-service (ok r) u s = refl
    settled-service (raise e) u s = refl

    contents-promised :
        (log : List Occurrence) (ds : ℕ → D) (s : Served Monitor)
        (p : Said json crypto decoder laws to_string ds₀ s₀ log ds s)
        → contents s ≡ promised log ds s p
    unfolding promised
    contents-promised log ds s begins = refl
    contents-promised log ds s (connects {log = l} {ds = d} {s = u} fd p) =
        contents-promised l d u p
    contents-promised log ds s (refuses {log = l} {ds = d} {s = u} fd b p) =
        contents-promised l d u p
    contents-promised log ds s (hears {log = l} {ds = d} {s = u} fd c p) = contents-promised l d u p
    contents-promised log ds s (answers {log = l} {ds = d} {s = u} {t} fd r e q a p) =
        let (answer, after, drawn) = process_input json crypto r u.service.0 u.service.1 in
        ap contents a
        ∙ ap (λ m. view m.0.database_) (settled-service answer (after, drawn) u)
        ∙ process_input_refines json crypto r u.service.0 u.service.1
        ∙ ap (stepped (command json crypto r u.service.1)) (contents-promised l d u p)

  module _ (indexed : ℕ) where
    abbrev pub calls : Ecalls (Enclave D)
    calls = monitor_calls json crypto decoder laws to_string indexed

    -- In every state that the access monitor's process reaches after `main`, whatever its clients
    -- send and however its threads interleave: the enclave is as a dialogue leaves it that begins
    -- after one call of `init`. In the dialogue the clients do exactly what the steps bring, in
    -- this order: they try to connect, with their descriptor, which gets a new decoder only if the
    -- handshake succeeds, and send chunks, which go to the decoder of their descriptor. Each
    -- request is one that the decoder of a connection gives. The requests are answered one after
    -- the other: the answer of `process_input` is what is sent, after the texts before, the request
    -- is counted (modulo 2^64), and nothing else changes the service. The database holds what the
    -- abstract steps of the requests' calls make of its contents at the start.
    pub reached-Sequence :
        (initialized created bound : Bool) (host : String) (sock : ℕ) (a : Answers) (m : Enclave D)
        (n : ℕ) (s t : Process (Enclave D))
        → main calls initialized created bound host sock a m ≡ continues s
        → (steps : Steps calls n s t)
        → (p : Said json crypto decoder laws to_string m.decoders
            (initialised indexed m.served)
            (heard calls n s t steps)
            t.enclave.decoders
            t.enclave.served)
          × (contents t.enclave.served
              ≡ promised m.decoders
                  (initialised indexed m.served)
                  (heard calls n s t steps)
                  t.enclave.decoders
                  t.enclave.served
                  p)
    unfolding start
    reached-Sequence initialized created bound host sock a m n s t q steps =
        let s₀ = initialised indexed m.served in
        let G : List Occurrence → Enclave D → Type 0 =
          λ log e. Said json crypto decoder laws to_string m.decoders s₀ log e.decoders e.served in
        let p : G (heard calls n s t steps) t.enclave =
          Steps-Heard calls G (accept-Said json crypto decoder laws to_string m.decoders s₀)
            (deliver-Said json crypto decoder laws to_string m.decoders s₀) n s t steps
            (main-Continues calls (G []) initialized created bound host sock a m s begins q) in
        (p, contents-promised m.decoders s₀ _ _ _ p)
