-- ===== src/EventLoop/Access.antt =====
-- The process of the access monitor: the loop and the threads over its enclave.
use mathlib.Core.Option.{some-injective}
use anonym_sharing.Base.{ℕ, ◌≡◌, sym, ap, ◌∙◌, subst, String, Bool}
use anonym_sharing.Platform.{JsonLib, Crypto, Response}
use anonym_sharing.Enclave.{RequestDecoder, DecoderLaws, accept}
use anonym_sharing.Enclave.Monitor.{Enclave, calls_init, calls_accept, start, deliver, perform}
use anonym_sharing.Enclave.Monitor.Reachable.{IsValid, perform-IsValid, received-IsValid}
use anonym_sharing.EventLoop.{Ecalls, EcallsLaws, Answers, continues}
use anonym_sharing.EventLoop.Threads.{Process, Steps, main}
use anonym_sharing.EventLoop.Safety.{reached-IsProcess}

module _ {J D : Type 0} (json : JsonLib J) (crypto : Crypto) (decoder : RequestDecoder D)
    (laws : DecoderLaws D decoder) (to_string : Response → String) (indexed : ℕ) where
  abbrev pub monitor_calls : Ecalls (Enclave D)
  monitor_calls = record {
    init = λ m. continues (start json crypto decoder laws to_string indexed m);
    tls_accept = accept decoder;
    tls_recv = deliver json crypto decoder laws to_string;
  }

  unfoldable pub monitor_laws : EcallsLaws (Enclave D) monitor_calls
  unfolding perform
  monitor_laws = record {
    IsGood = IsValid;
    init-IsGood =
        λ m v. perform-IsValid json crypto decoder laws to_string (calls_init indexed) m v;
    accept-IsGood =
        λ fd b m v. perform-IsValid json crypto decoder laws to_string (calls_accept fd b) m v;
    recv-IsGood = λ fd reads m r m' v q.
        let (x, n, e, kept) = received-IsValid json crypto decoder laws to_string fd reads m v in
        subst IsValid (ap (λ y. y.1) (some-injective _ _ (sym e ∙ q))) kept;
  }

  -- In every state that the access monitor's process reaches after `main` from a valid enclave,
  -- whatever its clients send, the enclave is valid: its database has members that exist in each
  -- group, and each entry of its table of connections is its descriptor's.
  pub reached-IsValid :
      (initialized created bound : Bool) (host : String) (sock : ℕ) (a : Answers) (m : Enclave D)
      (n : ℕ) (s t : Process (Enclave D))
      → IsValid m
      → main monitor_calls initialized created bound host sock a m ≡ continues s
      → Steps monitor_calls n s t
      → IsValid t.enclave
  unfolding monitor_laws
  reached-IsValid initialized created bound host sock a m n s t v q p =
      (reached-IsProcess monitor_calls monitor_laws initialized created bound host sock a m n s t v
        q p).0.good
