-- ===== src/EventLoop/Shutdown.antt =====
-- The handler of SIGINT in the access monitor's process.
use anonym_sharing.Base.{ℕ, ◌+◌, ◌≡◌, String, Bool, []}
use anonym_sharing.Platform.{JsonLib, Crypto, Response}
use anonym_sharing.Tls.Shutdown.{closings, live, finish_closes}
use anonym_sharing.Enclave.{RequestDecoder, DecoderLaws}
use anonym_sharing.Enclave.Monitor.{Enclave, ecall_finish}
use anonym_sharing.Enclave.Monitor.Reachable.{IsValid}
use anonym_sharing.EventLoop.{Answers, continues}
use anonym_sharing.EventLoop.Threads.{Process, Steps, main, ctrlc_handler}
use anonym_sharing.EventLoop.Access.{monitor_calls, reached-IsValid}

module _ {J D : Type 0} (json : JsonLib J) (crypto : Crypto) (decoder : RequestDecoder D)
    (laws : DecoderLaws D decoder) (to_string : Response → String) (indexed : ℕ) where
  -- If the signal arrives between two calls into the enclave, in whatever state the process has
  -- reached after `main`, the handler leaves an empty table of connections, and has closed each
  -- descriptor with an open connection in the table exactly once more and no other. (The enclave is
  -- valid at the start. A signal within a call, where the table's mutex may be held, is not
  -- considered.)
  pub interrupted_closes :
      (initialized created bound : Bool) (host : String) (sock : ℕ) (a : Answers) (m : Enclave D)
      (n : ℕ) (s t : Process (Enclave D)) (fd : ℕ)
      → IsValid m
      → main
          (monitor_calls json crypto decoder laws to_string indexed)
          initialized
          created
          bound
          host
          sock
          a
          m
        ≡ continues s
      → Steps (monitor_calls json crypto decoder laws to_string indexed) n s t
      → let r = (ctrlc_handler (ecall_finish json crypto decoder laws to_string) t).1 in
        (r.enclave.tls.connection_table ≡ [])
        × (closings fd r.enclave.tls.log
            ≡ closings fd t.enclave.tls.log + live fd t.enclave.tls.connection_table)
  unfolding ctrlc_handler
  interrupted_closes initialized created bound host sock a m n s t fd v q p =
      let valid =
        reached-IsValid json crypto decoder laws to_string indexed initialized created bound host
          sock a m n s t v q p in
      finish_closes t.enclave.tls fd valid.table
