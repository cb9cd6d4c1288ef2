-- ===== src/Tests/Loops.antt =====
-- The theorems on the event loop, at the access monitor's process: a client connects, and becomes
-- ready twice.
use anonym_sharing.Base.{
  ℕ, ◌<◌, ◌++◌, ◌≡◌, refl, arith, true, [], ◌∷◌, some, none, List, Option, ℤ, ◌+◌,
}
use anonym_sharing.Std.Map.{find, insert}
use anonym_sharing.Tls.{add_connection, Read, got, failed, want_read}
use anonym_sharing.Enclave.{accept}
use anonym_sharing.Enclave.Monitor.{Enclave, start, deliver, ecall_finish}
use anonym_sharing.Enclave.Monitor.Reachable
use anonym_sharing.Enclave.Monitor.Reachable.{received-IsValid}
use anonym_sharing.EventLoop.{Ecalls, continues, SocketEventLoop, Answers, on_events}
use anonym_sharing.EventLoop.Threads.{
  Process, waits, takes, serves, set_serving, Steps, here, next, main, idle, ctrlc_handler,
}
use anonym_sharing.EventLoop.Access.{monitor_calls, monitor_laws, reached-IsValid}
use anonym_sharing.Database.Spec.{view}
use anonym_sharing.Tls.Shutdown.{closings, live}
use anonym_sharing.EventLoop.Shutdown.{interrupted_closes}
use anonym_sharing.EventLoop.Trace.{initialised, promised, reached-Sequence}
use anonym_sharing.EventLoop.Heard.{heard}
use anonym_sharing.EventLoop.Ready.{became_ready}
use anonym_sharing.Enclave.Monitor.Dialogue.{Said}
use anonym_sharing.EventLoop.Safety.{IsProcess, reached-IsProcess}
use anonym_sharing.EventLoop.Exclusive.{called, exclusive}
use anonym_sharing.EventLoop.Sharing.{shared_descriptor}
use anonym_sharing.Tests.World.{toy_json, toy_crypto}
use anonym_sharing.Tests.Enclaves.{bytewise, bytewise_laws, to_string, enclave, enclave-IsValid}
use anonym_sharing.Std.Order.{Bytes}

abbrev calls : Ecalls (Enclave Bytes)
calls = monitor_calls toy_json toy_crypto bytewise bytewise_laws to_string 1

-- The kernel gives descriptor 4 to the client, and nothing fails.
abbrev smooth : Answers
smooth = record {
  conn_sock = some 4;
  handshake = true;
  flags_read = true;
  flags_set = true;
  added = true;
}

abbrev listening : SocketEventLoop
listening = record {
  listen_sock = some 3;
  epoll = 3 ∷ [];
  nonblocking = [];
  iqueue = [];
  queued = [];
}

abbrev started : Process (Enclave Bytes)
started = idle listening (start toy_json toy_crypto bytewise bytewise_laws to_string 1 enclave).1

started-main : main calls true true true "*:4444" 3 smooth enclave ≡ continues started
unfolding main start
started-main = refl

abbrev connected : Process (Enclave Bytes)
connected = record started {
  loop = record listening { epoll = 4 ∷ 3 ∷ []; nonblocking = 4 ∷ [] };
  enclave = (accept bytewise 4 true started.enclave).1;
}

client_connects : (n : ℕ) → Steps calls n started connected
unfolding on_events accept start add_connection find insert
client_connects n = next here (waits (record { fd = 3; answers = smooth } ∷ []) (refl, tt) refl)

reached-IsValid_example : Reachable.IsValid connected.enclave
reached-IsValid_example =
    reached-IsValid toy_json toy_crypto bytewise bytewise_laws to_string 1 true true true "*:4444" 3
      smooth enclave 2 started connected enclave-IsValid started-main (client_connects 2)

shared_descriptor_example :
    (t : Process (Enclave Bytes)) × Steps calls 2 connected t
    × (t.serving 0 ≡ some 4)
    × (t.serving 1 ≡ some 4)
shared_descriptor_example =
    shared_descriptor calls 2 4 0 1 smooth connected (omega arith) (omega arith) refl refl refl refl
      refl refl

-- The thread has taken the client's descriptor.
abbrev busy : Process (Enclave Bytes)
busy = record connected {
  loop = record (connected.loop) { queued = 4 ∷ [] };
  serving = set_serving 0 (some 4) connected.serving;
  taken = 4 ∷ [];
}

client_ready : (n : ℕ) → 0 < n → Steps calls n started busy
unfolding on_events
client_ready n b =
    next
      (next (client_connects n) (waits (record { fd = 4; answers = smooth } ∷ []) (refl, tt) refl))
      (takes 0 4 [] b refl refl)

reached-IsProcess_example :
    IsProcess calls (monitor_laws toy_json toy_crypto bytewise bytewise_laws to_string 1) busy
    × (4 ∷ [] ≡ became_ready calls 2 started busy (client_ready 2 (omega arith)))
unfolding monitor_laws
reached-IsProcess_example =
    reached-IsProcess calls (monitor_laws toy_json toy_crypto bytewise bytewise_laws to_string 1)
      true true true "*:4444" 3 smooth enclave 2 started busy enclave-IsValid started-main
      (client_ready 2 (omega arith))

-- The client asks for the user ann to be created, and the thread serves it.
abbrev reads : List Read
reads = got 1 [] ∷ failed want_read ∷ []

delivered :
    (r : Option ℤ) × (e : Enclave Bytes) × (deliver toy_json toy_crypto bytewise bytewise_laws
        to_string 4 reads connected.enclave
      ≡ some (r, e))
    × Reachable.IsValid e
delivered =
    received-IsValid toy_json toy_crypto bytewise bytewise_laws to_string 4 reads connected.enclave
      (reached-IsValid toy_json toy_crypto bytewise bytewise_laws to_string 1 true true true
        "*:4444" 3 smooth enclave 1 started connected enclave-IsValid started-main
        (client_connects 1))

abbrev answered : Process (Enclave Bytes)
answered = record busy { enclave = delivered.1; serving = set_serving 0 none busy.serving }

client_asks : Steps calls 1 started answered
unfolding on_events
client_asks =
    next
      (next
        (next (client_connects 1)
          (waits (record { fd = 4; answers = smooth } ∷ []) (refl, tt) refl))
        (takes 0 4 [] (omega arith) refl refl))
      (serves 0 4 reads refl delivered.2)

exclusive_example : 4 ∷ [] ≡ called calls 1 started answered client_asks ++ []
exclusive_example =
    exclusive calls true true true "*:4444" 3 smooth enclave started answered started-main
      client_asks

reached-Sequence_example :
    (p : Said toy_json toy_crypto bytewise bytewise_laws to_string enclave.decoders
      (initialised 1 enclave.served)
      (heard calls 1 started answered client_asks)
      answered.enclave.decoders
      answered.enclave.served)
    × (view answered.enclave.served.service.0.database_
        ≡ promised toy_json toy_crypto bytewise bytewise_laws to_string enclave.decoders
            (initialised 1 enclave.served)
            (heard calls 1 started answered client_asks)
            answered.enclave.decoders
            answered.enclave.served
            p)
reached-Sequence_example =
    reached-Sequence toy_json toy_crypto bytewise bytewise_laws to_string 1 true true true "*:4444"
      3 smooth enclave 1 started answered started-main client_asks

-- The connected client's descriptor is closed once.
interrupted_closes_example :
    let (code, r) =
      ctrlc_handler (ecall_finish toy_json toy_crypto bytewise bytewise_laws to_string) connected in
    (r.enclave.tls.connection_table ≡ [])
    × (closings 4 r.enclave.tls.log
        ≡ closings 4 connected.enclave.tls.log + live 4 connected.enclave.tls.connection_table)
interrupted_closes_example =
    interrupted_closes toy_json toy_crypto bytewise bytewise_laws to_string 1 true true true
      "*:4444" 3 smooth enclave 1 started connected 4 enclave-IsValid started-main
      (client_connects 1)
