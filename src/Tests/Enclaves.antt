-- ===== src/Tests/Enclaves.antt =====
-- The theorems on the access monitor's enclave, with a decoder for which 1 is a whole request to
-- create the user ann, 0 is not complete, and any other byte is a ping.
use anonym_sharing.Base.{
  zero, suc, if◌then◌else◌, ◌==◌, ap, ◌≡◌, ◌<◌, refl, arith, true, false, String, List, [], ◌∷◌,
  ◌++◌, Option, none, some, ok, length,
}
use mathlib.Core.Option.{some-injective}
use anonym_sharing.Std.Order.{Bytes}
use anonym_sharing.Std.Map.{find, insert}
use anonym_sharing.Platform.{Request, Response, response, default_response}
use anonym_sharing.Database.{create_user}
use anonym_sharing.Service.{AnonymBe}
use anonym_sharing.Service.Server.{process_input}
use anonym_sharing.Tls.{got, eof}
use anonym_sharing.Tls
use anonym_sharing.Enclave.{RequestDecoder, DecoderLaws, Served, Handler, request_loop}
use anonym_sharing.Enclave.Order.{Returns, after, request_loop-Answers}
use anonym_sharing.Enclave.Monitor.{
  Enclave, Monitor, calls_init, calls_accept, calls_recv, calls_finish, handle, feed, perform_all,
}
use anonym_sharing.Enclave.Monitor.Reachable.{IsValid, perform_all-IsValid}
use anonym_sharing.Enclave.Monitor.Complete.{Responds, DumpLaw, feed-Answers}
use anonym_sharing.Tests.World.{small, small-IsValid, toy_json, toy_crypto}

abbrev create_ann : Request
create_ann = record { method = "POST"; path = "/access/user"; body = "ann" }

abbrev ping : Request
ping = record { method = "GET"; path = "/ping"; body = "" }

abbrev requests : Bytes → Option (Request × Bytes)
requests [] = none
requests (zero ∷ bs) = none
requests (suc b ∷ bs) = some (if b == 0 then create_ann else ping, bs)

abbrev pub bytewise : RequestDecoder Bytes
bytewise = record { new_decoder = []; add_chunk = λ c d. (ok tt, d ++ c); get_request = requests }

pub consumes : (d e : Bytes) (r : Request) → requests d ≡ some (r, e) → length e < length d
consumes [] e r p = absurd (ground (arith, p))
consumes (zero ∷ bs) e r p = absurd (ground (arith, p))
consumes (suc b ∷ bs) e r p =
    let q : bs ≡ e = ap (λ x. x.1) (some-injective _ _ p) in omega (arith, ap length q)

abbrev pub bytewise_laws : DecoderLaws Bytes bytewise
bytewise_laws = record { held = length; consumes = consumes }

abbrev server : AnonymBe
server = record { init_ = true; indexed_ = true; die_ = false; database_ = small }

abbrev pub to_string : Response → String
to_string (response p code why h body) = body
to_string default_response = ""

abbrev monitor : Handler Monitor
monitor = handle toy_json toy_crypto bytewise bytewise_laws to_string

abbrev served : Served Monitor
served = record { service = (server, 0); received = 0; sent = [] }

abbrev existing : String
existing = "detail=attempt to create an existing user: 'ann';result=error;"

-- Two requests, the second of them a ping, and a byte that completes nothing.
two_answered :
    request_loop bytewise monitor 4 (1 ∷ 2 ∷ 0 ∷ []) served
    ≡ some (
      ok tt,
      0 ∷ [],
      after bytewise monitor
          (create_ann ∷ ping ∷ [])
          (existing ∷ "result=ok;" ∷ [])
          (server, 1)
          served,
    )
unfolding handle process_input toy_json toy_crypto create_user find insert
two_answered =
    request_loop-Answers bytewise monitor bytewise_laws (create_ann ∷ ping ∷ [])
      (existing ∷ "result=ok;" ∷ []) 4 (1 ∷ 2 ∷ 0 ∷ []) (0 ∷ []) (server, 1) served (omega arith)
      (omega arith) (2 ∷ 0 ∷ [], refl, (0 ∷ [], refl, refl)) refl
      ((server, 1), refl, ((server, 1), refl, refl))

pub toy_dump : DumpLaw toy_json
unfolding toy_json
toy_dump = record { dump_throws = λ m e p. absurd (ground (arith, p)) }

feed-Answers_example :
    (xs : List String) × (t : Monitor) × Responds toy_json toy_crypto toy_dump to_string
      served.service
      (create_ann ∷ ping ∷ [])
      xs
      t
    × (length xs ≡ 2)
    × (feed toy_json toy_crypto bytewise bytewise_laws to_string (1 ∷ 2 ∷ 0 ∷ []) [] served
        ≡ some (0 ∷ [], after bytewise monitor (create_ann ∷ ping ∷ []) xs t served))
feed-Answers_example =
    feed-Answers toy_json toy_crypto toy_dump bytewise bytewise_laws to_string (1 ∷ 2 ∷ 0 ∷ [])
      (create_ann ∷ ping ∷ []) [] (1 ∷ 2 ∷ 0 ∷ []) (0 ∷ []) served (omega arith) refl
      (2 ∷ 0 ∷ [], refl, (0 ∷ [], refl, refl)) refl

abbrev pub enclave : Enclave Bytes
enclave = record { served = served; tls = Tls.initial; decoders = λ fd. [] }

pub enclave-IsValid : IsValid enclave
unfolding find
enclave-IsValid = record {
  database = small-IsValid;
  table = record { sorted = tt; entry = λ fd c e. cc };
}

perform_all-IsValid_example :
    Returns
      (λ r. IsValid r.1)
      (perform_all toy_json toy_crypto bytewise bytewise_laws to_string
        (calls_init 1
          ∷ calls_accept 4 true
          ∷ calls_recv 4 (got 1 (2 ∷ []) ∷ eof ∷ [])
          ∷ calls_finish
          ∷ [])
        enclave)
perform_all-IsValid_example =
    perform_all-IsValid toy_json toy_crypto bytewise bytewise_laws to_string _ enclave
      enclave-IsValid
