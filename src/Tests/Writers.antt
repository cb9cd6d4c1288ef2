-- ===== src/Tests/Writers.antt =====
-- The theorems on the calls into the writer proxy and on its process, with decoders for which each
-- byte is a request.
use anonym_sharing.Base.{
  ℕ, ap, ◌≡◌, ◌<◌, ◌+◌, ◌%◌, ◌^◌, refl, arith, [], ◌∷◌, ◌++◌, Option, none, some, ok, length,
  parse_error, String, ℤ, pos, true, List, if◌then◌else◌, ◌==◌,
}
use mathlib.Core.Option.{some-injective}
use anonym_sharing.Std.Order.{Bytes}
use anonym_sharing.Platform.{Request}
use anonym_sharing.Proxy.{WriterProxy}
use anonym_sharing.Enclave.{accept, RequestDecoder, DecoderLaws, Served}
use anonym_sharing.Enclave.Writer.{process_chunk, refused_token_unanswered}
use anonym_sharing.Proxy.{construct, is_missing, names_protocol, is_partial, connect_monitor}
use anonym_sharing.Options.{init_args}
use anonym_sharing.Enclave.Writer.Calls.{WriterEnclave, ecall_init, deliver, writer_calls}
use anonym_sharing.Enclave.Writer.Clean.{IsTidy}
use anonym_sharing.Enclave.Writer.Dialogue.{Said}
use anonym_sharing.EventLoop.Heard.{heard}
use anonym_sharing.Std.Map.{find, insert}
use anonym_sharing.Proxy.Token.{use_token, request_reply, receive, assume_role, give_credentials}
use anonym_sharing.Tls.{init, Read, got, failed, want_read}
use anonym_sharing.EventLoop.{on_events, Ecalls, Flow, continues, exits, SocketEventLoop, Answers}
use anonym_sharing.EventLoop.Threads.{
  Process, waits, takes, serves, set_serving, Steps, here, next, main, idle,
}
use anonym_sharing.EventLoop.Uploads.{loaded, reached-IsTidy}
use anonym_sharing.Tests.Proxies.{
  new_builder, toy_http, toy_laws, toy_urls, toy_texts, toy_decoder, refusing, granting, grant_json,
  proxy, refusal, toy_minio,
}

abbrev get_token : Request
get_token = record { method = "GET"; path = "/token"; body = "" }

abbrev tokens : Bytes → Option (Request × Bytes)
tokens [] = none
tokens (b ∷ bs) = some (get_token, bs)

consumes : (d e : Bytes) (r : Request) → tokens d ≡ some (r, e) → length e < length d
consumes [] e r p = absurd (ground (arith, p))
consumes (b ∷ bs) e r p =
    let q : bs ≡ e = ap (λ x. x.1) (some-injective _ _ p) in omega (arith, ap length q)

abbrev token_decoder : RequestDecoder Bytes
token_decoder = record {
  new_decoder = [];
  add_chunk = λ c d. (ok tt, d ++ c);
  get_request = tokens;
}

abbrev token_laws : DecoderLaws Bytes token_decoder
token_laws = record { held = length; consumes = consumes }

abbrev text_of_reply : ℕ × String × String → String
text_of_reply (code, why, body) = body

abbrev served : Served (WriterProxy (ℕ × String × String) ℤ)
served = record { service = proxy; received = 0; sent = [] }

-- Two requests arrive, and the second one stays.
refused_token_unanswered_example :
    (t : Served (WriterProxy (ℕ × String × String) ℤ)) × (process_chunk toy_http toy_urls toy_texts
        toy_decoder refusing grant_json toy_minio token_decoder token_laws text_of_reply 1
        (1 ∷ 2 ∷ [])
        []
        served
      ≡ some (ok tt, 2 ∷ [], t))
    × (t.sent ≡ [])
    × (t.received ≡ (0 + 1) % 2 ^ 64)
refused_token_unanswered_example =
    refused_token_unanswered toy_http toy_urls toy_texts toy_decoder refusing grant_json toy_minio
      token_decoder token_laws text_of_reply 1 toy_laws (403, "Forbidden", "denied")
      (parse_error "empty") "" (1 ∷ 2 ∷ []) [] (1 ∷ 2 ∷ []) (2 ∷ []) served (omega arith) refl refl
      refl refusal refl refl (λ e. cc)

-- A byte 1 asks for a token, any other one is a ping.
abbrev asked : Bytes → Option (Request × Bytes)
asked [] = none
asked (b ∷ bs) =
    some (if b == 1 then get_token else record { method = "GET"; path = "/ping"; body = "" }, bs)

asked_consumes : (d e : Bytes) (r : Request) → asked d ≡ some (r, e) → length e < length d
asked_consumes [] e r p = absurd (ground (arith, p))
asked_consumes (b ∷ bs) e r p =
    let q : bs ≡ e = ap (λ x. x.1) (some-injective _ _ p) in omega (arith, ap length q)

abbrev two_kinds : RequestDecoder Bytes
two_kinds = record { new_decoder = []; add_chunk = λ c d. (ok tt, d ++ c); get_request = asked }

abbrev two_kinds_laws : DecoderLaws Bytes two_kinds
two_kinds_laws = record { held = length; consumes = asked_consumes }

-- Every array has this text.
abbrev named : Bytes → String
named field = "host:1"

abbrev calls : Ecalls (WriterEnclave (ℕ × String × String) ℤ Bytes)
calls =
    writer_calls toy_http toy_urls toy_texts toy_decoder granting grant_json toy_minio two_kinds
      two_kinds_laws text_of_reply 1 (λ h p. true) true named init_args

abbrev new_enclave : WriterEnclave (ℕ × String × String) ℤ Bytes
new_enclave = loaded toy_http toy_urls (0, "", "") (λ fd. [])

abbrev smooth : Answers
smooth = record {
  conn_sock = some 4;
  handshake = true;
  flags_read = true;
  flags_set = true;
  added = true;
}

abbrev proceeds : {A : Type 0} → A → Flow A → A
proceeds a (continues b) = b
proceeds a (exits c) = a

abbrev listening : SocketEventLoop
listening = record {
  listen_sock = some 3;
  epoll = 3 ∷ [];
  nonblocking = [];
  iqueue = [];
  queued = [];
}

abbrev ready : Process (WriterEnclave (ℕ × String × String) ℤ Bytes)
ready = idle listening (proceeds (pos 0, new_enclave) (calls.init new_enclave)).1

ready-main : main calls true true true "*:4445" 3 smooth new_enclave ≡ continues ready
unfolding main ecall_init construct init_args is_missing names_protocol is_partial connect_monitor
ready-main = refl

abbrev connected : Process (WriterEnclave (ℕ × String × String) ℤ Bytes)
connected = record ready {
  loop = record listening { epoll = 4 ∷ 3 ∷ []; nonblocking = 4 ∷ [] };
  enclave = (calls.tls_accept 4 true ready.enclave).1;
}

abbrev busy : Process (WriterEnclave (ℕ × String × String) ℤ Bytes)
busy = record connected {
  loop = record (connected.loop) { queued = 4 ∷ [] };
  serving = set_serving 0 (some 4) connected.serving;
  taken = 4 ∷ [];
}

abbrev ending :
    Option (Option ℤ × WriterEnclave (ℕ × String × String) ℤ Bytes)
    → Option ℤ × WriterEnclave (ℕ × String × String) ℤ Bytes
ending none = (none, new_enclave)
ending (some x) = x

-- The client asks for a token and pings.
abbrev reads : List Read
reads = got 1 (0 ∷ []) ∷ failed want_read ∷ []

abbrev answered : Process (WriterEnclave (ℕ × String × String) ℤ Bytes)
answered = record busy {
  enclave = (ending (calls.tls_recv 4 reads busy.enclave)).1;
  serving = set_serving 0 none busy.serving;
}

client_asks : Steps calls 1 ready answered
unfolding on_events accept deliver ecall_init construct is_missing names_protocol is_partial
    connect_monitor init find insert use_token request_reply receive assume_role give_credentials
client_asks =
    next
      (next
        (next (next here (waits (record { fd = 3; answers = smooth } ∷ []) (refl, tt) refl))
          (waits (record { fd = 4; answers = smooth } ∷ []) (refl, tt) refl))
        (takes 0 4 [] (omega arith) refl refl))
      (serves 0 4 reads refl refl)

answered_texts : answered.enclave.served.sent ≡ "credentials" ∷ "" ∷ []
unfolding on_events accept deliver ecall_init construct is_missing names_protocol is_partial
    connect_monitor init find insert use_token request_reply receive assume_role give_credentials
answered_texts = refl

reached-IsTidy_example :
    (ready.enclave.served.sent ≡ [])
    × Said toy_http toy_laws toy_urls toy_texts toy_decoder granting grant_json toy_minio two_kinds
        two_kinds_laws text_of_reply 1 "" ready.enclave.decoders ready.enclave.served
        (heard calls 1 ready answered client_asks)
        answered.enclave.decoders
        answered.enclave.served
    × IsTidy toy_http toy_laws toy_urls toy_texts toy_decoder granting grant_json toy_minio
        text_of_reply 1 "" two_kinds two_kinds_laws answered.enclave
reached-IsTidy_example =
    reached-IsTidy toy_http toy_laws toy_urls toy_texts toy_decoder granting grant_json toy_minio
      two_kinds two_kinds_laws text_of_reply 1 (λ h p. true) true named init_args (0, "", "")
      (λ fd. []) true true true "*:4445" 3 smooth 1 ready answered new_builder ready-main
      client_asks
