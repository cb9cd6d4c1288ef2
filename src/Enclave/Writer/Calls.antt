-- ===== src/Enclave/Writer/Calls.antt =====
-- anonymBE/src/enclave/ecalls_writeproxy.cpp: the calls into the writer proxy's enclave, over its
-- service, its table of TLS connections and the decoder of each connection, and the process's calls.
use anonym_sharing.Base.{ℕ, String, Bool, List, [], ◌∷◌, Option, none, some, Result, ok, raise, ℤ}
use anonym_sharing.Std.Order.{Bytes}
use anonym_sharing.Platform.{JsonLib}
use anonym_sharing.Options.{
  RawArguments, minioendpoint, miniosecret, minioaccesskey, tokenuser, tokenpass, tokenendpoint,
  amendpoint, ecall_init_args,
}
use anonym_sharing.Tls.{Tls, Read, ecall_tls_recv}
use anonym_sharing.Proxy.{Arguments, WriterProxy, Started, returned, exited, init, finish}
use anonym_sharing.Proxy.Libs.{UrlLib, HttpLib, TextLib, ResponseDecoder, Network, Minio}
use anonym_sharing.Enclave.{RequestDecoder, DecoderLaws, Served, Connected, replace, accept}
use anonym_sharing.Enclave.Writer.{process_chunk}
use anonym_sharing.EventLoop.{Ecalls, Flow, continues, exits}

-- The writer proxy's enclave.
abbrev pub WriterEnclave : Type 0 → Type 0 → Type 0 → Type 0
WriterEnclave B U Q = Connected (WriterProxy B U) Q

-- How a call ends: it returns; it goes on for ever, as it waits for another server or tries an upload
-- more often than `attempts`; or an exception that is no std::exception leaves `ecall_tls_recv`, which
-- ends the process.
pub data Ended (A : Type 0) : Type 0 where
  returns : A → Ended A
  waits terminated : Ended A

-- std::string(args.field); `text` is the text of an array up to its NUL.
abbrev pub arguments_of : (Bytes → String) → RawArguments → Arguments
arguments_of text args = record {
  minioendpoint = text (args.fields minioendpoint);
  miniosecret = text (args.fields miniosecret);
  minioaccesskey = text (args.fields minioaccesskey);
  tokenuser = text (args.fields tokenuser);
  tokenpass = text (args.fields tokenpass);
  tokenendpoint = text (args.fields tokenendpoint);
  amendpoint = text (args.fields amendpoint);
}

module _ {B U R Q : Type 0} (http : HttpLib B R) (urls : UrlLib U) where
  -- return writerproxy.init(args)
  unfoldable pub started :
      WriterEnclave B U Q → Started × WriterProxy B U × Tls → Flow (ℤ × WriterEnclave B U Q)
  started m (exited n, s, tls) = exits n
  started m (returned r, s, tls) =
      continues (r, record m { served = record (m.served) { service = s }; tls = tls })

  unfoldable pub ecall_init :
      (String → ℤ → Bool)
      → Bool
      → (Bytes → String)
      → RawArguments
      → WriterEnclave B U Q
      → Flow (ℤ × WriterEnclave B U Q)
  unfolding started init ecall_init_args
  ecall_init connects creates text args m = started m (
      init http urls connects creates (arguments_of text (ecall_init_args args)) m.served.service
        m.tls)

  unfoldable pub ecall_finish : WriterEnclave B U Q → WriterEnclave B U Q
  unfolding finish
  ecall_finish m =
      let (s, tls) = finish http urls m.served.service m.tls in
      record m { served = record (m.served) { service = s }; tls = tls }

module _ {B U R D J Q : Type 0} (http : HttpLib B R) (urls : UrlLib U) (texts : TextLib U)
    (decoder : ResponseDecoder D R) (network : Network) (json : JsonLib J) (minio : Minio)
    (requests : RequestDecoder Q) (laws : DecoderLaws Q requests) (to_string : R → String)
    (attempts : ℕ) where
  abbrev pub ended :
      Option (Result (Unit {0}) × Q × Served (WriterProxy B U))
      → Ended (Q × Served (WriterProxy B U))
  ended none = waits
  ended (some (ok _, d, s)) = returns (d, s)
  ended (some (raise _, d, s)) = terminated

  unfoldable pub feed : Bytes → Q → Served (WriterProxy B U) → Ended (Q × Served (WriterProxy B U))
  unfolding process_chunk
  feed input d s = ended (
      process_chunk http urls texts decoder network json minio requests laws to_string attempts
        input d s)

  -- The calls of `process_input` in the loop of `ecall_tls_recv`.
  unfoldable pub feed_all :
      List Bytes → Q → Served (WriterProxy B U) → Ended (Q × Served (WriterProxy B U))
  unfolding feed
  feed_all [] d s = returns (d, s)
  feed_all (chunk ∷ chunks) d s = elim (feed chunk d s) [
    | waits ↦ waits
    | terminated ↦ terminated
    | returns (d', s') ↦ feed_all chunks d' s'
  ]

  unfoldable pub deliver :
      ℕ → List Read → WriterEnclave B U Q → Ended (Option ℤ × WriterEnclave B U Q)
  unfolding ecall_tls_recv feed_all
  deliver fd reads m =
      let h = ecall_tls_recv fd reads m.tls in
      elim (feed_all h.chunks (m.decoders fd) m.served) [
        | waits ↦ waits
        | terminated ↦ terminated
        | returns (d, s) ↦ returns (
          h.result,
          record { served = s; tls = h.tls; decoders = replace requests fd d m.decoders },
        )
      ]

  -- A call after which the process goes on.
  abbrev pub going_on : {A : Type 0} → Ended A → Option A
  going_on (returns a) = some a
  going_on waits = none
  going_on terminated = none

  abbrev pub writer_calls :
      (String → ℤ → Bool) → Bool → (Bytes → String) → RawArguments → Ecalls (WriterEnclave B U Q)
  writer_calls connects creates text args = record {
    init = ecall_init http urls connects creates text args;
    tls_accept = accept requests;
    tls_recv = λ fd reads m. going_on (deliver fd reads m);
  }
