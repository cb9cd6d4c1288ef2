-- ===== src/EventLoop/Drained.antt =====
-- The access monitor's process leaves no request unanswered: after a call of `ecall_tls_recv` no
-- decoder holds a request that is complete.
use anonym_sharing.Base.{ℕ, ◌≡◌, String, none, ok}
use anonym_sharing.Std.Order.{Bytes}
use anonym_sharing.Platform.{JsonLib, Crypto, Response}
use anonym_sharing.Enclave.{RequestDecoder, DecoderLaws}
use anonym_sharing.Enclave.Monitor.{Monitor, Enclave}
use anonym_sharing.Enclave.Monitor.Complete.{DumpLaw}

module _ {J D : Type 0} (json : JsonLib J) (crypto : Crypto) (law : DumpLaw json)
    (decoder : RequestDecoder D) (laws : DecoderLaws D decoder) (to_string : Response → String)
    (takes : (c : Bytes) (d : D) → (decoder.add_chunk c d).0 ≡ ok tt) where
  open decoder use {get_request, new_decoder}

  -- No decoder holds a request that is complete.
  abbrev IsDrained : Enclave D → Type 0
  IsDrained m = (fd : ℕ) → get_request (m.decoders fd) ≡ none
