-- ===== src/Enclave/Monitor.antt =====
-- anonymBE/src/enclave/ecalls_anonymbe.cpp: the calls into the access monitor's enclave, over its
-- service, its table of TLS connections and the decoder of each connection. The calls are taken one
-- after the other. `ecall_tls_recv` of tls_config.cpp gives each chunk to `process_input`.
pub mod Complete
pub mod Dialogue
pub mod Reachable
use anonym_sharing.Base.{
  ℕ, suc, ◌==◌, String, Bool, List, [], ◌∷◌, Option, none, some, Result, ok, raise, ℤ, pos, negsuc,
  if◌then◌else◌,
}
use anonym_sharing.Std.Order.{Bytes}
use anonym_sharing.Platform.{JsonLib, Crypto, Request, Response}
use anonym_sharing.Service.{AnonymBe, init}
use anonym_sharing.Service.Server.{process_input}
use anonym_sharing.Tls.{Tls, Read, add_connection, ecall_tls_recv, finish}
use anonym_sharing.Tls
use anonym_sharing.Enclave.{
  RequestDecoder, DecoderLaws, Served, Connected, replace, accept, Handler, take_input, text_of,
}

-- The service and the count of random draws so far.
abbrev pub Monitor : Type 0
Monitor = AnonymBe × ℕ

-- The access monitor's enclave.
abbrev pub Enclave : Type 0 → Type 0
Enclave D = Connected Monitor D

-- A call from outside, with what the network does: the handshake's outcome, or what the reads give.
pub data Ecall : Type 0 where
  calls_init : (indexed : ℕ) → Ecall
  calls_accept : (fd : ℕ) → (accepted : Bool) → Ecall
  calls_recv : (fd : ℕ) → (reads : List Read) → Ecall
  calls_finish : Ecall

module _ {J D : Type 0} (json : JsonLib J) (crypto : Crypto) (decoder : RequestDecoder D)
    (laws : DecoderLaws D decoder) (to_string : Response → String) where
  open decoder use {new_decoder, add_chunk}
  open laws use {held}

  -- anonymbe.process_input(req).toString()
  unfoldable pub handle : Handler Monitor
  unfolding process_input
  handle request (service, draws) =
      let (answer, after, drawn) = process_input json crypto request service draws in
      some (text_of to_string answer, (after, drawn))

  -- Both handlers only print.
  unfoldable pub catch_input :
      Option (Result (Unit {0}) × D × Served Monitor) → Option (D × Served Monitor)
  catch_input none = none
  catch_input (some (_, d, s)) = some (d, s)

  -- process_input, with fuel for one more request than the decoder can hold.
  unfoldable pub feed : Bytes → D → Served Monitor → Option (D × Served Monitor)
  unfolding take_input handle catch_input
  feed input d s =
      catch_input (take_input decoder handle (suc (held (add_chunk input d).1)) input d s)

  -- The calls of `process_input` in the loop of `ecall_tls_recv`.
  unfoldable pub feed_all : List Bytes → D → Served Monitor → Option (D × Served Monitor)
  unfolding feed
  feed_all [] d s = some (d, s)
  feed_all (chunk ∷ chunks) d s = elim (feed chunk d s) [
    | none ↦ none
    | some (d', s') ↦ feed_all chunks d' s'
  ]

  unfoldable pub deliver : ℕ → List Read → Enclave D → Option (Option ℤ × Enclave D)
  unfolding ecall_tls_recv feed_all
  deliver fd reads m =
      let h = ecall_tls_recv fd reads m.tls in
      elim (feed_all h.chunks (m.decoders fd) m.served) [
        | none ↦ none
        | some (d, s) ↦ some (
          h.result,
          record { served = s; tls = h.tls; decoders = replace decoder fd d m.decoders },
        )
      ]

  unfoldable pub start : ℕ → Enclave D → ℤ × Enclave D
  unfolding init Tls.init
  start indexed m =
      let (r, service) = init indexed m.served.service.0 in
      (
        pos r,
        record m {
          tls = Tls.init m.tls;
          served = record (m.served) { service = (service, m.served.service.1) };
        },
      )

  abbrev pub ecall_finish : Enclave D → Enclave D
  ecall_finish m = record m { tls = finish m.tls }

  -- The result and the enclave after the call; `ecall_finish` has no result, here 0. No result is a call that waits for its next read;
  -- `none` is one that would never return from `process_input`.
  unfoldable pub perform : Ecall → Enclave D → Option (Option ℤ × Enclave D)
  unfolding start accept deliver finish
  perform (calls_init indexed) m = let (r, m') = start indexed m in some (some r, m')
  perform (calls_accept fd accepted) m =
      let (r, m') = accept decoder fd accepted m in some (some r, m')
  perform (calls_recv fd reads) m = deliver fd reads m
  perform calls_finish m = some (some (pos 0), ecall_finish m)

  -- The results, oldest first, and the enclave after the calls.
  unfoldable pub perform_all : List Ecall → Enclave D → Option (List (Option ℤ) × Enclave D)
  unfolding perform
  perform_all [] m = some ([], m)
  perform_all (call ∷ calls) m = elim (perform call m) [
    | none ↦ none
    | some (r, m') ↦ elim (perform_all calls m') [
      | none ↦ none
      | some (rs, m'') ↦ some (r ∷ rs, m'')
    ]
  ]
