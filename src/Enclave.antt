-- ===== src/Enclave.antt =====
-- anonymBE/src/enclave/ecalls_anonymbe.cpp and ecalls_writeproxy.cpp: the function `process_input`
-- that both servers give to the TLS connections. It feeds a chunk to the connection's decoder and
-- answers the requests that are complete; the two differ in what answers and in what they catch.
pub mod Dialogue
pub mod Monitor
pub mod Order
pub mod Writer
use anonym_sharing.Base.{
  ℕ, zero, suc, ◌+◌, ◌%◌, ◌^◌, String, List, [], ◌∷◌, ◌++◌, Option, none, some, Result, ok, raise,
  ◌≡◌, ◌<◌, ◌==◌, Bool, ℤ, pos, negsuc, if◌then◌else◌,
}
use anonym_sharing.Std.Order.{Bytes}
use anonym_sharing.Platform.{Request}
use anonym_sharing.Tls.{Tls, add_connection}

-- Http1Decoder for requests. `addChunk` may throw; `getRequest` takes the first request that is
-- complete out of the decoder.
pub record RequestDecoder (D : Type 0) : Type 0 where
  pub new_decoder : D
  pub add_chunk : Bytes → D → Result (Unit {0}) × D
  pub get_request : D → Option (Request × D)

-- What the decoder holds bounds the requests that it can still give: each one takes some of it.
pub record DecoderLaws (D : Type 0) (decoder : RequestDecoder D) : Type 0 where
  pub held : D → ℕ
  pub consumes : (d e : D) (r : Request) → decoder.get_request d ≡ some (r, e) → held e < held d

-- What a connection's requests change: the service, the count `requests_received` (an unsigned long)
-- and the texts that were given to `send`, oldest first.
pub record Served (S : Type 0) : Type 0 where
  pub service : S
  pub received : ℕ
  pub sent : List String

-- A server's enclave: what it serves, its table of TLS connections, and the decoder of the connection
-- under each descriptor.
pub record Connected (S D : Type 0) : Type 0 where
  pub served : Served S
  pub tls : Tls
  pub decoders : ℕ → D

-- How a call of the service ends: with the text of its response, or by an exception; `none` is a
-- call that never returns.
abbrev pub Handler : Type 0 → Type 0
Handler S = Request → S → Option (Result String × S)

-- response.toString(), of a response that the service returns.
abbrev pub text_of : {R : Type 0} → (R → String) → Result R → Result String
text_of to_string (ok r) = ok (to_string r)
text_of to_string (raise e) = raise e

module _ {D : Type 0} (decoder : RequestDecoder D) where
  abbrev pub replace : ℕ → D → (ℕ → D) → ℕ → D
  replace fd d decoders n = if n == fd then d else decoders n

  -- A connection that is accepted has a new decoder.
  unfoldable pub decoders_after : ℤ → ℕ → (ℕ → D) → ℕ → D
  decoders_after (pos r) fd decoders = replace fd decoder.new_decoder decoders
  decoders_after (negsuc r) fd decoders = decoders

  -- ecall_tls_accept
  unfoldable pub accept : {S : Type 0} → ℕ → Bool → Connected S D → ℤ × Connected S D
  unfolding add_connection decoders_after
  accept fd accepted m =
      let (r, tls) = add_connection fd accepted m.tls in
      (r, record m { tls = tls; decoders = decoders_after r fd m.decoders })

module _ {D S : Type 0} (decoder : RequestDecoder D) (handle : Handler S) where
  open decoder use {add_chunk, get_request}

  -- ++requests_received
  abbrev pub count : Served S → Served S
  count s = record s { received = (s.received + 1) % 2 ^ 64 }

  abbrev pub send_text : String → S → Served S → Served S
  send_text t service s = record s { service = service; sent = s.sent ++ t ∷ [] }

  -- while (decoder.getRequest(req)) { ... }
  unfoldable pub request_loop : ℕ → D → Served S → Option (Result (Unit {0}) × D × Served S)
  request_loop zero d s = none
  request_loop (suc fuel) d s = elim (get_request d) [
    | none ↦ some (ok tt, d, s)
    | some (request, d') ↦ elim (handle request s.service) [
      | none ↦ none
      | some (raise e, service) ↦ some (raise e, d', record (count s) { service = service })
      | some (ok response, service) ↦ request_loop fuel d' (send_text response service (count s))
    ]
  ]

  -- The body of the `try` block.
  unfoldable pub take_input : ℕ → Bytes → D → Served S → Option (Result (Unit {0}) × D × Served S)
  unfolding request_loop
  take_input fuel input d s =
      let (added, d') = add_chunk input d in
      elim added [ raise e ↦ some (raise e, d', s) | ok _ ↦ request_loop fuel d' s ]
