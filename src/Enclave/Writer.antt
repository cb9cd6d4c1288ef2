-- ===== src/Enclave/Writer.antt =====
-- anonymBE/src/enclave/ecalls_writeproxy.cpp: the `process_input` of the writer proxy, which has one
-- handler: what is no std::exception leaves it.
pub mod Calls
pub mod Dialogue
pub mod Reachable
pub mod Ready
pub mod Clean
use anonym_sharing.Base.{
  ℕ, suc, ◌+◌, ◌%◌, ◌^◌, ◌<◌, ◌≡◌, ◌≢◌, refl, ap, arith, String, [], false, Option, none, some,
  Result, ok, raise, Exception, unknown,
}
use anonym_sharing.Std.Order.{Bytes}
use anonym_sharing.Platform.{Request, JsonLib}
use anonym_sharing.Proxy.{WriterProxy}
use anonym_sharing.Proxy.Libs.{UrlLib, HttpLib, HttpLaws, TextLib, ResponseDecoder, Network, Minio}
use anonym_sharing.Proxy.Token.{is_unset}
use anonym_sharing.Proxy.Exchange.{Delivers}
use anonym_sharing.Proxy.Credentials.{token_refused}
use anonym_sharing.Proxy.Replies.{identity_peer}
use anonym_sharing.Proxy.Server.{treat_request}
use anonym_sharing.Enclave.{
  RequestDecoder, DecoderLaws, Served, Handler, take_input, text_of, count,
}
use anonym_sharing.Enclave.Order.{after, request_loop_raises}
use mathlib.Core.List.{append-nil}

-- catch (const std::exception &e): a print.
unfoldable pub catch_std : Result (Unit {0}) → Result (Unit {0})
catch_std (raise unknown) = raise unknown
catch_std _ = ok tt

catch_std-standard : (e : Exception) → e ≢ unknown → catch_std (raise e) ≡ ok tt
unfolding catch_std
catch_std-standard e h = ground (arith, h)

module _ {B U R D J Q : Type 0} (http : HttpLib B R) (urls : UrlLib U) (texts : TextLib U)
    (decoder : ResponseDecoder D R) (network : Network) (json : JsonLib J) (minio : Minio)
    (requests : RequestDecoder Q) (laws : DecoderLaws Q requests) (to_string : R → String)
    (attempts : ℕ) where
  open requests use {add_chunk, get_request}
  open laws use {held}

  -- writerproxy.treat_request(req).toString(); `attempts` bounds those of an upload.
  unfoldable pub treat : Handler (WriterProxy B U)
  unfolding treat_request
  treat request s =
      elim (treat_request http urls texts decoder network json minio attempts request s) [
        | none ↦ none
        | some (r, s') ↦ some (text_of to_string r, s')
      ]

  abbrev pub caught :
      Option (Result (Unit {0}) × Q × Served (WriterProxy B U))
      → Option (Result (Unit {0}) × Q × Served (WriterProxy B U))
  caught none = none
  caught (some (r, d, s)) = some (catch_std r, d, s)

  -- process_input, with fuel for one more request than the decoder can hold.
  unfoldable pub process_chunk :
      Bytes
      → Q
      → Served (WriterProxy B U)
      → Option (Result (Unit {0}) × Q × Served (WriterProxy B U))
  unfolding take_input treat catch_std
  process_chunk input d s =
      caught (take_input requests treat (suc (held (add_chunk input d).1)) input d s)

  -- Where the identity server refuses a client that asks for a token, the client gets no answer: the
  -- request is counted and taken out of the decoder, nothing is sent for it, and requests that came
  -- behind it stay in the decoder until the next chunk. (The parser throws a standard exception at
  -- the empty text.)
  pub refused_token_unanswered :
      (http_laws : HttpLaws B R http) (r : R) (why : Exception) (body : String) (input : Bytes)
      (d d' e : Q) (s : Served (WriterProxy B U))
      → s.received < 2 ^ 64
      → add_chunk input d ≡ (ok tt, d')
      → get_request d' ≡ some (record { method = "GET"; path = "/token"; body = body }, e)
      → is_unset (urls.port s.service.isendpoint_) ≡ false
      → Delivers decoder (identity_peer http urls texts decoder network json http_laws s.service) r
      → http.is_successful r ≡ false
      → json.parse "" ≡ raise why
      → why ≢ unknown
      → (t : Served (WriterProxy B U)) × (process_chunk input d s ≡ some (ok tt, e, t))
        × (t.sent ≡ s.sent)
        × (t.received ≡ (s.received + 1) % 2 ^ 64)
  unfolding process_chunk take_input treat treat_request catch_std
  refused_token_unanswered http_laws r why body input d d' e s b a g set v bad empty std =
      let request : Request = record { method = "GET"; path = "/token"; body = body } in
      let (t, q) =
        token_refused http urls texts decoder network json http_laws r why s.service set v bad
          empty in
      let stops =
        request_loop_raises requests treat laws [] [] request why (suc (held d')) d' d' e s.service
          t s b (omega arith) refl refl g (rw (q, treat, treat_request)) in
      (
        record (count requests treat (after requests treat [] [] s.service s)) { service = t },
        rw (ap (λ x. x.0) a, take_input)
            (rw (ap (λ x. x.1) a) (rw stops (rw (catch_std-standard why std)))),
        append-nil s.sent,
        omega arith,
      )
