-- ===== src/Proxy/Exchange.antt =====
-- One exchange with another server: `request_reply` of writerproxy_service.cpp.
use anonym_sharing.Base.{
  ◌≡◌, refl, arith, String, true, false, List, [], ◌∷◌, ◌++◌, Option, none, some, ◌⊎◌, inl, inr,
  if◌then◌else◌, map, Bool-cases,
}
use anonym_sharing.Std.Order.{Bytes}
use anonym_sharing.Proxy.{WriterProxy, is_positive}
use anonym_sharing.Proxy.Libs.{UrlLib, HttpLib, TextLib, OutRequest, ResponseDecoder, Network, Peer}
use anonym_sharing.Proxy.Token.{replied, thrown, receive, request_reply, is_unset}

module _ {D R : Type 0} (decoder : ResponseDecoder D R) where
  open decoder use {new_decoder, add_chunk, get_response}

  -- The decoder after some chunks.
  abbrev pub feed : D → List Bytes → D
  feed d [] = d
  feed d (c ∷ cs) = feed (add_chunk d c) cs

  -- None of the chunks completes a response.
  abbrev pub Incomplete : D → List Bytes → Type 0
  Incomplete d [] = Unit {0}
  Incomplete d (c ∷ cs) = (get_response (add_chunk d c) ≡ none) × Incomplete (add_chunk d c) cs

  -- The peer takes the request and answers it, in one or more chunks.
  pub record Delivers (p : Peer) (r : R) : Type 0 where
    pub accepts : p.connects ≡ true
    pub takes : is_positive p.sent ≡ true
    pub first : List Bytes
    pub last : Bytes
    pub later : List (Option Bytes)
    pub arrives : p.receives ≡ map some first ++ some last ∷ later
    pub pending : Incomplete new_decoder first
    pub complete : get_response (add_chunk (feed new_decoder first) last) ≡ some r

  -- The connection is refused, or the request cannot be sent, or an error comes before the end of
  -- the answer.
  abbrev pub Breaks : Peer → Type 0
  Breaks p =
      (p.connects ≡ false)
      ⊎ ((is_positive p.sent ≡ false)
          ⊎ ((first : List Bytes) × (later : List (Option Bytes)) × (p.receives
                ≡ map some first ++ none ∷ later)
              × Incomplete new_decoder first))

module _ {B R D : Type 0} (http : HttpLib B R) (decoder : ResponseDecoder D R) where
  receive-map :
      (error : R) (d : D) (cs : List Bytes) (rest : List (Option Bytes))
      → Incomplete decoder d cs
      → receive http decoder error d (map some cs ++ rest)
        ≡ receive http decoder error (feed decoder d cs) rest
  unfolding receive
  receive-map error d [] rest i = refl
  receive-map error d (c ∷ cs) rest i =
      rw (i.0, receive) (receive-map error (decoder.add_chunk d c) cs rest i.1)

  -- The body that a response stands for: nothing if its status is no success.
  abbrev pub content : R → String
  content r = if http.is_successful r then http.body r else ""

  receive_last :
      (error r : R) (d : D) (c : Bytes) (later : List (Option Bytes))
      → decoder.get_response (decoder.add_chunk d c) ≡ some r
      → receive http decoder error d (some c ∷ later) ≡ replied (content r)
  unfolding receive
  receive_last error r d c later e = rw (e, receive) (ground arith)

module _ {U : Type 0} (urls : UrlLib U) (texts : TextLib U) (network : Network) where
  -- The server at an endpoint, for one request.
  abbrev pub peer_of : U → OutRequest U → Peer
  peer_of endpoint request =
      network.exchange (urls.host endpoint) (urls.port endpoint) (texts.wire request)

module _ {B U R D : Type 0} (http : HttpLib B R) (urls : UrlLib U) (texts : TextLib U)
    (decoder : ResponseDecoder D R) (network : Network) where
  module _ (endpoint : U) (request : OutRequest U) (s : WriterProxy B U) where
    -- What `request_reply` leaves of the proxy where the endpoint has a port.
    abbrev pub asked : WriterProxy B U
    asked = record s {
      response_builder = http.message "Gateway Timeout" (http.code 504 s.response_builder);
    }

    pub request_reply-Delivers :
        (r : R)
        → is_unset (urls.port endpoint) ≡ false
        → Delivers decoder (peer_of urls texts network endpoint request) r
        → request_reply http urls texts decoder network endpoint request s
          ≡ (replied (content http decoder r), asked)
    unfolding request_reply
    request_reply-Delivers r set v =
        rw (set, v.accepts, v.takes, v.arrives, request_reply)
          (rw (receive-map http decoder _ _ v.first _ v.pending)
            (rw (receive_last http decoder _ r _ v.last v.later v.complete)))

    pub request_reply-Breaks :
        is_unset (urls.port endpoint) ≡ false
        → Breaks decoder (peer_of urls texts network endpoint request)
        → request_reply http urls texts decoder network endpoint request s
          ≡ (thrown (http.build asked.response_builder), asked)
    unfolding request_reply receive
    request_reply-Breaks set (inl e) = rw (set, e, request_reply)
    request_reply-Breaks set (inr (inl e)) =
        elim (Bool-cases (peer_of urls texts network endpoint request).connects) [
          | inl c ↦ rw (set, c, e, request_reply)
          | inr c ↦ rw (set, c, request_reply)
        ]
    request_reply-Breaks set (inr (inr (first, later, e, i))) =
        elim (Bool-cases (peer_of urls texts network endpoint request).connects) [
          | inl c ↦
              elim (Bool-cases (is_positive (peer_of urls texts network endpoint request).sent)) [
                | inl t ↦
                    rw (set, c, t, e, request_reply) (rw (receive-map http decoder _ _ first _ i))
                | inr t ↦ rw (set, c, t, request_reply)
              ]
          | inr c ↦ rw (set, c, request_reply)
        ]

    pub request_reply_unset :
        is_unset (urls.port endpoint) ≡ true
        → let b = http.message "Method Not Allowed" (http.code 405 s.response_builder) in
          request_reply http urls texts decoder network endpoint request s
          ≡ (thrown (http.build b), record s { response_builder = b })
    unfolding request_reply
    request_reply_unset unset = rw (unset, request_reply)
