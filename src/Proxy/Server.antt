-- ===== src/Proxy/Server.antt =====
-- writerproxy_service.cpp: `treat_request`, the choice by the method and the path.
use anonym_sharing.Base.{ℕ, some, if◌then◌else◌, str_eq}
use anonym_sharing.Platform.{Request, JsonLib}
use anonym_sharing.Proxy.{WriterProxy}
use anonym_sharing.Proxy.Libs.{UrlLib, HttpLib, TextLib, ResponseDecoder, Network, Minio}
use anonym_sharing.Proxy.Forward.{Served, forward, respond}
use anonym_sharing.Proxy.Token.{generate_token}

module _ {B U R D J : Type 0} (http : HttpLib B R) (urls : UrlLib U) (texts : TextLib U)
    (decoder : ResponseDecoder D R) (network : Network) (json : JsonLib J) (minio : Minio) where
  -- The fuel bounds the recursive calls of `forward`.
  unfoldable pub treat_request : ℕ → Request → WriterProxy B U → Served B U R
  unfolding forward respond generate_token
  treat_request fuel request s =
      let token = generate_token http urls texts decoder network json s in
      let stored = forward http urls texts minio fuel request s in
      let bad = some (respond http 400 "Bad Request" s) in
      if str_eq request.method "GET"
      then if str_eq request.path "/ping"
        then some (respond http 200 "OK" s)
        else if str_eq request.path "/token"
        then token
        else bad
      else if str_eq request.method "PUT"
      then stored
      else bad
