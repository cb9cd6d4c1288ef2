-- ===== src/Enclave/Writer/Ready.antt =====
-- writerproxy_service.cpp: what `init` keeps of the response builder and of the table of connections.
use anonym_sharing.Base.{◌≡◌, ◌∙◌, String, Bool, ℤ, if_ind, ◌<>◌}
use anonym_sharing.Tls.{Tls}
use anonym_sharing.Tls.Table
use anonym_sharing.Tls.Kept.{init-IsValid}
use anonym_sharing.Proxy.{
  Arguments, WriterProxy, Started, returned, exited, init, connect_monitor, start_client,
  is_missing, names_protocol, is_partial, is_empty,
}
use anonym_sharing.Proxy.Libs.{UrlLib, HttpLib, HttpLaws}

module _ {B U R : Type 0} (http : HttpLib B R) (http_laws : HttpLaws B R http)
    (urls : UrlLib U) where
  open http_laws use {body_of}

  -- If `init` returns, the builder has this body and the table is as it should be.
  abbrev pub Ready : String → Started × WriterProxy B U × Tls → Type 0
  Ready body (returned r, s, tls) = (body_of s.response_builder ≡ body) × Table.IsValid tls
  Ready body (exited n, s, tls) = Unit {0}

  module _ (connects : String → ℤ → Bool) (creates : Bool) (args : Arguments) (body : String) where
    connect_monitor-Ready :
        (s : WriterProxy B U) (tls : Tls)
        → body_of s.response_builder ≡ body
        → Table.IsValid tls
        → Ready body (connect_monitor http urls connects creates args s tls)
    unfolding connect_monitor start_client
    connect_monitor-Ready s tls h v =
        let client : (u : U)
            → Ready body (start_client http urls creates args (record s { amendpoint_ = u }) tls) =
          λ u.
            if_ind (Ready body) creates
              (http_laws.body-headers _ _ ∙ (http_laws.body-protocol _ _ ∙ h), init-IsValid tls v)
              tt in
        if_ind (Ready body) (is_empty args.amendpoint) (client s.amendpoint_) (
          if_ind (Ready body)
            (let url = urls.parse_url ("https://" <> args.amendpoint) in
              connects (urls.host url) (urls.port url))
            (client (urls.parse_url ("https://" <> args.amendpoint))) tt)

    pub init-Ready :
        (s : WriterProxy B U) (tls : Tls)
        → body_of s.response_builder ≡ body
        → Table.IsValid tls
        → Ready body (init http urls connects creates args s tls)
    unfolding init
    init-Ready s tls h v =
        let P = Ready body in
        let s' = record s { tuser_ = args.tokenuser; tpass_ = args.tokenpass } in
        let s'' = record s' { isendpoint_ = urls.parse_url ("https://" <> args.tokenendpoint) } in
        if_ind P (is_missing args) (h, v)
          (if_ind P (names_protocol args) (h, v)
            (if_ind P (is_partial args) (h, v)
              (if_ind P (is_empty args.tokenendpoint) (connect_monitor-Ready s' tls h v)
                (connect_monitor-Ready s'' tls h v))))
