-- ===== src/Proxy/Start.antt =====
-- When the writer proxy starts: `init` of writerproxy_service.cpp.
use package.text.Mathlib.Text.{starts_with}
use anonym_sharing.Base.{
  ◌≡◌, ◌↔◌, refl, arith, String, Bool, true, false, ℤ, pos, negsuc, some, ◌⊎◌, ◌<>◌, ℕ, if_ind, ◌≤◌,
  ◌≢◌,
}
use anonym_sharing.Tls.{Tls}
use anonym_sharing.Tls
use anonym_sharing.Proxy.{
  Arguments, WriterProxy, Started, returned, is_empty, init, connect_monitor, is_missing,
  names_protocol, is_partial,
}
use anonym_sharing.Proxy.Libs.{UrlLib, HttpLib}

module _ {B U R : Type 0} (http : HttpLib B R) (urls : UrlLib U) (connects : String → ℤ → Bool)
    (creates : Bool) where
  -- The monitor's endpoint accepts a connection.
  abbrev pub reaches : String → Bool
  reaches endpoint =
      let url = urls.parse_url ("https://" <> endpoint) in connects (urls.host url) (urls.port url)

  -- What the arguments must be: MinIO's three are given, no endpoint names a protocol, the three of
  -- the identity server are given or none of them is, and the monitor, if there is one, answers.
  pub record IsUsable (args : Arguments) : Type 0 where
    pub endpoint : is_empty args.minioendpoint ≡ false
    pub key : is_empty args.minioaccesskey ≡ false
    pub secret : is_empty args.miniosecret ≡ false
    pub minio_plain : starts_with args.minioendpoint "http" ≡ false
    pub monitor_plain : starts_with args.amendpoint "http" ≡ false
    pub token_plain : starts_with args.tokenendpoint "http" ≡ false
    pub user_given : is_empty args.tokenuser ≡ is_empty args.tokenendpoint
    pub pass_given : is_empty args.tokenpass ≡ is_empty args.tokenendpoint
    pub monitor : (is_empty args.amendpoint ≡ true) ⊎ (reaches args.amendpoint ≡ true)
    pub client : creates ≡ true

  start_zero :
      (args : Arguments) (s : WriterProxy B U) (tls : Tls)
      → (connect_monitor http urls connects creates args s tls).0 ≡ returned (pos 0)
      → ((is_empty args.amendpoint ≡ true) ⊎ (reaches args.amendpoint ≡ true)) × (creates ≡ true)
  unfolding connect_monitor
  start_zero args s tls h = ground arith

  -- The three tests pass.
  abbrev Passes : Arguments → Type 0
  Passes args =
      (is_missing args ≡ false) × (names_protocol args ≡ false) × (is_partial args ≡ false)

  zero-Passes :
      (args : Arguments) (s : WriterProxy B U) (tls : Tls)
      → (init http urls connects creates args s tls).0 ≡ returned (pos 0)
      → Passes args
        × ((is_empty args.amendpoint ≡ true) ⊎ (reaches args.amendpoint ≡ true))
        × (creates ≡ true)
  unfolding init
  zero-Passes args s tls h =
      let s' = record s { tuser_ = args.tokenuser; tpass_ = args.tokenpass } in
      let s'' = record s' { isendpoint_ = urls.parse_url ("https://" <> args.tokenendpoint) } in
      let plain = start_zero args s' tls in
      let token = start_zero args s'' tls in ground (arith, plain, token)

  zero-IsUsable :
      (args : Arguments) (s : WriterProxy B U) (tls : Tls)
      → (init http urls connects creates args s tls).0 ≡ returned (pos 0)
      → IsUsable args
  unfolding is_missing names_protocol is_partial
  zero-IsUsable args s tls h =
      let ((missing, protocol, partial), monitor, client) = zero-Passes args s tls h in
      record {
        endpoint = ground arith;
        key = ground arith;
        secret = ground arith;
        minio_plain = ground arith;
        monitor_plain = ground arith;
        token_plain = ground arith;
        user_given = ground arith;
        pass_given = ground arith;
        monitor = monitor;
        client = client;
      }

  IsUsable-Passes : (args : Arguments) → IsUsable args → Passes args
  unfolding is_missing names_protocol is_partial
  IsUsable-Passes args u = (ground arith, ground arith, ground arith)

  -- What `init` has set up when it returns 0.
  pub record IsReady (args : Arguments) (r : Started × WriterProxy B U × Tls) : Type 0 where
    pub code : r.0 ≡ returned (pos 0)
    pub client :
        r.1.client ≡ some ("https://" <> args.minioendpoint, args.minioaccesskey, args.miniosecret)
    pub user : r.1.tuser_ ≡ args.tokenuser
    pub pass : r.1.tpass_ ≡ args.tokenpass
    pub context : r.2.ssl_ctx ≡ true

  connect-IsReady :
      (args : Arguments) (s : WriterProxy B U) (tls : Tls)
      → IsUsable args
      → s.tuser_ ≡ args.tokenuser
      → s.tpass_ ≡ args.tokenpass
      → IsReady args (connect_monitor http urls connects creates args s tls)
  unfolding connect_monitor Tls.init
  connect-IsReady args s tls u h k = record {
    code = ground arith;
    client = ground arith;
    user = ground arith;
    pass = ground arith;
    context = ground arith;
  }

  IsUsable-IsReady :
      (args : Arguments) (s : WriterProxy B U) (tls : Tls)
      → IsUsable args
      → IsReady args (init http urls connects creates args s tls)
  unfolding init
  IsUsable-IsReady args s tls u =
      let (missing, protocol, partial) = IsUsable-Passes args u in
      let s' = record s { tuser_ = args.tokenuser; tpass_ = args.tokenpass } in
      let s'' = record s' { isendpoint_ = urls.parse_url ("https://" <> args.tokenendpoint) } in
      rw (missing, protocol, partial)
        (if_ind (IsReady args) (is_empty args.tokenendpoint)
          (connect-IsReady args s' tls u refl refl) (connect-IsReady args s'' tls u refl refl))

  -- `init` returns 0 exactly for usable arguments, and then the client, the credentials of the
  -- identity server and the TLS context are set up.
  pub init-IsReady :
      (args : Arguments) (s : WriterProxy B U) (tls : Tls)
      → let r = init http urls connects creates args s tls in
        (IsUsable args ↔ (r.0 ≡ returned (pos 0))) × (IsUsable args ↔ IsReady args r)
  init-IsReady args s tls = (
    (λ u. (IsUsable-IsReady args s tls u).code, zero-IsUsable args s tls),
    (IsUsable-IsReady args s tls, λ r. zero-IsUsable args s tls r.code),
  )

  connect-ne-negative :
      (n : ℕ) (args : Arguments) (s : WriterProxy B U) (tls : Tls)
      → (connect_monitor http urls connects creates args s tls).0 ≢ returned (negsuc n)
  unfolding connect_monitor
  connect-ne-negative n args s tls = λ h. ground arith

  -- Where `init` returns a negative code, it is -1, -2 or -3, and neither the client nor the TLS
  -- connections have been touched.
  pub init_refused :
      (n : ℕ) (args : Arguments) (s : WriterProxy B U) (tls : Tls)
      → (init http urls connects creates args s tls).0 ≡ returned (negsuc n)
      → let r = init http urls connects creates args s tls in
        (n ≤ 2) × (r.1.client ≡ s.client) × (r.2 ≡ tls)
  unfolding init
  init_refused n args s tls h =
      let s' = record s { tuser_ = args.tokenuser; tpass_ = args.tokenpass } in
      let s'' = record s' { isendpoint_ = urls.parse_url ("https://" <> args.tokenendpoint) } in
      let plain = connect-ne-negative n args s' tls in
      let token = connect-ne-negative n args s'' tls in
      (ground (arith, plain, token), ground (arith, plain, token), ground (arith, plain, token))
