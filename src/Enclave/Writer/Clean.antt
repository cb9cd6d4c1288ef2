-- ===== src/Enclave/Writer/Clean.antt =====
-- What every call into the writer proxy's enclave keeps: the body of the shared response builder, and
-- the table of connections.
use anonym_sharing.Base.{
  ℕ, ◌≡◌, sym, subst, String, Bool, List, Option, ok, raise, ℤ, Option-cases, inl, inr,
}
use anonym_sharing.Platform.{JsonLib, Request}
use anonym_sharing.Options.{RawArguments}
use anonym_sharing.Std.Order.{Bytes}
use anonym_sharing.Tls.{Tls, Read, ecall_tls_recv}
use anonym_sharing.Tls.Table
use anonym_sharing.Tls.Kept.{ecall_tls_recv-IsValid, finish-IsValid}
use anonym_sharing.EventLoop.{Continues}
use anonym_sharing.Proxy.{WriterProxy, Started, returned, exited, init, finish}
use anonym_sharing.Proxy.Libs.{UrlLib, HttpLib, HttpLaws, TextLib, ResponseDecoder, Network, Minio}
use anonym_sharing.Proxy.Server.{treat_request}
use anonym_sharing.Proxy.Kept.{Keeps}
use anonym_sharing.Proxy.Memory.{treat_request-Keeps}
use anonym_sharing.Enclave.{RequestDecoder, DecoderLaws, Served, replace, accept}
use anonym_sharing.Enclave.Order.{settle}
use anonym_sharing.Enclave.Writer.{treat}
use anonym_sharing.Enclave.Writer.Calls.{
  WriterEnclave, deliver, ecall_init, ecall_finish, started, Ended, returns, waits, terminated,
}
use anonym_sharing.Enclave.Writer.Ready.{Ready, init-Ready}
use anonym_sharing.Enclave.Writer.Reachable.{Ends, deliver-Ends}
use anonym_sharing.Enclave.Dialogue.{Whenever}

module _ {B U R D J : Type 0} (http : HttpLib B R) (http_laws : HttpLaws B R http) (urls : UrlLib U)
    (texts : TextLib U) (decoder : ResponseDecoder D R) (network : Network) (json : JsonLib J)
    (minio : Minio) (to_string : R → String) (attempts : ℕ) (body : String) where
  open http_laws use {body_of}

  -- The shared builder has this body.
  abbrev pub IsClean : Served (WriterProxy B U) → Type 0
  IsClean s = body_of s.service.response_builder ≡ body

  module _ {Q : Type 0} (requests : RequestDecoder Q) (laws : DecoderLaws Q requests) where
    treat-IsClean :
        (r : Request) (s : Served (WriterProxy B U))
        → IsClean s
        → Whenever
            (λ x. IsClean (
              settle requests
                (treat http urls texts decoder network json minio requests laws to_string attempts)
                x
                s))
            (treat http urls texts decoder network json minio requests laws to_string attempts r
              s.service)
    unfolding treat
    treat-IsClean r s v =
        let a = treat_request http urls texts decoder network json minio attempts r s.service in
        let kept : Keeps http http_laws body a =
          treat_request-Keeps http http_laws urls texts decoder network json minio attempts r body
            s.service v in
        elim (Option-cases a) [
          | inl e ↦ rw (e, treat) tt
          | inr ((raise x, t), e) ↦ rw (e, treat) (subst (Keeps http http_laws body) e kept)
          | inr ((ok response, t), e) ↦ rw (e, treat) (subst (Keeps http http_laws body) e kept)
        ]

    -- The enclave: what is served is clean, and each entry of the table is its descriptor's.
    pub record IsTidy (m : WriterEnclave B U Q) : Type 0 where
      pub served : IsClean m.served
      pub table : Table.IsValid m.tls

    pub ecall_init-IsTidy :
        (connects : String → ℤ → Bool) (creates : Bool) (read : Bytes → String)
        (args : RawArguments) (m : WriterEnclave B U Q)
        → IsTidy m
        → Continues (λ x. IsTidy x.1) (ecall_init http urls connects creates read args m)
    unfolding ecall_init started
    ecall_init-IsTidy connects creates read args m v =
        from (init http urls connects creates _ m.served.service m.tls) (
          init-Ready http http_laws urls connects creates _ body m.served.service m.tls v.served
            v.table)
      where
        from :
            (x : Started × WriterProxy B U × Tls)
            → Ready http http_laws urls body x
            → Continues (λ y. IsTidy y.1) (started http urls m x)
        from (exited n, s, tls) h = tt
        from (returned r, s, tls) h = record { served = h.0; table = h.1 }

    pub accept-IsTidy :
        (fd : ℕ) (b : Bool) (m : WriterEnclave B U Q) → IsTidy m → IsTidy (accept requests fd b m).1
    unfolding accept
    accept-IsTidy fd b m v = record {
      served = v.served;
      table = Table.add_connection-IsValid fd b m.tls v.table;
    }

    pub deliver-IsTidy :
        (fd : ℕ) (reads : List Read) (m : WriterEnclave B U Q)
        → IsTidy m
        → Ends
            (λ x. IsTidy x.1)
            (deliver http urls texts decoder network json minio requests laws to_string attempts fd
              reads m)
    deliver-IsTidy fd reads m v = from _ (
        deliver-Ends http urls texts decoder network json minio requests laws to_string attempts
          (λ cs d s. IsClean s) (λ cs c d s h. h) (λ cs r d e s q h. treat-IsClean r s h) fd reads m
          v.served)
      where
        from :
            (x : Ended (Option ℤ × WriterEnclave B U Q))
            → Ends
                (λ y.
                  (d : Q) × IsClean y.1.served
                  × (y.1.decoders ≡ replace requests fd d m.decoders)
                  × (y.1.tls ≡ (ecall_tls_recv fd reads m.tls).tls))
                x
            → Ends (λ y. IsTidy y.1) x
        from waits h = tt
        from terminated h = tt
        from (returns y) h = record {
          served = h.1;
          table = subst Table.IsValid (sym h.3) (ecall_tls_recv-IsValid fd reads m.tls v.table);
        }

    pub ecall_finish-IsTidy :
        (m : WriterEnclave B U Q) → IsTidy m → IsTidy (ecall_finish http urls m)
    unfolding ecall_finish finish
    ecall_finish-IsTidy m v = record { served = v.served; table = finish-IsValid m.tls }
