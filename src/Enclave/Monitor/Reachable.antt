-- ===== src/Enclave/Monitor/Reachable.antt =====
-- Every sequence of calls into the access monitor's enclave returns and keeps the state valid.
use anonym_sharing.Base.{
  ℕ, suc, ℤ, ◌≡◌, ◌==◌, if◌then◌else◌, refl, sym, subst, arith, String, List, [], ◌∷◌, Option, none,
  some, Result, Option-cases, Result-cases, inl, inr,
}
use anonym_sharing.Std.Order.{Bytes}
use anonym_sharing.Platform.{JsonLib, Crypto, Request, Response}
use anonym_sharing.Database.Invariant
use anonym_sharing.Service.{init}
use anonym_sharing.Service.Server.{process_input}
use anonym_sharing.Service.Safety.{process_input-IsValid}
use anonym_sharing.Tls.{Read, ecall_tls_recv}
use anonym_sharing.Tls.Table
use anonym_sharing.Tls.Kept.{ecall_tls_recv-IsValid, init-IsValid, finish-IsValid}
use anonym_sharing.Enclave.{
  RequestDecoder, DecoderLaws, Served, accept, take_input, request_loop, text_of,
}
use anonym_sharing.Enclave.Order.{Returns, request_loop-Keeps, settle, settle-service}
use anonym_sharing.Enclave.Monitor.{
  Monitor, Enclave, Ecall, calls_init, calls_accept, calls_recv, calls_finish, handle, catch_input,
  feed, feed_all, deliver, start, perform, perform_all,
}

pub record IsValid {D : Type 0} (m : Enclave D) : Type 0 where
  pub database : Invariant.IsValid m.served.service.0.database_
  pub table : Table.IsValid m.tls

module _ {J D : Type 0} (json : JsonLib J) (crypto : Crypto) (decoder : RequestDecoder D)
    (laws : DecoderLaws D decoder) (to_string : Response → String) where
  open decoder use {get_request, add_chunk}
  open laws use {held, consumes}

  -- What is served after one request, and after `init`.
  abbrev answered : Request → Served Monitor → Served Monitor
  answered r s =
      let (answer, after, drawn) = process_input json crypto r s.service.0 s.service.1 in
      settle decoder (handle json crypto decoder laws to_string)
        (text_of to_string answer, (after, drawn)) s

  abbrev restarted : ℕ → Served Monitor → Served Monitor
  restarted indexed s = record s { service = ((init indexed s.service.0).1, s.service.1) }

  -- What the requests keep, the calls keep.
  module _ (P : Served Monitor → Type 0)
      (answers : (r : Request) (s : Served Monitor) → P s → P (answered r s)) where
    handle-Keeps :
        (r : Request) (s : Served Monitor)
        → P s
        → Returns
            (λ x. P (settle decoder (handle json crypto decoder laws to_string) x s))
            (handle json crypto decoder laws to_string r s.service)
    unfolding handle
    handle-Keeps r s v = answers r s v

    caught :
        (r : Option (Result (Unit {0}) × D × Served Monitor))
        → Returns (λ x. P x.2) r
        → Returns (λ x. P x.1) (catch_input json crypto decoder laws to_string r)
    unfolding catch_input
    caught none h = absurd h
    caught (some r) h = h

    feed-Keeps :
        (input : Bytes) (d : D) (s : Served Monitor)
        → P s
        → Returns (λ r. P r.1) (feed json crypto decoder laws to_string input d s)
    unfolding feed take_input catch_input
    feed-Keeps input d s v = elim (Result-cases (add_chunk input d).0) [
      | inl (x, e) ↦ rw (e, take_input) v
      | inr (u, e) ↦
          let d' = (add_chunk input d).1 in
          let kept =
            request_loop-Keeps decoder (handle json crypto decoder laws to_string) laws P
              (suc (held d')) d' s handle-Keeps (omega arith) v in
          rw (e, take_input)
            (caught
              (request_loop decoder (handle json crypto decoder laws to_string) (suc (held d')) d'
                s)
              kept)
    ]

    feed_all-Keeps :
        (chunks : List Bytes) (d : D) (s : Served Monitor)
        → P s
        → Returns (λ r. P r.1) (feed_all json crypto decoder laws to_string chunks d s)
    unfolding feed_all
    feed_all-Keeps [] d s v = v
    feed_all-Keeps (c ∷ cs) d s v =
        let kept = feed-Keeps c d s v in
        elim (Option-cases (feed json crypto decoder laws to_string c d s)) [
          | inl e ↦ absurd (subst (Returns (λ r. P r.1)) e kept)
          | inr ((d', s'), e) ↦
              rw (e, feed_all) (feed_all-Keeps cs d' s' (subst (Returns (λ r. P r.1)) e kept))
        ]

    start-Keeps :
        (indexed : ℕ) (m : Enclave D)
        → ((i : ℕ) (s : Served Monitor) → P s → P (restarted i s))
        → P m.served
        → P (start json crypto decoder laws to_string indexed m).1.served
    unfolding start
    start-Keeps indexed m restarts v = restarts indexed m.served v

    -- A call of `ecall_tls_recv` returns, keeps this, and leaves the table that the reads leave.
    deliver-Keeps :
        (fd : ℕ) (reads : List Read) (m : Enclave D)
        → P m.served
        → (r : Option ℤ) × (m' : Enclave D) × (deliver json crypto decoder laws to_string fd reads m
            ≡ some (r, m'))
          × P m'.served
          × (m'.tls ≡ (ecall_tls_recv fd reads m.tls).tls)
    unfolding deliver
    deliver-Keeps fd reads m v =
        let h = ecall_tls_recv fd reads m.tls in
        let kept = feed_all-Keeps h.chunks (m.decoders fd) m.served v in
        elim (Option-cases
          (feed_all json crypto decoder laws to_string h.chunks (m.decoders fd) m.served)) [
            | inl e ↦ absurd (subst (Returns (λ r. P r.1)) e kept)
            | inr ((d, s), e) ↦ (
              h.result,
              record {
                served = s;
                tls = h.tls;
                decoders = λ n. if n == fd then d else m.decoders n;
              },
              rw (e, deliver),
              subst (Returns (λ r. P r.1)) e kept,
              refl,
            )
          ]

  abbrev HasValid : Served Monitor → Type 0
  HasValid s = Invariant.IsValid s.service.0.database_

  answered-HasValid : (r : Request) (s : Served Monitor) → HasValid s → HasValid (answered r s)
  answered-HasValid r s v =
      subst (λ u. Invariant.IsValid u.0.database_)
        (sym (settle-service decoder (handle json crypto decoder laws to_string) _ _ s))
        (process_input-IsValid json crypto r s.service.0 s.service.1 v)

  restarted-HasValid : (i : ℕ) (s : Served Monitor) → HasValid s → HasValid (restarted i s)
  unfolding init
  restarted-HasValid i s v = v

  pub received-IsValid :
      (fd : ℕ) (reads : List Read) (m : Enclave D)
      → IsValid m
      → (r : Option ℤ) × (m' : Enclave D) × (deliver json crypto decoder laws to_string fd reads m
          ≡ some (r, m'))
        × IsValid m'
  received-IsValid fd reads m v =
      let (r, m', e, kept, table) =
        deliver-Keeps HasValid answered-HasValid fd reads m v.database in
      (
        r,
        m',
        e,
        record {
          database = kept;
          table = subst Table.IsValid (sym table) (ecall_tls_recv-IsValid fd reads m.tls v.table);
        },
      )

  pub perform-IsValid :
      (c : Ecall) (m : Enclave D)
      → IsValid m
      → Returns (λ r. IsValid r.1) (perform json crypto decoder laws to_string c m)
  unfolding perform start accept
  perform-IsValid (calls_init i) m v = record {
    database = start-Keeps HasValid answered-HasValid i m restarted-HasValid v.database;
    table = init-IsValid m.tls v.table;
  }
  perform-IsValid (calls_accept fd b) m v = record {
    database = v.database;
    table = Table.add_connection-IsValid fd b m.tls v.table;
  }
  perform-IsValid (calls_recv fd reads) m v =
      let (r, m', e, kept) = received-IsValid fd reads m v in rw (e, perform) kept
  perform-IsValid calls_finish m v = record { database = v.database; table = finish-IsValid m.tls }

  -- From a valid enclave every sequence of calls returns and leaves a valid one: the database's
  -- groups have only existing users, and each entry of the table is its descriptor's.
  pub perform_all-IsValid :
      (calls : List Ecall) (m : Enclave D)
      → IsValid m
      → Returns (λ r. IsValid r.1) (perform_all json crypto decoder laws to_string calls m)
  unfolding perform_all
  perform_all-IsValid [] m v = v
  perform_all-IsValid (c ∷ cs) m v =
      let kept = perform-IsValid c m v in
      elim (Option-cases (perform json crypto decoder laws to_string c m)) [
        | inl e ↦ absurd (subst (Returns (λ r. IsValid r.1)) e kept)
        | inr ((x, m'), e) ↦
            let rest = perform_all-IsValid cs m' (subst (Returns (λ r. IsValid r.1)) e kept) in
            elim (Option-cases (perform_all json crypto decoder laws to_string cs m')) [
              | inl q ↦ absurd (subst (Returns (λ r. IsValid r.1)) q rest)
              | inr ((xs, m''), q) ↦
                  rw (e, perform_all)
                    (rw (q, perform_all) (subst (Returns (λ r. IsValid r.1)) q rest))
            ]
      ]
