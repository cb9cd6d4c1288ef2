-- ===== src/Profile/Effects.antt =====
-- What each request of the driver does to the database.
use anonym_sharing.Base.{
  ℕ, ◌≤◌, suc, ◌≡◌, refl, sym, ap, ◌∙◌, subst, arith, String, true, false, Option, some, Result, ok,
  raise, Result-cases, inl, inr,
}
use anonym_sharing.Platform.{JsonLib, Crypto, Request, Response}
use anonym_sharing.Database.{MemDatabase, create_user, create_group, add_user_to_group, key_size}
use anonym_sharing.Service.{
  AnonymBe, on_database, process_put, process_post, post_command, create_user_request,
}
use anonym_sharing.Service.Server.{process_input, dispatch, begin}
use anonym_sharing.Service.Safety.{generate_envelope-Reads}
use anonym_sharing.Enclave.{Served, request_loop, take_input, text_of, count, send_text}
use anonym_sharing.Profile.{
  ReadyDecoder, RequestLib, Driven, Driver, RequestBuilder, as_request_decoder, answer_and_print,
  doreq, user, group, usergroup, user_body, print_if,
}

-- A request that is fed to the decoder when it holds nothing comes out whole, and leaves nothing.
pub record WireLaws {D : Type 0} (decoder : ReadyDecoder D) (requests : RequestLib) : Type 0 where
  pub not_ready : decoder.request_ready decoder.new_decoder ≡ false
  pub delivers :
      (r : Request)
      → (d : D) × (decoder.add_chunk (requests.wire r) decoder.new_decoder ≡ (ok tt, d))
        × (decoder.request_ready d ≡ true)
        × (decoder.take_request d ≡ (r, decoder.new_decoder))

-- The paths of the urls, and the members of the JSON texts for the users 0 to `users`.
pub record TextLaws {J : Type 0} (json : JsonLib J) (requests : RequestLib) (users : ℕ)
    : Type 0 where
  pub user_path : requests.encoded_path "https://localhost/access/user" ≡ "/access/user"
  pub group_path : requests.encoded_path "https://localhost/access/group" ≡ "/access/group"
  pub usergroup_path :
      requests.encoded_path "https://localhost/access/usergroup" ≡ "/access/usergroup"
  pub envelope_path :
      requests.encoded_path "https://localhost/verifier/envelope" ≡ "/verifier/envelope"
  pub user_object :
      (i : ℕ)
      → i ≤ users
      → (j : J) × (json.parse (user_body i) ≡ ok j) × (json.json_str j "user_id" ≡ ok (user i))
  pub usergroup_object :
      (i : ℕ)
      → i ≤ users
      → (j : J) × (json.parse (usergroup 1 i) ≡ ok j)
        × (json.json_str j "user_id" ≡ ok (user i))
        × (json.json_str j "group_name" ≡ ok (group 1))

module _ {J : Type 0} (json : JsonLib J) (crypto : Crypto) where
  -- The database after a request.
  abbrev pub db_after : Request → AnonymBe × ℕ → MemDatabase
  db_after r (s, draws) = (process_input json crypto r s draws).1.database_

  module _ (requests : RequestLib) (users : ℕ) (laws : TextLaws json requests users) where
    open requests use {encoded_path}

    abbrev pub request_to : String → String → String → Request
    request_to method url body = record { method = method; path = encoded_path url; body = body }

    pub user_core :
        (i : ℕ) (m : AnonymBe × ℕ)
        → i ≤ users
        → db_after (record { method = "POST"; path = "/access/user"; body = user_body i }) m
          ≡ (create_user (user i) (crypto.get_rand key_size m.1) m.0.database_).1
    unfolding process_input dispatch process_post post_command create_user_request on_database
    user_core i m b = let (j, p, q) = laws.user_object i b in rw p (rw q (ground arith))

    pub group_core :
        (i : ℕ) (m : AnonymBe × ℕ)
        → i ≤ users
        → db_after (record { method = "POST"; path = "/access/group"; body = usergroup 1 i }) m
          ≡ (create_group (group 1) (user i) m.0.database_).1
    unfolding process_input dispatch process_post post_command on_database
    group_core i m b =
        let (j, p, q, r) = laws.usergroup_object i b in rw p (rw q (rw r (ground arith)))

    pub usergroup_core :
        (i : ℕ) (m : AnonymBe × ℕ)
        → i ≤ users
        → db_after (record { method = "PUT"; path = "/access/usergroup"; body = usergroup 1 i }) m
          ≡ (add_user_to_group (group 1) (user i) m.0.database_).1
    unfolding process_input dispatch process_put on_database
    usergroup_core i m b =
        let (j, p, q, r) = laws.usergroup_object i b in rw p (rw q (rw r (ground arith)))

    pub envelope_core :
        (body : String) (m : AnonymBe × ℕ)
        → db_after (record { method = "POST"; path = "/verifier/envelope"; body = body }) m
          ≡ m.0.database_
    unfolding process_input dispatch process_post post_command
    envelope_core body m = elim (Result-cases (json.parse body)) [
      | inl (e, p) ↦ rw p
      | inr (j, p) ↦ rw p ((generate_envelope-Reads json crypto j).at (begin json crypto m.0 m.1))
    ]

    -- The same, for the paths that the urls have.
    pub at_path :
        (P : MemDatabase → Type 0) (method path url body : String) (m : AnonymBe × ℕ)
        → encoded_path url ≡ path
        → P (db_after (record { method = method; path = path; body = body }) m)
        → P (db_after (request_to method url body) m)
    at_path P method path url body m e h =
        subst (λ x. P (db_after (record { method = method; path = x; body = body }) m)) (sym e) h

module _ {J D : Type 0} (json : JsonLib J) (crypto : Crypto) (decoder : ReadyDecoder D)
    (requests : RequestLib) (to_string : Response → String) (fuel : ℕ)
    (wires : WireLaws decoder requests) where
  -- Between two requests the decoder holds nothing.
  abbrev pub resting : Served Driven → RequestBuilder → RequestBuilder → Driver D
  resting served p q = record {
    decoder = decoder.new_decoder;
    served = served;
    put_builder = p;
    post_builder = q;
  }

  -- One request that comes out of the decoder, for any service.
  take_one :
      {S : Type 0} (handle : Request → S → Option (Result String × S)) (r : Request) (s : Served S)
      (x : Result String) (u : S)
      → handle r s.service ≡ some (x, u)
      → (y : Result (Unit {0})) × (t : Served S) × (take_input
            (as_request_decoder decoder)
            handle
            (suc (suc fuel))
            (requests.wire r)
            decoder.new_decoder
            s
          ≡ some (y, decoder.new_decoder, t))
        × (t.service ≡ u)
  unfolding take_input request_loop
  take_one handle r s (raise e) u h =
      let (d, added, ready, taken) = wires.delivers r in
      (
        raise e,
        record (count (as_request_decoder decoder) handle s) { service = u },
        rw (ap (λ x. x.0) added, take_input)
            (rw (ap (λ x. x.1) added)
              (rw (ready, request_loop) (rw taken (rw h (rw (ap (λ x. x.1) taken)))))),
        refl,
      )
  take_one handle r s (ok text) u h =
      let (d, added, ready, taken) = wires.delivers r in
      (
        ok tt,
        send_text (as_request_decoder decoder) handle text u
            (count (as_request_decoder decoder) handle s),
        rw (ap (λ x. x.0) added, take_input)
            (rw (ap (λ x. x.1) added) (
              rw (ready, request_loop)
                (rw taken (
                  rw h (
                    rw (ap (λ x. x.1) taken)
                      (rw (wires.not_ready, request_loop) (rw (ap (λ x. x.1) taken)))))))),
        refl,
      )

  handled :
      (r : Request) (m : Driven)
      → (x : Result String) × (u : Driven) × (answer_and_print json crypto decoder requests
            to_string fuel r m
          ≡ some (x, u))
        × (u.0.0.database_ ≡ db_after json crypto r m.0)
  unfolding answer_and_print
  handled r ((service, draws), conn) =
      elim (Result-cases (text_of to_string (process_input json crypto r service draws).0)) [
        | inl (e, h) ↦ (
          raise e,
          (
            (
              (process_input json crypto r service draws).1,
              (process_input json crypto r service draws).2,
            ),
            conn,
          ),
          rw (h, answer_and_print),
          refl,
        )
        | inr (x, h) ↦ (
          ok x,
          (
            (
              (process_input json crypto r service draws).1,
              (process_input json crypto r service draws).2,
            ),
            print_if x conn,
          ),
          rw (h, answer_and_print),
          refl,
        )
      ]

  pub doreq_lem :
      (r : Request) (s : Served Driven) (p q : RequestBuilder)
      → (t : Served Driven) × (doreq json crypto decoder requests to_string
            (suc (suc fuel))
            (requests.wire r)
            (resting s p q)
          ≡ some (resting t p q))
        × (t.service.0.0.database_ ≡ db_after json crypto r s.service.0)
  unfolding doreq
  doreq_lem r s p q =
      let (x, u, h, kept) = handled r s.service in
      let (y, t, e, same) =
        take_one (answer_and_print json crypto decoder requests to_string fuel) r s x u h in
      (t, rw (e, doreq), ap (λ v. v.0.0.database_) same ∙ kept)
