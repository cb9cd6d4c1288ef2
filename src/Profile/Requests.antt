-- ===== src/Profile/Requests.antt =====
-- Each request of the driver, from one state at rest to the next.
use anonym_sharing.Base.{ℕ, ◌≤◌, suc, ◌≡◌, ap, ◌∙◌, String, Option, some}
use anonym_sharing.Std.Order.{Bytes}
use anonym_sharing.Platform.{JsonLib, Crypto, Response}
use anonym_sharing.Database.{MemDatabase, key_size}
use anonym_sharing.Database.Calls.{creates_user, creates_group, adds_user_to_group}
use anonym_sharing.Database.Spec.{Spec, view, step}
use anonym_sharing.Database.Refinement.{refines_add, refines_create_user, refines_create_group}
use anonym_sharing.Enclave.{Served}
use anonym_sharing.Profile.{
  ReadyDecoder, RequestLib, Driven, Driver, RequestBuilder, user, group, doreq, do_user, do_group,
  do_usergroup, do_envelope, and_then, make_user_req, make_group_req, make_usergroup_req,
  make_envelope_req, user_body, usergroup, envelope_body,
}
use anonym_sharing.Profile.Effects.{
  WireLaws, TextLaws, resting, doreq_lem, user_core, group_core, usergroup_core, envelope_core,
  at_path, request_to, db_after,
}

-- What the driver keeps between two requests: the service, and the last url and body of each
-- builder.
pub record Rest : Type 0 where
  pub served : Served Driven
  pub put_url : String
  pub put_body : String
  pub post_url : String
  pub post_body : String

-- What the database holds, abstractly.
abbrev pub held : Served Driven → Spec
held s = view s.service.0.0.database_

module _ {J D : Type 0} (json : JsonLib J) (crypto : Crypto) (decoder : ReadyDecoder D)
    (requests : RequestLib) (to_string : Response → String) (fuel : ℕ)
    (wires : WireLaws decoder requests) (users : ℕ) (texts : TextLaws json requests users) where
  abbrev pub at_rest : Rest → Driver D
  at_rest s =
      resting json crypto decoder requests to_string fuel wires s.served
        (record { method = "PUT"; url = s.put_url; body = s.put_body })
        (record { method = "POST"; url = s.post_url; body = s.post_body })

  -- A part of the driver ends, at rest, with these contents of the database.
  abbrev pub Ends : Option (Driver D) → (Spec → Type 0) → Type 0
  Ends r P = (t : Rest) × (r ≡ some (at_rest t)) × P (held t.served)

  pub ends_then :
      {r : Option (Driver D)} (f : Driver D → Option (Driver D)) (P Q : Spec → Type 0)
      → Ends r P
      → ((t : Rest) → P (held t.served) → Ends (f (at_rest t)) Q)
      → Ends (and_then r f) Q
  ends_then f P Q (t, e, p) next = let (u, g, q) = next t p in (u, ap (λ x. and_then x f) e ∙ g, q)

  -- One request, whose effect on the database is known.
  asked :
      (method url path body : String) (d : MemDatabase) (s : Served Driven) (p q : RequestBuilder)
      → requests.encoded_path url ≡ path
      → db_after json crypto (record { method = method; path = path; body = body }) s.service.0 ≡ d
      → (t : Served Driven) × (doreq json crypto decoder requests to_string
            (suc (suc fuel))
            (requests.wire
              (record { method = method; path = requests.encoded_path url; body = body }))
            (resting json crypto decoder requests to_string fuel wires s p q)
          ≡ some (resting json crypto decoder requests to_string fuel wires t p q))
        × (t.service.0.0.database_ ≡ d)
  asked method url path body d s p q known effect =
      let r = request_to json crypto requests users texts method url body in
      let (t, e, h) = doreq_lem json crypto decoder requests to_string fuel wires r s p q in
      (
        t,
        e,
        h
            ∙ at_path json crypto requests users texts (λ x. x ≡ d) method path url body s.service.0
                known effect,
      )

  -- The contents after a user was created.
  abbrev pub Creates : ℕ → Rest → Spec → Type 0
  Creates i s a =
      a
      ≡ step (creates_user (user i) (crypto.get_rand key_size s.served.service.0.1)) (held s.served)

  pub do_user-Ends :
      (i : ℕ) (s : Rest)
      → i ≤ users
      → Ends
          (do_user json crypto decoder requests to_string (suc (suc fuel)) i (at_rest s))
          (Creates i s)
  unfolding do_user make_user_req
  do_user-Ends i s b =
      let url : String = "https://localhost/access/user" in
      let effect = user_core json crypto requests users texts i s.served.service.0 b in
      let (t, e, h) =
        asked "POST" url "/access/user" (user_body i) _ s.served _ _ texts.user_path effect in
      (
        record s { served = t; post_url = url; post_body = user_body i },
        e,
        ap view h ∙ refines_create_user (user i) _ _,
      )

  pub do_group-Ends :
      (i : ℕ) (s : Rest)
      → i ≤ users
      → Ends
          (do_group json crypto decoder requests to_string (suc (suc fuel)) 1 i (at_rest s))
          (λ a. a ≡ step (creates_group (group 1) (user i)) (held s.served))
  unfolding do_group make_group_req
  do_group-Ends i s b =
      let url : String = "https://localhost/access/group" in
      let effect = group_core json crypto requests users texts i s.served.service.0 b in
      let (t, e, h) =
        asked "POST" url "/access/group" (usergroup 1 i) _ s.served _ _ texts.group_path effect in
      (
        record s { served = t; post_url = url; post_body = usergroup 1 i },
        e,
        ap view h ∙ refines_create_group (group 1) (user i) _,
      )

  pub do_usergroup-Ends :
      (i : ℕ) (s : Rest)
      → i ≤ users
      → Ends
          (do_usergroup json crypto decoder requests to_string (suc (suc fuel)) 1 i (at_rest s))
          (λ a. a ≡ step (adds_user_to_group (group 1) (user i)) (held s.served))
  unfolding do_usergroup make_usergroup_req
  do_usergroup-Ends i s b =
      let url : String = "https://localhost/access/usergroup" in
      let effect = usergroup_core json crypto requests users texts i s.served.service.0 b in
      let (t, e, h) =
        asked "PUT" url "/access/usergroup" (usergroup 1 i) _ s.served _ _ texts.usergroup_path
          effect in
      (
        record s { served = t; put_url = url; put_body = usergroup 1 i },
        e,
        ap view h ∙ refines_add (group 1) (user i) _,
      )

  pub do_envelope-Ends :
      (g : ℕ) (key : Bytes) (s : Rest)
      → Ends
          (do_envelope json crypto decoder requests to_string (suc (suc fuel)) g key (at_rest s))
          (λ a. a ≡ held s.served)
  unfolding do_envelope make_envelope_req
  do_envelope-Ends g key s =
      let url : String = "https://localhost/verifier/envelope" in
      let body : String = envelope_body g (crypto.b64_encode key) in
      let effect = envelope_core json crypto requests users texts body s.served.service.0 in
      let (t, e, h) =
        asked "POST" url "/verifier/envelope" body _ s.served _ _ texts.envelope_path effect in
      (record s { served = t; post_url = url; post_body = body }, e, ap view h)
