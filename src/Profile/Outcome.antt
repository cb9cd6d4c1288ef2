-- ===== src/Profile/Outcome.antt =====
-- The driver's `main`, from its start to its end.
use anonym_sharing.Base.{
  ℕ, ◌≤◌, zero, suc, ◌+◌, ◌≡◌, refl, sym, ap, ◌∙◌, subst, arith, String, Bool, true, false, Option,
  none, is_some, [],
}
use anonym_sharing.Std.Map.{find}
use anonym_sharing.Platform.{JsonLib, Crypto, Response}
use anonym_sharing.Database.Spec.{Spec}
use anonym_sharing.Service.{construct, init}
use anonym_sharing.Profile.{
  ReadyDecoder, RequestLib, user, group, do_user, do_group, do_usergroup, fill, main, started,
  and_then, bucket_key,
}
use anonym_sharing.Profile.Effects.{WireLaws, TextLaws}
use anonym_sharing.Profile.Requests.{
  Rest, held, at_rest, Ends, ends_then, Creates, do_user-Ends, do_group-Ends, do_usergroup-Ends,
  do_envelope-Ends,
}
use anonym_sharing.Profile.Filled.{
  IsFilled, created, created_members, creates_user-IsFilled, adds-IsFilled, group-IsFilled,
}

module _ {J D : Type 0} (json : JsonLib J) (crypto : Crypto) (decoder : ReadyDecoder D)
    (requests : RequestLib) (to_string : Response → String) (fuel : ℕ)
    (wires : WireLaws decoder requests) (users : ℕ) (texts : TextLaws json requests users) where
  -- One round of the loop.
  round-Ends :
      (n : ℕ) (s : Rest)
      → suc n ≤ users
      → IsFilled n (held s.served)
      → Ends json crypto decoder requests to_string fuel wires users texts
          (and_then
            (do_user json crypto decoder requests to_string
              (suc (suc fuel))
              (suc n)
              (at_rest json crypto decoder requests to_string fuel wires users texts s))
            (do_usergroup json crypto decoder requests to_string (suc (suc fuel)) 1 (suc n)))
          (IsFilled (suc n))
  round-Ends n s b f =
      ends_then json crypto decoder requests to_string fuel wires users texts _
        (Creates json crypto decoder requests to_string fuel wires users texts (suc n) s)
        (IsFilled (suc n))
        (do_user-Ends json crypto decoder requests to_string fuel wires users texts (suc n) s b)
        λ t e.
          let (u, r, h) =
            do_usergroup-Ends json crypto decoder requests to_string fuel wires users texts (suc n)
              t b in
          let exists =
            subst (λ (a : Spec). is_some (a.key_of (user (suc n))) ≡ true) (sym e)
              (created (user (suc n)) _ _) in
          let kept = subst (IsFilled n) (sym e) (creates_user-IsFilled n (user (suc n)) _ _ f) in
          (u, r, subst (IsFilled (suc n)) (sym h) (adds-IsFilled n _ exists kept))

  -- The loop, from the user after the last member.
  fill-IsFilled :
      (left n : ℕ) (s : Rest)
      → left + n ≡ users
      → IsFilled n (held s.served)
      → Ends json crypto decoder requests to_string fuel wires users texts
          (fill json crypto decoder requests to_string
            (suc (suc fuel))
            left
            (suc n)
            (at_rest json crypto decoder requests to_string fuel wires users texts s))
          (IsFilled users)
  unfolding fill
  fill-IsFilled zero n s e f =
      (s, refl, subst (λ k. IsFilled k (held s.served)) (omega (arith, e)) f)
  fill-IsFilled (suc left) n s e f =
      ends_then json crypto decoder requests to_string fuel wires users texts _ (IsFilled (suc n))
        (IsFilled users) (round-Ends n s (omega (arith, e)) f)
        λ u h. fill-IsFilled left (suc n) u (omega (arith, e)) h

  -- The first two requests, on an empty database.
  begin-IsFilled :
      (s : Rest)
      → (held s.served).members (group 1) ≡ none
      → Ends json crypto decoder requests to_string fuel wires users texts
          (and_then
            (do_user json crypto decoder requests to_string
              (suc (suc fuel))
              0
              (at_rest json crypto decoder requests to_string fuel wires users texts s))
            (do_group json crypto decoder requests to_string (suc (suc fuel)) 1 0))
          (IsFilled 0)
  begin-IsFilled s empty =
      ends_then json crypto decoder requests to_string fuel wires users texts _
        (Creates json crypto decoder requests to_string fuel wires users texts 0 s) (IsFilled 0)
        (do_user-Ends json crypto decoder requests to_string fuel wires users texts 0 s
          (omega arith))
        λ t e.
          let (u, r, h) =
            do_group-Ends json crypto decoder requests to_string fuel wires users texts 0 t
              (omega arith) in
          let exists =
            subst (λ (a : Spec). is_some (a.key_of (user 0)) ≡ true) (sym e)
              (created (user 0) _ _) in
          let absent =
            subst (λ (a : Spec). a.members (group 1) ≡ none) (sym e)
              (ap (λ (m : String → Option (String → Bool)). m (group 1))
                  (created_members (user 0) _ _)
                ∙ empty) in
          (u, r, subst (IsFilled 0) (sym h) (group-IsFilled _ exists absent))

  -- The driver at rest with a new service, and with `print` set.
  abbrev begun : Bool → ℕ → Bool → Rest
  begun first garbage print = record {
    served = record {
      service = (((init garbage (construct first)).1, 0), record { p = print; printed = [] });
      received = 0;
      sent = [];
    };
    put_url = "";
    put_body = "";
    post_url = "";
    post_body = "";
  }

  abbrev printing : Bool → Rest → Rest
  printing p s = record s {
    served = record (s.served) {
      service = (s.served.service.0, record (s.served.service.1) { p = p });
    };
  }

  -- From its start, with a new service, `main` comes to its end for any number of users: the decoder
  -- holds nothing, and the users 0 to that number are in the database and members of the group 1.
  -- (The decoder gives a request back that it was fed whole, and the JSON library reads the texts.)
  pub main-IsFilled :
      (first : Bool) (garbage : ℕ) (print : Bool)
      → Ends json crypto decoder requests to_string fuel wires users texts
          (main json crypto decoder requests to_string
            (suc (suc fuel))
            users
            (started json crypto decoder requests to_string (suc (suc fuel)) first garbage print))
          (IsFilled users)
  unfolding main started init construct find
  main-IsFilled first garbage print =
      ends_then json crypto decoder requests to_string fuel wires users texts _ (IsFilled users)
        (IsFilled users)
        (ends_then json crypto decoder requests to_string fuel wires users texts _ (IsFilled 0)
          (IsFilled users) (begin-IsFilled (printing true (begun first garbage print)) refl)
          λ t f. fill-IsFilled users 0 (printing false t) (omega arith) f)
        λ t f.
          let (u, r, h) =
            do_envelope-Ends json crypto decoder requests to_string fuel wires users texts 1
              (bucket_key json crypto decoder requests to_string (suc (suc fuel)))
              (printing false t) in
          (u, r, subst (IsFilled users) (sym h) f)
