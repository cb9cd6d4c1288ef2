-- ===== src/EventLoop/Rounds.antt =====
-- What one round of the loop keeps.
use anonym_sharing.Base.{
  ℕ, zero, suc, true, false, List, [], ◌∷◌, ◌++◌, ℤ, pos, negsuc, ◌≡◌, refl, sym, ap, ◌∙◌, subst,
  arith, All, if_ind, Option-cases, Bool-cases, ◌⊎◌, inl, inr,
}
use mathlib.Core.List.{append_assoc}
use anonym_sharing.EventLoop.{
  Ecalls, EcallsLaws, Flow, continues, exits, Continues, SocketEventLoop, Answers, Event,
  setnonblocking, add_epoll, addto_epoll, is_listener, push, admit, accept_client, on_event,
  on_events, contains,
}

-- What the descriptor is to the loop: a socket that was added and made nonblocking, and is not the
-- listener.
pub record IsConnection (l : SocketEventLoop) (fd : ℕ) : Type 0 where
  pub not_listener : is_listener fd l.listen_sock ≡ false
  pub in_epoll : contains fd l.epoll ≡ true
  pub is_nonblocking : contains fd l.nonblocking ≡ true

pub record IsLoop (taken : List ℕ) (l : SocketEventLoop) : Type 0 where
  pub in_order : l.queued ≡ taken ++ l.iqueue
  pub ready : (fd : ℕ) → contains fd l.queued ≡ true → IsConnection l fd
  pub added :
      (fd : ℕ)
      → contains fd l.epoll ≡ true
      → is_listener fd l.listen_sock ≡ false
      → contains fd l.nonblocking ≡ true

contains-append :
    (fd x : ℕ) (xs : List ℕ)
    → contains fd (xs ++ x ∷ []) ≡ true
    → (contains fd xs ≡ true) ⊎ (fd ≡ x)
contains-append fd x [] h = inr (ground (arith, h))
contains-append fd x (y ∷ xs) h = ground (arith, contains-append fd x xs)

contains-cons : (fd x : ℕ) (xs : List ℕ) → contains fd xs ≡ true → contains fd (x ∷ xs) ≡ true
contains-cons fd x xs h = ground (arith, h)

contains_cons :
    (fd x : ℕ) (xs : List ℕ) → contains fd (x ∷ xs) ≡ true → (fd ≡ x) ⊎ (contains fd xs ≡ true)
contains_cons fd x xs h = ground (arith, h)

contains_head : (fd : ℕ) (xs : List ℕ) → contains fd (fd ∷ xs) ≡ true
contains_head fd xs = ground arith

-- The loop after a step: still as it should be, and it has forgotten no descriptor.
pub record Grows (taken : List ℕ) (l l' : SocketEventLoop) : Type 0 where
  pub is_loop : IsLoop taken l'
  pub grows : (fd : ℕ) → contains fd l.epoll ≡ true → contains fd l'.epoll ≡ true

push-Grows :
    (taken : List ℕ) (fd : ℕ) (l : SocketEventLoop)
    → IsConnection l fd
    → IsLoop taken l
    → Grows taken l (push fd l)
push-Grows taken fd l c v = record {
  is_loop = record {
    in_order = ap (λ q. q ++ fd ∷ []) v.in_order ∙ append_assoc taken l.iqueue (fd ∷ []);
    ready = λ k h. elim (contains-append k fd l.queued h) [
      | inl old ↦ same k (v.ready k old)
      | inr e ↦ subst (IsConnection (push fd l)) (sym e) (same fd c)
    ];
    added = v.added;
  };
  grows = λ k h. h;
}
  where
    same : (k : ℕ) → IsConnection l k → IsConnection (push fd l) k
    same k c = record {
      not_listener = c.not_listener;
      in_epoll = c.in_epoll;
      is_nonblocking = c.is_nonblocking;
    }

abbrev added_loop : ℕ → SocketEventLoop → SocketEventLoop
added_loop fd l = record l { nonblocking = fd ∷ l.nonblocking; epoll = fd ∷ l.epoll }

added-Grows :
    (taken : List ℕ) (fd : ℕ) (l : SocketEventLoop)
    → IsLoop taken l
    → Grows taken l (added_loop fd l)
added-Grows taken fd l v = record {
  is_loop = record {
    in_order = v.in_order;
    ready = λ k h.
        let c = v.ready k h in
        record {
          not_listener = c.not_listener;
          in_epoll = contains-cons k fd l.epoll c.in_epoll;
          is_nonblocking = contains-cons k fd l.nonblocking c.is_nonblocking;
        };
    added = λ k h n. elim (contains_cons k fd l.epoll h) [
      | inl e ↦
          subst (λ x. contains x (fd ∷ l.nonblocking) ≡ true) (sym e)
            (contains_head fd l.nonblocking)
      | inr old ↦ contains-cons k fd l.nonblocking (v.added k old n)
    ];
  };
  grows = λ k h. contains-cons k fd l.epoll h;
}

addto_epoll-Grows :
    (taken : List ℕ) (fd : ℕ) (a : Answers) (l : SocketEventLoop)
    → IsLoop taken l
    → Continues (Grows taken l) (addto_epoll fd true a l)
unfolding addto_epoll setnonblocking add_epoll
addto_epoll-Grows taken fd a l v =
    if_ind after a.flags_read
      (if_ind after a.flags_set
        (if_ind (Continues (Grows taken l)) a.added (added-Grows taken fd l v) tt) tt)
      tt
  where
    after : Flow SocketEventLoop → Type 0
    after r =
        Continues (Grows taken l) (elim r [ exits c ↦ exits c | continues l' ↦ add_epoll fd a l' ])

Flow-cases : {A : Type 0} (r : Flow A) → ((c : ℕ) × (r ≡ exits c)) ⊎ ((a : A) × (r ≡ continues a))
Flow-cases (exits c) = inl (c, refl)
Flow-cases (continues a) = inr (a, refl)

module _ {E : Type 0} (ecalls : Ecalls E) (laws : EcallsLaws E ecalls) where
  open ecalls use {tls_accept, tls_recv}
  open laws use {IsGood, accept-IsGood}

  -- The loop has grown and the enclave is good.
  abbrev pub Kept : List ℕ → SocketEventLoop → SocketEventLoop × E → Type 0
  Kept taken l s = Grows taken l s.0 × IsGood s.1

  pub Grows-refl : (taken : List ℕ) (l : SocketEventLoop) → IsLoop taken l → Grows taken l l
  Grows-refl taken l v = record { is_loop = v; grows = λ fd h. h }

  admit-Kept :
      (taken : List ℕ) (fd : ℕ) (a : Answers) (l : SocketEventLoop) (r : ℤ) (e : E)
      → IsLoop taken l
      → IsGood e
      → Continues (Kept taken l) (admit fd a l (r, e))
  unfolding admit
  admit-Kept taken fd a l (pos zero) e v g =
      with_enclave (addto_epoll fd true a l) (addto_epoll-Grows taken fd a l v)
    where
      with_enclave :
          (r : Flow SocketEventLoop)
          → Continues (Grows taken l) r
          → Continues
              (Kept taken l)
              (elim r [ exits c ↦ exits c | continues l' ↦ continues (l', e) ])
      with_enclave (exits c) h = tt
      with_enclave (continues l') h = (h, g)
  admit-Kept taken fd a l (pos (suc n)) e v g = (Grows-refl taken l v, g)
  admit-Kept taken fd a l (negsuc n) e v g = (Grows-refl taken l v, g)

  on_event-Kept :
      (taken : List ℕ) (event : Event) (l : SocketEventLoop) (e : E)
      → contains event.fd l.epoll ≡ true
      → IsLoop taken l
      → IsGood e
      → Continues (Kept taken l) (on_event ecalls event (l, e))
  unfolding on_event accept_client
  on_event-Kept taken event l e h v g = elim (Bool-cases (is_listener event.fd l.listen_sock)) [
    | inl p ↦ elim (Option-cases event.answers.conn_sock) [
      | inl q ↦ rw (p, on_event) (rw (q, accept_client) tt)
      | inr (fd, q) ↦
          rw (p, on_event)
            (rw (q, accept_client)
              (let t = tls_accept fd event.answers.handshake e in
                admit-Kept taken fd event.answers l t.0 t.1 v
                  (accept-IsGood fd event.answers.handshake e g)))
    ]
    | inr p ↦
        rw (p, on_event)
          (
            push-Grows taken event.fd l
                (record { not_listener = p; in_epoll = h; is_nonblocking = v.added event.fd h p })
                v,
            g,
          )
  ]

  events-Kept :
      (taken : List ℕ) (events : List Event) (l₀ l : SocketEventLoop) (e : E)
      → All (λ event. contains event.fd l₀.epoll ≡ true) events
      → Kept taken l₀ (l, e)
      → Continues (Kept taken l₀) (on_events ecalls events (l, e))
  unfolding on_events
  events-Kept taken [] l₀ l e h k = k
  events-Kept taken (event ∷ events) l₀ l e (h, hs) (gr, g) =
      let kept = on_event-Kept taken event l e (gr.grows event.fd h) gr.is_loop g in
      elim (Flow-cases (on_event ecalls event (l, e))) [
        | inl (c, q) ↦ rw (q, on_events) tt
        | inr ((l', e'), q) ↦
            let now = subst (Continues (Kept taken l)) q kept in
            rw (q, on_events)
              (events-Kept taken events l₀ l' e' hs (
                record { is_loop = now.0.is_loop; grows = λ fd c. now.0.grows fd (gr.grows fd c) },
                now.1,
              ))
      ]

  -- A round of the loop over descriptors that were added.
  pub on_events-Kept :
      (taken : List ℕ) (events : List Event) (l : SocketEventLoop) (e : E)
      → All (λ event. contains event.fd l.epoll ≡ true) events
      → IsLoop taken l
      → IsGood e
      → Continues (Kept taken l) (on_events ecalls events (l, e))
  on_events-Kept taken events l e h v g = events-Kept taken events l l e h (Grows-refl taken l v, g)
