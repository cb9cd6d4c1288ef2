-- ===== src/EventLoop/Ready.antt =====
-- The descriptors that become ready, and what the loop does with them.
use mathlib.Core.List.{append-nil, append_assoc}
use anonym_sharing.Base.{
  ℕ, zero, suc, Bool, true, false, List, [], ◌∷◌, ◌++◌, Option, none, some, ℤ, pos, negsuc, ◌≡◌,
  refl, sym, ap, ◌∙◌, subst, String, str_eq, if◌then◌else◌, if_ind, Bool-cases, inl, inr,
}
use anonym_sharing.EventLoop.{
  Ecalls, Continues, Flow, continues, exits, SocketEventLoop, Answers, Event, on_events, on_event,
  accept_client, admit, addto_epoll, add_epoll, setnonblocking, start_loop, create_epoll,
  open_listener, bind_n_listen, is_listener,
}
use anonym_sharing.EventLoop.Threads.{
  begin, enter, main, Process, Step, waits, takes, serves, Steps, here, next,
}

-- The descriptors of these events other than the listener's.
abbrev pub ready_of : Option ℕ → List Event → List ℕ
ready_of sock [] = []
ready_of sock (event ∷ events) =
    let rest = ready_of sock events in if is_listener event.fd sock then rest else event.fd ∷ rest

module _ {E : Type 0} (ecalls : Ecalls E) where
  open ecalls use {tls_accept}

  abbrev step_ready : (n : ℕ) (s t : Process E) → Step ecalls n s t → List ℕ
  step_ready n s t (waits events h q) = ready_of s.loop.listen_sock events
  step_ready n s t (takes i fd queue b p q) = []
  step_ready n s t (serves i fd reads p q) = []

  -- The descriptors that epoll_wait gave in the steps, oldest first, without the listener.
  abbrev pub became_ready : (n : ℕ) (s t : Process E) → Steps ecalls n s t → List ℕ
  became_ready n s t here = []
  became_ready n s t (next {t = u} p q) = became_ready n s u p ++ step_ready n u t q

  -- The loop after these descriptors were pushed.
  pub record Pushed (fds : List ℕ) (l l' : SocketEventLoop) : Type 0 where
    pub queue : l'.queued ≡ l.queued ++ fds
    pub listener : l'.listen_sock ≡ l.listen_sock

  unpushed : (l : SocketEventLoop) → Pushed [] l l
  unpushed l = record { queue = sym (append-nil l.queued); listener = refl }

  addto_epoll-Pushed :
      (fd : ℕ) (a : Answers) (l : SocketEventLoop)
      → Continues (Pushed [] l) (addto_epoll fd true a l)
  unfolding addto_epoll setnonblocking add_epoll
  addto_epoll-Pushed fd a l = elim (Bool-cases a.flags_read) [
    | inr p ↦ rw p tt
    | inl p ↦ elim (Bool-cases a.flags_set) [
      | inr q ↦ rw (p, q) tt
      | inl q ↦
          rw (p, q)
            (if_ind (Continues (Pushed [] l)) a.added
              (record { queue = sym (append-nil l.queued); listener = refl }) tt)
    ]
  ]

  admit-Pushed :
      (fd : ℕ) (a : Answers) (l : SocketEventLoop) (r : ℤ) (e : E)
      → Continues (λ x. Pushed [] l x.0) (admit fd a l (r, e))
  unfolding admit
  admit-Pushed fd a l (pos zero) e =
      with_enclave (addto_epoll fd true a l) (addto_epoll-Pushed fd a l)
    where
      with_enclave :
          (r : Flow SocketEventLoop)
          → Continues (Pushed [] l) r
          → Continues {A = SocketEventLoop × E}
              (λ x. Pushed [] l x.0)
              (elim r [ exits c ↦ exits c | continues l' ↦ continues (l', e) ])
      with_enclave (exits c) h = tt
      with_enclave (continues l') h = h
  admit-Pushed fd a l (pos (suc n)) e = unpushed l
  admit-Pushed fd a l (negsuc n) e = unpushed l

  pub on_event-Pushed :
      (event : Event) (l : SocketEventLoop) (e : E)
      → Continues
          (λ x. Pushed (ready_of l.listen_sock (event ∷ [])) l x.0)
          (on_event ecalls event (l, e))
  unfolding on_event accept_client
  on_event-Pushed event l e = elim (Bool-cases (is_listener event.fd l.listen_sock)) [
    | inl p ↦ rw (p, on_event) (accepted event.answers.conn_sock)
    | inr p ↦ rw (p, on_event) (record { queue = refl; listener = refl })
  ]
    where
      accepted :
          (sock : Option ℕ)
          → Continues {A = SocketEventLoop × E}
              (λ x. Pushed [] l x.0)
              (elim sock [
                | none ↦ exits 1
                | some fd ↦ admit fd event.answers l (tls_accept fd event.answers.handshake e)
              ])
      accepted none = tt
      accepted (some fd) =
          let t = tls_accept fd event.answers.handshake e in admit-Pushed fd event.answers l t.0 t.1

  ready_of-cons :
      (sock : Option ℕ) (event : Event) (events : List Event)
      → ready_of sock (event ∷ []) ++ ready_of sock events ≡ ready_of sock (event ∷ events)
  ready_of-cons sock event events = elim (Bool-cases (is_listener event.fd sock)) [
    | inl p ↦ rw p
    | inr p ↦ rw p
  ]

  on_events-Pushed :
      (events : List Event) (l : SocketEventLoop) (e : E)
      → Continues
          (λ x. Pushed (ready_of l.listen_sock events) l x.0)
          (on_events ecalls events (l, e))
  unfolding on_events
  on_events-Pushed [] l e = unpushed l
  on_events-Pushed (event ∷ events) l e =
      rest (on_event ecalls event (l, e)) (on_event-Pushed event l e) (on_events-Pushed events)
    where
      rest :
          (x : Flow (SocketEventLoop × E))
          → Continues (λ y. Pushed (ready_of l.listen_sock (event ∷ [])) l y.0) x
          → ((k : SocketEventLoop) (e : E)
              → Continues
                  (λ y. Pushed (ready_of k.listen_sock events) k y.0)
                  (on_events ecalls events (k, e)))
          → Continues
              (λ y. Pushed (ready_of l.listen_sock (event ∷ events)) l y.0)
              (elim x [ exits c ↦ exits c | continues s' ↦ on_events ecalls events s' ])
      rest (exits c) h k = tt
      rest (continues (l', e')) h k = joined (on_events ecalls events (l', e')) (k l' e')
        where
          joined :
              (x : Flow (SocketEventLoop × E))
              → Continues (λ y. Pushed (ready_of l'.listen_sock events) l' y.0) x
              → Continues (λ y. Pushed (ready_of l.listen_sock (event ∷ events)) l y.0) x
          joined (exits c) g = tt
          joined (continues y) g = record {
            queue =
                g.queue
                ∙ ap (λ sock. l'.queued ++ ready_of sock events) h.listener
                ∙ ap (λ q. q ++ ready_of l.listen_sock events) h.queue
                ∙ append_assoc l.queued (ready_of l.listen_sock (event ∷ []))
                    (ready_of l.listen_sock events)
                ∙ ap (λ r. l.queued ++ r) (ready_of-cons l.listen_sock event events);
            listener = g.listener ∙ h.listener;
          }

  -- What was pushed is what became ready.
  pub Steps-ready :
      (n : ℕ) (s t : Process E) (p : Steps ecalls n s t)
      → s.loop.queued ≡ []
      → t.loop.queued ≡ became_ready n s t p
  Steps-ready n s t here h = h
  Steps-ready n s t (next {t = u} p q) h = step t q (Steps-ready n s u p h)
    where
      step :
          (t : Process E) (q : Step ecalls n u t)
          → u.loop.queued ≡ became_ready n s u p
          → t.loop.queued ≡ became_ready n s u p ++ step_ready n u t q
      step t (waits events a r) e =
          (subst (Continues (λ x. Pushed (ready_of u.loop.listen_sock events) u.loop x.0)) r
            (on_events-Pushed events u.loop u.enclave)).queue
          ∙ ap (λ l. l ++ ready_of u.loop.listen_sock events) e
      step t (takes i fd queue b r k) e = e ∙ sym (append-nil _)
      step t (serves i fd reads r k) e = e ∙ sym (append-nil _)

  begin-unpushed :
      (started : Flow SocketEventLoop) (r : ℤ) (e : E)
      → Continues (λ l. l.queued ≡ []) started
      → Continues (λ s. s.loop.queued ≡ []) (begin started (r, e))
  unfolding begin
  begin-unpushed (exits c) (pos zero) e h = tt
  begin-unpushed (continues l) (pos zero) e h = h
  begin-unpushed started (pos (suc n)) e h = tt
  begin-unpushed started (negsuc n) e h = tt

  enter-unpushed :
      (started : Flow SocketEventLoop) (x : Flow (ℤ × E))
      → Continues (λ l. l.queued ≡ []) started
      → Continues (λ s. s.loop.queued ≡ []) (enter started x)
  unfolding enter
  enter-unpushed started (exits c) h = tt
  enter-unpushed started (continues (r, e)) h = begin-unpushed started r e h

  start_loop-unpushed :
      (created bound : Bool) (host : String) (sock : ℕ) (a : Answers)
      → Continues (λ l. l.queued ≡ []) (start_loop created bound host sock a)
  unfolding start_loop create_epoll open_listener bind_n_listen addto_epoll add_epoll
  start_loop-unpushed false bound host sock a = tt
  start_loop-unpushed true false host sock a =
      if_ind (Continues (λ l. l.queued ≡ [])) (str_eq host "") refl tt
  start_loop-unpushed true true host sock a =
      if_ind (Continues (λ l. l.queued ≡ [])) (str_eq host "") refl
        (if_ind (Continues (λ l. l.queued ≡ [])) a.added refl tt)

  -- Nothing was pushed when `main` has started.
  pub main-unpushed :
      (initialized created bound : Bool) (host : String) (sock : ℕ) (a : Answers) (e : E)
      (s : Process E)
      → main ecalls initialized created bound host sock a e ≡ continues s
      → s.loop.queued ≡ []
  unfolding main
  main-unpushed initialized created bound host sock a e s q =
      subst (Continues (λ s. s.loop.queued ≡ [])) q (
        if_ind (Continues (λ s. s.loop.queued ≡ [])) initialized
          (enter-unpushed (start_loop created bound host sock a) (ecalls.init e)
            (start_loop-unpushed created bound host sock a))
          tt)
