-- ===== src/EventLoop/Heard.antt =====
-- What the steps of a process bring to its enclave: the clients' attempts to connect and the chunks
-- that arrive; and what the rounds of the loop and the calls into the enclave keep along with them.
use anonym_sharing.Base.{
  ap, ◌∙◌, if◌then◌else◌, Bool-cases, inl, inr, ℕ, zero, suc, Bool, true, List, [], ◌∷◌, ◌++◌,
  Option, none, some, ℤ, pos, negsuc, ◌≡◌, subst, String, if_ind, sym,
}
use mathlib.Core.List.{append-nil, append_assoc}
use anonym_sharing.EventLoop.Ready.{Pushed, on_event-Pushed, ready_of}
use anonym_sharing.Enclave.Dialogue.{Occurrence, dials, arrives}
use anonym_sharing.Std.Order.{Bytes}
use anonym_sharing.Tls.{Read, ecall_tls_recv}
use anonym_sharing.Enclave.{Connected}
use anonym_sharing.EventLoop.{
  Ecalls, Continues, Flow, continues, exits, SocketEventLoop, Answers, Event, on_events, on_event,
  accept_client, admit, addto_epoll, is_listener,
}
use anonym_sharing.EventLoop.Threads.{
  begin, enter, main, Process, Step, waits, takes, serves, Steps, here, next,
}

-- The chunks that one call of `ecall_tls_recv` reads, with their descriptor.
abbrev pub from : ℕ → List Bytes → List Occurrence
from fd [] = []
from fd (c ∷ cs) = arrives fd c ∷ from fd cs

-- The attempts to connect that an event brings: for the listener, the one that is accepted.
abbrev attempt_of : Option ℕ → Event → List Occurrence
attempt_of sock event =
    if is_listener event.fd sock
    then elim event.answers.conn_sock [
      | none ↦ []
      | some fd ↦ dials fd event.answers.handshake ∷ []
    ]
    else []

abbrev attempts_of : Option ℕ → List Event → List Occurrence
attempts_of sock [] = []
attempts_of sock (event ∷ events) = attempt_of sock event ++ attempts_of sock events

module _ {S D : Type 0} (ecalls : Ecalls (Connected S D)) where
  abbrev pub step_heard :
      (n : ℕ) (s t : Process (Connected S D)) → Step ecalls n s t → List Occurrence
  step_heard n s t (waits events h q) = attempts_of s.loop.listen_sock events
  step_heard n s t (takes i fd queue b p q) = []
  step_heard n s t (serves i fd reads p q) = from fd (ecall_tls_recv fd reads s.enclave.tls).chunks

  -- What clients do in the steps, oldest first.
  abbrev pub heard : (n : ℕ) (s t : Process (Connected S D)) → Steps ecalls n s t → List Occurrence
  heard n s t here = []
  heard n s t (next {t = u} p q) = heard n s u p ++ step_heard n u t q

module _ {E : Type 0} (ecalls : Ecalls E) where
  open ecalls use {tls_accept, init}

  module _ (G : List Occurrence → E → Type 0)
      (accepts : (log : List Occurrence) (fd : ℕ) (b : Bool) (e : E)
        → G log e
        → G (log ++ dials fd b ∷ []) (tls_accept fd b e).1) where
    admit-Keeps :
        (log : List Occurrence) (fd : ℕ) (a : Answers) (l : SocketEventLoop) (r : ℤ) (e : E)
        → G log e
        → Continues (λ x. G log x.1) (admit fd a l (r, e))
    unfolding admit
    admit-Keeps log fd a l (pos zero) e g = with_enclave (addto_epoll fd true a l)
      where
        with_enclave :
            (r : Flow SocketEventLoop)
            → Continues {A = SocketEventLoop × E}
                (λ x. G log x.1)
                (elim r [ exits c ↦ exits c | continues l' ↦ continues (l', e) ])
        with_enclave (exits c) = tt
        with_enclave (continues l') = g
    admit-Keeps log fd a l (pos (suc n)) e g = g
    admit-Keeps log fd a l (negsuc n) e g = g

    on_event-Keeps :
        (log : List Occurrence) (event : Event) (l : SocketEventLoop) (e : E)
        → G log e
        → Continues
            (λ x. G (log ++ attempt_of l.listen_sock event) x.1)
            (on_event ecalls event (l, e))
    unfolding on_event accept_client
    on_event-Keeps log event l e g = elim (Bool-cases (is_listener event.fd l.listen_sock)) [
      | inl p ↦ rw (p, on_event) (accepted event.answers.conn_sock)
      | inr p ↦ rw (p, on_event) (subst (λ k. G k e) (sym (append-nil log)) g)
    ]
      where
        accepted :
            (sock : Option ℕ)
            → Continues {A = SocketEventLoop × E}
                (λ x.
                  G
                    (log ++ (elim sock [
                      | none ↦ []
                      | some fd ↦ dials fd event.answers.handshake ∷ []
                    ]))
                    x.1)
                (elim sock [
                  | none ↦ exits 1
                  | some fd ↦ admit fd event.answers l (tls_accept fd event.answers.handshake e)
                ])
        accepted none = tt
        accepted (some fd) =
            let t = tls_accept fd event.answers.handshake e in
            admit-Keeps _ fd event.answers l t.0 t.1 (accepts log fd event.answers.handshake e g)

    -- A round of the loop keeps what the accepted connections keep.
    pub on_events-Keeps :
        (log : List Occurrence) (events : List Event) (l : SocketEventLoop) (e : E)
        → G log e
        → Continues
            (λ x. G (log ++ attempts_of l.listen_sock events) x.1)
            (on_events ecalls events (l, e))
    unfolding on_events
    on_events-Keeps log [] l e g = subst (λ k. G k e) (sym (append-nil log)) g
    on_events-Keeps log (event ∷ events) l e g =
        rest (on_event ecalls event (l, e)) (on_event-Keeps log event l e g)
          (on_event-Pushed ecalls event l e)
          (on_events-Keeps (log ++ attempt_of l.listen_sock event) events)
      where
        now : List Occurrence
        now = log ++ attempt_of l.listen_sock event

        rest :
            (x : Flow (SocketEventLoop × E))
            → Continues (λ y. G now y.1) x
            → Continues (λ y. Pushed ecalls (ready_of l.listen_sock (event ∷ [])) l y.0) x
            → ((k : SocketEventLoop) (e : E)
                → G now e
                → Continues
                    (λ y. G (now ++ attempts_of k.listen_sock events) y.1)
                    (on_events ecalls events (k, e)))
            → Continues
                (λ y. G (log ++ attempts_of l.listen_sock (event ∷ events)) y.1)
                (elim x [ exits c ↦ exits c | continues s' ↦ on_events ecalls events s' ])
        rest (exits c) h b k = tt
        rest (continues (l', e')) h b k =
            subst (λ m. Continues (λ y. G m y.1) (on_events ecalls events (l', e')))
              (ap (λ sock. now ++ attempts_of sock events) b.listener
                ∙ append_assoc log (attempt_of l.listen_sock event)
                    (attempts_of l.listen_sock events))
              (k l' e' h)

  -- What holds after `ecall_init` holds of the enclave at the first round of the loop.
  pub main-Continues :
      (G : E → Type 0) (initialized created bound : Bool) (host : String) (sock : ℕ) (a : Answers)
      (e : E) (s : Process E)
      → Continues (λ x. G x.1) (init e)
      → main ecalls initialized created bound host sock a e ≡ continues s
      → G s.enclave
  unfolding main enter begin
  main-Continues G initialized created bound host sock a e s g q =
      subst (Continues (λ t. G t.enclave)) q
        (if_ind (Continues (λ t. G t.enclave)) initialized (entered _ (init e) g) tt)
    where
      begun :
          (started : Flow SocketEventLoop) (r : ℤ) (e' : E)
          → G e'
          → Continues (λ t. G t.enclave) (begin started (r, e'))
      begun (exits c) (pos zero) e' h = tt
      begun (continues l) (pos zero) e' h = h
      begun started (pos (suc n)) e' h = tt
      begun started (negsuc n) e' h = tt

      entered :
          (started : Flow SocketEventLoop) (x : Flow (ℤ × E))
          → Continues (λ y. G y.1) x
          → Continues (λ t. G t.enclave) (enter started x)
      entered started (exits c) h = tt
      entered started (continues (r, e')) h = begun started r e' h

module _ {S D : Type 0} (ecalls : Ecalls (Connected S D))
    (G : List Occurrence → Connected S D → Type 0)
    (accepts : (log : List Occurrence) (fd : ℕ) (b : Bool) (m : Connected S D)
      → G log m
      → G (log ++ dials fd b ∷ []) (ecalls.tls_accept fd b m).1)
    (receives : (log : List Occurrence) (fd : ℕ) (reads : List Read) (m : Connected S D)
        (r : Option ℤ) (m' : Connected S D)
      → G log m
      → ecalls.tls_recv fd reads m ≡ some (r, m')
      → G (log ++ from fd (ecall_tls_recv fd reads m.tls).chunks) m') where
  -- What the calls into the enclave keep, with the chunks that they bring, the steps keep.
  pub Steps-Heard :
      (n : ℕ) (s t : Process (Connected S D)) (p : Steps ecalls n s t)
      → G [] s.enclave
      → G (heard ecalls n s t p) t.enclave
  Steps-Heard n s t here g = g
  Steps-Heard n s t (next {t = u} p q) g =
      step n u t q (heard ecalls n s u p) (Steps-Heard n s u p g)
    where
      step :
          (n : ℕ) (u t : Process (Connected S D)) (q : Step ecalls n u t) (log : List Occurrence)
          → G log u.enclave
          → G (log ++ step_heard ecalls n u t q) t.enclave
      step n u t (waits events h q) log g =
          subst (Continues (λ x. G (log ++ attempts_of u.loop.listen_sock events) x.1)) q
            (on_events-Keeps ecalls G accepts log events u.loop u.enclave g)
      step n u t (takes i fd queue b p q) log g =
          subst (λ x. G x u.enclave) (sym (append-nil log)) g
      step n u t (serves {r} {e} i fd reads p q) log g = receives log fd reads u.enclave r e g q
