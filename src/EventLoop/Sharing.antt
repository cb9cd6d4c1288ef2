-- ===== src/EventLoop/Sharing.antt =====
-- With more than one service thread, two could serve one descriptor at the same time.
use anonym_sharing.Base.{ℕ, ◌==◌, ◌<◌, true, false, [], ◌∷◌, ◌++◌, none, some, ◌≡◌, refl, ap, arith}
use anonym_sharing.EventLoop.{
  Ecalls, continues, SocketEventLoop, Event, Answers, is_listener, push, on_event, on_events,
  contains,
}
use anonym_sharing.EventLoop.Threads.{Process, set_serving, waits, takes, Steps, here, next}

module _ {E : Type 0} (ecalls : Ecalls E) where
  pushed :
      (event : Event) (l : SocketEventLoop) (e : E)
      → is_listener event.fd l.listen_sock ≡ false
      → on_events ecalls (event ∷ []) (l, e) ≡ continues (push event.fd l, e)
  unfolding on_events on_event
  pushed event l e h = rw (h, on_events)

  -- The descriptor becomes ready, and thread i takes it.
  abbrev taken_by : ℕ → ℕ → Process E → Process E
  taken_by i fd s = record {
    loop = record (push fd s.loop) { iqueue = [] };
    enclave = s.enclave;
    serving = set_serving i (some fd) s.serving;
    taken = s.taken ++ fd ∷ [];
  }

  handed :
      (n fd i : ℕ) (a : Answers) (s t : Process E)
      → Steps ecalls n s t
      → i < n
      → t.serving i ≡ none
      → t.loop.iqueue ≡ []
      → contains fd t.loop.epoll ≡ true
      → is_listener fd t.loop.listen_sock ≡ false
      → Steps ecalls n s (taken_by i fd t)
  handed n fd i a s t p b f q c h =
      let event : Event = record { fd = fd; answers = a } in
      next (next p (waits (event ∷ []) (c, tt) (pushed event t.loop t.enclave h)))
        (takes i fd [] b f (ap (λ x. x ++ fd ∷ []) q))

  -- With more service threads than one: where a connection that was added becomes ready twice, and
  -- the queue is empty and two threads are idle, both can come to serve it. Nothing in the queue or in
  -- the threads stops the second one.
  pub shared_descriptor :
      (n fd i j : ℕ) (a : Answers) (s : Process E)
      → i < n
      → j < n
      → (i == j) ≡ false
      → s.serving i ≡ none
      → s.serving j ≡ none
      → s.loop.iqueue ≡ []
      → contains fd s.loop.epoll ≡ true
      → is_listener fd s.loop.listen_sock ≡ false
      → (t : Process E) × Steps ecalls n s t × (t.serving i ≡ some fd) × (t.serving j ≡ some fd)
  shared_descriptor n fd i j a s bi bj d fi fj q c h =
      let t = taken_by i fd s in
      (
        taken_by j fd t,
        handed n fd j a s t (handed n fd i a s s here bi fi q c h) bj (ground (arith, fj, d)) refl c
            h,
        ground (arith, d),
        ground (arith, d),
      )
