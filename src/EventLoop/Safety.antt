-- ===== src/EventLoop/Safety.antt =====
-- What holds in every state that the process reaches.
use anonym_sharing.Base.{
  false, ℕ, zero, suc, ◌==◌, Bool, true, List, [], ◌∷◌, ◌++◌, some, ℤ, pos, negsuc, ◌≡◌, refl, sym,
  ap, ◌∙◌, subst, arith, if_ind, String, str_eq, Bool-cases, inl, inr,
}
use mathlib.Core.List.{append_assoc}
use mathlib.Core.Option.{some-injective}
use anonym_sharing.EventLoop.{
  Ecalls, EcallsLaws, Continues, Flow, continues, exits, SocketEventLoop, Answers, contains,
  start_loop, create_epoll, open_listener, bind_n_listen, unopened, addto_epoll, add_epoll,
}
use anonym_sharing.EventLoop.Threads.{
  begin, enter, main, Process, Step, waits, takes, serves, Steps, here, next,
}
use anonym_sharing.EventLoop.Ready.{became_ready, Steps-ready, main-unpushed}
use anonym_sharing.EventLoop.Rounds.{IsLoop, Kept, on_events-Kept}

contains_last : (fd : ℕ) (xs : List ℕ) → contains fd (xs ++ fd ∷ []) ≡ true
contains_last fd [] = ground arith
contains_last fd (x ∷ xs) = ground (arith, contains_last fd xs)

contains_before :
    (fd x : ℕ) (xs : List ℕ) → contains fd xs ≡ true → contains fd (xs ++ x ∷ []) ≡ true
contains_before fd x [] h = absurd (ground (arith, h))
contains_before fd x (y ∷ xs) h = ground (arith, contains_before fd x xs)

module _ {E : Type 0} (ecalls : Ecalls E) (laws : EcallsLaws E ecalls) where
  open laws use {IsGood, init-IsGood, recv-IsGood}

  pub record IsProcess (s : Process E) : Type 0 where
    pub good : IsGood s.enclave
    pub is_loop : IsLoop s.taken s.loop
    pub served : (i fd : ℕ) → s.serving i ≡ some fd → contains fd s.taken ≡ true

  Step-IsProcess : (n : ℕ) (s t : Process E) → Step ecalls n s t → IsProcess s → IsProcess t
  Step-IsProcess n s t (waits events h q) v =
      let kept =
        subst (Continues (Kept ecalls laws s.taken s.loop)) q
          (on_events-Kept ecalls laws s.taken events s.loop s.enclave h v.is_loop v.good) in
      record { good = kept.1; is_loop = kept.0.is_loop; served = v.served }
  Step-IsProcess n s t (takes i fd queue b p q) v = record {
    good = v.good;
    is_loop = record {
      in_order =
          v.is_loop.in_order
          ∙ ap (λ x. s.taken ++ x) q
          ∙ sym (append_assoc s.taken (fd ∷ []) queue);
      ready = λ k h.
          let c = v.is_loop.ready k h in
          record {
            not_listener = c.not_listener;
            in_epoll = c.in_epoll;
            is_nonblocking = c.is_nonblocking;
          };
      added = v.is_loop.added;
    };
    served = λ j k h. elim (Bool-cases (j == i)) [
      | inl e ↦
          subst (λ x. contains x (s.taken ++ fd ∷ []) ≡ true)
            (some-injective _ _ (ground (arith, h, e))) (contains_last fd s.taken)
      | inr e ↦ contains_before k fd s.taken (v.served j k (ground (arith, h, e)))
    ];
  }
  Step-IsProcess n s t (serves {r} {e} i fd reads p q) v = record {
    good = recv-IsGood fd reads s.enclave r e v.good q;
    is_loop = v.is_loop;
    served = λ j k h. elim (Bool-cases (j == i)) [
      | inl e ↦ absurd (ground (arith, h, e))
      | inr e ↦ v.served j k (ground (arith, h, e))
    ];
  }

  bare : IsLoop [] unopened
  bare = record {
    in_order = refl;
    ready = λ k h. absurd (ground (arith, h));
    added = λ k h n. absurd (ground (arith, h));
  }

  listening :
      (sock : ℕ) → IsLoop [] (record unopened { listen_sock = some sock; epoll = sock ∷ [] })
  listening sock = record {
    in_order = refl;
    ready = λ k h. absurd (ground (arith, h));
    added = λ k h n. absurd (ground (arith, h, n));
  }

  start-IsLoop :
      (created bound : Bool) (host : String) (sock : ℕ) (a : Answers)
      → Continues (IsLoop []) (start_loop created bound host sock a)
  unfolding start_loop create_epoll open_listener bind_n_listen addto_epoll add_epoll
  start-IsLoop false bound host sock a = tt
  start-IsLoop true false host sock a = if_ind (Continues (IsLoop [])) (str_eq host "") bare tt
  start-IsLoop true true host sock a =
      if_ind (Continues (IsLoop [])) (str_eq host "") bare
        (if_ind (Continues (IsLoop [])) a.added (listening sock) tt)

  begin-IsProcess :
      (started : Flow SocketEventLoop) (r : ℤ) (e : E)
      → Continues (IsLoop []) started
      → IsGood e
      → Continues IsProcess (begin started (r, e))
  unfolding begin
  begin-IsProcess (exits c) (pos zero) e h g = tt
  begin-IsProcess (continues l) (pos zero) e h g = record {
    good = g;
    is_loop = h;
    served = λ i fd q. absurd (ground (arith, q));
  }
  begin-IsProcess started (pos (suc n)) e h g = tt
  begin-IsProcess started (negsuc n) e h g = tt

  enter-IsProcess :
      (started : Flow SocketEventLoop) (x : Flow (ℤ × E))
      → Continues (IsLoop []) started
      → Continues (λ y. IsGood y.1) x
      → Continues IsProcess (enter started x)
  unfolding enter
  enter-IsProcess started (exits c) h g = tt
  enter-IsProcess started (continues (r, e)) h g = begin-IsProcess started r e h g

  -- From such a state only such states are reached, with any number of threads.
  pub Steps-IsProcess : (n : ℕ) (s t : Process E) → Steps ecalls n s t → IsProcess s → IsProcess t
  Steps-IsProcess n s t here v = v
  Steps-IsProcess n s t (next {t = u} p q) v = Step-IsProcess n u t q (Steps-IsProcess n s u p v)

  -- In every state that the process reaches after `main`: the descriptors that the threads took,
  -- followed by those in the queue, are exactly those that epoll_wait gave in the steps, but for the
  -- listener, in the same order, so none is lost and none is added; each of them was added to epoll
  -- and made nonblocking, and is not the listener; a thread serves only what was taken; and the
  -- enclave is good. (The calls into the enclave that return keep it good, and epoll gives only
  -- descriptors that were added.)
  pub reached-IsProcess :
      (initialized created bound : Bool) (host : String) (sock : ℕ) (a : Answers) (e : E) (n : ℕ)
      (s t : Process E)
      → IsGood e
      → main ecalls initialized created bound host sock a e ≡ continues s
      → (p : Steps ecalls n s t)
      → IsProcess t × (t.taken ++ t.loop.iqueue ≡ became_ready ecalls n s t p)
  unfolding main
  reached-IsProcess initialized created bound host sock a e n s t g q p =
      let first : IsProcess s = subst (Continues IsProcess) q (
        if_ind (Continues IsProcess) initialized
          (enter-IsProcess (start_loop created bound host sock a) (ecalls.init e)
            (start-IsLoop created bound host sock a) (init-IsGood e g))
          tt) in
      let last = Steps-IsProcess n s t p first in
      (
        last,
        sym last.is_loop.in_order
            ∙ Steps-ready ecalls n s t p
                (main-unpushed ecalls initialized created bound host sock a e s q),
      )
