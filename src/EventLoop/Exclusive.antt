-- ===== src/EventLoop/Exclusive.antt =====
-- The single service thread of the servers: the calls into the enclave are made one after the
-- other, in the order of the queue.
use anonym_sharing.Base.{
  ℤ, pos, negsuc, if_ind, ℕ, zero, suc, ◌==◌, ◌<◌, String, Bool, some, ◌≡◌, arith, Bool-cases, inl,
  inr, subst, Option, none, List, [], ◌∷◌, ◌++◌, ap, sym, ◌∙◌, refl,
}
use mathlib.Core.List.{append-nil}
use anonym_sharing.EventLoop.{
  Continues, SocketEventLoop, Ecalls, Flow, exits, continues, Answers, start_loop,
}
use anonym_sharing.EventLoop.Threads.{
  Process, Step, waits, takes, serves, Steps, here, next, main, begin, enter, service_threads,
}

abbrev pub in_hand : Option ℕ → List ℕ
in_hand none = []
in_hand (some fd) = fd ∷ []

module _ {E : Type 0} (ecalls : Ecalls E) where
  -- Only the threads that were started serve.
  abbrev InRange : ℕ → Process E → Type 0
  InRange n s = (i fd : ℕ) → s.serving i ≡ some fd → i < n

  Step-InRange : (n : ℕ) (s t : Process E) → Step ecalls n s t → InRange n s → InRange n t
  Step-InRange n s t (waits events h q) v = v
  Step-InRange n s t (takes i fd queue b p q) v = λ j k h. elim (Bool-cases (j == i)) [
    | inl e ↦ ground (arith, e, b)
    | inr e ↦ v j k (ground (arith, h, e))
  ]
  Step-InRange n s t (serves i fd reads p q) v = λ j k h. elim (Bool-cases (j == i)) [
    | inl e ↦ absurd (ground (arith, h, e))
    | inr e ↦ v j k (ground (arith, h, e))
  ]

  Steps-InRange : (n : ℕ) (s t : Process E) → Steps ecalls n s t → InRange n s → InRange n t
  Steps-InRange n s t here v = v
  Steps-InRange n s t (next {t = u} p q) v = Step-InRange n u t q (Steps-InRange n s u p v)

  -- Nothing was taken, and no thread serves.
  abbrev IsIdle : Process E → Type 0
  IsIdle s = InRange 1 s × (s.taken ≡ in_hand (s.serving 0))

  begin-IsIdle :
      (started : Flow SocketEventLoop) (r : ℤ) (e : E) → Continues IsIdle (begin started (r, e))
  unfolding begin
  begin-IsIdle (exits c) (pos zero) e = tt
  begin-IsIdle (continues l) (pos zero) e = (λ i fd q. absurd (ground (arith, q)), refl)
  begin-IsIdle started (pos (suc k)) e = tt
  begin-IsIdle started (negsuc k) e = tt

  enter-IsIdle :
      (started : Flow SocketEventLoop) (x : Flow (ℤ × E)) → Continues IsIdle (enter started x)
  unfolding enter
  enter-IsIdle started (exits c) = tt
  enter-IsIdle started (continues (r, e)) = begin-IsIdle started r e

  abbrev step_called : (n : ℕ) (s t : Process E) → Step ecalls n s t → List ℕ
  step_called n s t (waits events h q) = []
  step_called n s t (takes i fd queue b p q) = []
  step_called n s t (serves i fd reads p q) = fd ∷ []

  -- The descriptors for which the steps have called `ecall_tls_recv`, oldest first.
  abbrev pub called : (n : ℕ) (s t : Process E) → Steps ecalls n s t → List ℕ
  called n s t here = []
  called n s t (next {t = u} p q) = called n s u p ++ step_called n u t q

  Step-called :
      (s t : Process E) (q : Step ecalls 1 s t) (before : List ℕ)
      → InRange 1 s
      → s.taken ≡ before ++ in_hand (s.serving 0)
      → t.taken ≡ (before ++ step_called 1 s t q) ++ in_hand (t.serving 0)
  Step-called s t (waits events h q) before v e =
      e ∙ ap (λ l. l ++ in_hand (s.serving 0)) (sym (append-nil before))
  Step-called s t (takes i fd queue b p q) before v e =
      let first : i ≡ 0 = omega (arith, b) in
      let idle : s.serving 0 ≡ none = subst (λ j. s.serving j ≡ none) first p in
      let none_before : s.taken ≡ before =
        e ∙ ap (λ x. before ++ in_hand x) idle ∙ append-nil before in
      let now : t.serving 0 ≡ some fd = ground (arith, first) in
      ap (λ l. l ++ fd ∷ []) (none_before ∙ sym (append-nil before))
      ∙ ap (λ x. (before ++ []) ++ in_hand x) (sym now)
  Step-called s t (serves {r} {e = m} i fd reads p q) before v e =
      let first : i ≡ 0 = omega (arith, v i fd p) in
      let busy : s.serving 0 ≡ some fd = subst (λ j. s.serving j ≡ some fd) first p in
      let now : t.serving 0 ≡ none = ground (arith, first) in
      e
      ∙ ap (λ x. before ++ in_hand x) busy
      ∙ sym (append-nil (before ++ fd ∷ []))
      ∙ ap (λ x. (before ++ fd ∷ []) ++ in_hand x) (sym now)

  Steps-called :
      (s t : Process E) (p : Steps ecalls 1 s t)
      → InRange 1 s
      → s.taken ≡ in_hand (s.serving 0)
      → t.taken ≡ called 1 s t p ++ in_hand (t.serving 0)
  Steps-called s t here v e = e
  Steps-called s t (next {t = u} p q) v e =
      Step-called u t q (called 1 s u p) (Steps-InRange 1 s u p v) (Steps-called s u p v e)

  -- With the one service thread of the servers, the descriptors that were taken from the queue are
  -- those for which `ecall_tls_recv` was called, in this order, and behind them the one that the thread
  -- has in hand, if there is one: a descriptor is taken only after the call for the one before, and
  -- none is skipped.
  pub exclusive :
      (initialized created bound : Bool) (host : String) (sock : ℕ) (a : Answers) (e : E)
      (s t : Process E)
      → main ecalls initialized created bound host sock a e ≡ continues s
      → (p : Steps ecalls service_threads s t)
      → t.taken ≡ called service_threads s t p ++ in_hand (t.serving 0)
  unfolding main
  exclusive initialized created bound host sock a e s t q p =
      let first : IsIdle s = subst (Continues IsIdle) q (
        if_ind (Continues IsIdle) initialized
          (enter-IsIdle (start_loop created bound host sock a) (ecalls.init e)) tt) in
      Steps-called s t p first.0 first.1
