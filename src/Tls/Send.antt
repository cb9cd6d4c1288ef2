-- ===== src/Tls/Send.antt =====
-- The loop of `send`: which attempt ends it, and how many there are.
use native.Mathlib.Decide.{dec_lt}
use anonym_sharing.Base.{
  subst, ℕ, zero, suc, ◌+◌, ◌-◌, ◌≤◌, ◌<◌, ◌≡◌, refl, ℤ, pos, negsuc, arith, inl, inr, ◌⊎◌,
  Bool-cases, true, false, ap, ◌∙◌,
}
use anonym_sharing.Tls.{SslError, none_, wants_write, send_loop, send_result, send, tries}

-- The attempt with which the loop ends: the last one allowed, or the first that does not want to
-- write again.
pub record IsLast (write : ℕ → SslError) (first last n : ℕ) : Type 0 where
  pub from : first ≤ n
  pub upto : n ≤ last
  pub stops : (wants_write (write n) ≡ false) ⊎ (n ≡ last)
  pub before : (j : ℕ) → first ≤ j → j < n → wants_write (write j) ≡ true

IsLast-step :
    (write : ℕ → SslError) (i left n : ℕ)
    → wants_write (write i) ≡ true
    → IsLast write (suc i) (suc i + left) n
    → IsLast write i (i + suc left) n
IsLast-step write i left n again last = record {
  from = omega (arith, last.from);
  upto = omega (arith, last.upto);
  stops = elim last.stops [ inl done ↦ inl done | inr e ↦ inr (omega (arith, e)) ];
  before = λ j a b. elim (dec_lt i j) [
    | yes later ↦ last.before j later b
    | no here ↦ subst (λ k. wants_write (write k) ≡ true) (omega arith) again
  ];
}

send_loop-IsLast :
    (left i : ℕ) (write : ℕ → SslError)
    → (n : ℕ) × IsLast write i (i + left) n × (send_loop left i write ≡ (write n, n))
unfolding send_loop
send_loop-IsLast zero i write = (
  i,
  record {
    from = omega arith;
    upto = omega arith;
    stops = inr (omega arith);
    before = λ j a b. absurd (omega arith);
  },
  refl,
)
send_loop-IsLast (suc left) i write = elim (Bool-cases (wants_write (write i))) [
  | inl again ↦
      let (n, last, e) = send_loop-IsLast left (suc i) write in
      (n, IsLast-step write i left n again last, rw (again, send_loop) e)
  | inr done ↦ (
    i,
    record {
      from = omega arith;
      upto = omega arith;
      stops = inl done;
      before = λ j a b. absurd (omega arith);
    },
    rw (done, send_loop),
  )
]

-- The result of `send` for the last attempt.
abbrev pub sent : SslError → ℤ
sent none_ = pos 0
sent _ = negsuc 0

send_result-sent : (e : SslError) (n : ℕ) → send_result (e, n) ≡ (sent e, n)
unfolding send_result
send_result-sent none_ n = refl
send_result-sent _ n = refl

send_from :
    (left : ℕ) (write : ℕ → SslError)
    → (n : ℕ) × IsLast write 1 (1 + left) n
      × (send_result (send_loop left 1 write) ≡ (sent (write n), n))
send_from left write =
    let (n, last, e) = send_loop-IsLast left 1 write in
    (n, last, ap send_result e ∙ send_result-sent (write n) n)

-- `send` stops, after at most 1000000 attempts: at the first one that does not want to write again,
-- or else at the last. It returns 0 if that attempt succeeded and -1 if not.
pub send_stops :
    (write : ℕ → SslError) → (n : ℕ) × IsLast write 1 tries n × (send write ≡ (sent (write n), n))
unfolding send
send_stops write = send_from (tries - 1) write
