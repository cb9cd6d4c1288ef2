-- ===== src/Client/Workers.antt =====
-- The search in four threads: `_mt_user_get_file_key` and `myThreadFun` of client.cpp. A thread's
-- test of FOUND_POSITIVE and its write are steps of their own, and the steps of the threads
-- interleave in any order. `_mt_user_get_file_key` itself returns 0 and writes no key.
pub mod Split
pub mod Outcome
use anonym_sharing.Base.{
  ℕ, zero, suc, ◌+◌, ◌-◌, ◌*◌, ◌/◌, Bool, true, false, ◌≡◌, Option, none, some, if◌then◌else◌, ltb,
  ◌==◌, drop, List, [], ◌∷◌, ◌++◌, ◌<◌, ℤ, pos,
}
use anonym_sharing.Std.Order.{Bytes}
use anonym_sharing.Client.{Evp, trials, opens}

-- #define THREADS_COUNT 4
abbrev pub threads_count : ℕ
threads_count = 4

-- (i * trials) / THREADS_COUNT
unfoldable pub start_trials : ℕ → ℕ → ℕ
start_trials all i = i * all / threads_count

unfoldable pub end_trials : ℕ → ℕ → ℕ
end_trials all i = let end = (i + 1) * all / threads_count in if ltb all end then all else end

-- Where a thread is: it tests the loop's condition, has the hint of the entry at its pointer to
-- try, or has returned. `left` is what `trials - i` is.
pub data Worker : Type 0 where
  testing : ℕ → Bytes → Worker
  trying : ℕ → Bytes → Worker
  finished : Worker

-- The flag FOUND_POSITIVE, and the threads by their number.
pub record Race : Type 0 where
  pub found_positive : Bool
  pub workers : ℕ → Worker

-- The argument of thread i, from the pointer and the size that `malloc`ed ThreadArg has.
unfoldable pub feed : Bytes → ℕ → ℕ → Worker
unfolding start_trials end_trials trials
feed ciphertext c_size i =
    let all = trials c_size in
    testing (trials ((end_trials all i - start_trials all i) * 64))
      (drop (64 * start_trials all i) ciphertext)

-- After the loop that creates the threads, with the flag as the process has it.
unfoldable pub launch : Bool → Bytes → ℕ → Race
unfolding feed
launch flag ciphertext c_size = record {
  found_positive = flag;
  workers = λ i. if ltb i threads_count then feed ciphertext c_size i else finished;
}

module _ (evp : Evp) where
  -- One step of `myThreadFun`: the flag and the thread after it.
  unfoldable pub run : Bytes → Bool → Worker → Bool × Worker
  run user_key flag (testing zero ciphertext) = (flag, finished)
  run user_key flag (testing (suc left) ciphertext) =
      (flag, if flag then finished else trying left ciphertext)
  run user_key flag (trying left ciphertext) =
      if opens evp user_key ciphertext
      then (true, finished)
      else (flag, testing left (drop 64 ciphertext))
  run user_key flag finished = (flag, finished)

  unfoldable pub step : Bytes → ℕ → Race → Race
  unfolding run
  step user_key i s =
      let (flag, worker) = run user_key s.found_positive (s.workers i) in
      record { found_positive = flag; workers = λ j. if j == i then worker else s.workers j }

  -- The steps that a schedule gives to the threads, in order.
  unfoldable pub runs : Bytes → List ℕ → Race → Race
  unfolding step
  runs user_key [] s = s
  runs user_key (i ∷ schedule) s = runs user_key schedule (step user_key i s)
