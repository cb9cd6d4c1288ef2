-- ===== src/Ocalls.antt =====
-- anonymBE/src/anonymbe_ocalls.cpp: the calls out of the enclave. What the operating system answers is
-- an argument; the C library's conversions of times are parameters.
use anonym_sharing.Base.{ℕ, ◌+◌, ◌*◌, ◌/◌, ◌≤◌, ◌<◌, String, ◌<>◌, ℤ, arith}
use anonym_sharing.Std.Order.{Bytes}
use anonym_sharing.Std.Text.{to_string}

-- struct timespec, as clock_gettime(CLOCK_MONOTONIC) fills it in.
pub record Timespec : Type 0 where
  pub tv_sec : ℕ
  pub tv_nsec : ℕ

-- What the C library and the kernel do for these calls: `Time` is time_t and `Tm` is struct tm.
pub record Libc (Time Tm : Type 0) : Type 0 where
  pub localtime : Time → Tm
  pub gmtime_r : Time → Tm
  pub gettimeofday : ℤ × Bytes
  pub write : ℕ → Bytes → ℕ → ℤ

-- What is printed; `thread` is pthread_self().
unfoldable pub ocall_print_string : ℕ → String → String
unfolding to_string
ocall_print_string thread str = "[" <> to_string thread <> "] \u{1b}[96m" <> str <> "\u{1b}[0m"

-- Microseconds.
unfoldable pub ocall_sgx_clock : Timespec → ℕ
ocall_sgx_clock tstart = tstart.tv_sec * 1000000 + tstart.tv_nsec / 1000

module _ {Time Tm : Type 0} (libc : Libc Time Tm) where
  unfoldable pub ocall_sgx_localtime : Time → ℕ → Tm
  ocall_sgx_localtime timep t_len = libc.localtime timep

  unfoldable pub ocall_sgx_gmtime_r : Time → ℕ → ℕ → Tm
  ocall_sgx_gmtime_r timep t_len tmp_len = libc.gmtime_r timep

  -- The result, and the bytes of the struct timeval.
  unfoldable pub ocall_sgx_gettimeofday : ℕ → ℤ × Bytes
  ocall_sgx_gettimeofday tv_size = libc.gettimeofday

  unfoldable pub ocall_sgx_write : ℕ → Bytes → ℕ → ℤ
  ocall_sgx_write fd buf n = libc.write fd buf n

-- The time in nanoseconds.
abbrev pub nanoseconds : Timespec → ℕ
nanoseconds t = t.tv_sec * 1000000000 + t.tv_nsec

-- For a normal timespec of less than 2^43 seconds, the clock is the time in microseconds, rounded
-- down; it fits a long of 64 bits; and it is not below the clock of any earlier time.
pub ocall_sgx_clock_lem :
    (s t : Timespec)
    → t.tv_nsec < 1000000000
    → t.tv_sec < 8796093022208
    → nanoseconds s ≤ nanoseconds t
    → (ocall_sgx_clock t * 1000 ≤ nanoseconds t)
      × (nanoseconds t < ocall_sgx_clock t * 1000 + 1000)
      × (ocall_sgx_clock t < 9223372036854775808)
      × (ocall_sgx_clock s ≤ ocall_sgx_clock t)
unfolding ocall_sgx_clock
ocall_sgx_clock_lem s t h b le = (omega arith, omega arith, omega arith, omega arith)
