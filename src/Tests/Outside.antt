-- ===== src/Tests/Outside.antt =====
-- The calls out of the enclave, at concrete times.
use Prim.Native.String.{len}
use anonym_sharing.Base.{◌+◌, ◌*◌, ◌≤◌, ◌<◌, ◌≡◌, refl, arith}
use anonym_sharing.Ocalls.{Timespec, ocall_sgx_clock, ocall_print_string, ocall_sgx_clock_lem}

-- The two escapes have five and four characters.
print_test : len (ocall_print_string 7 "hi") ≡ 15
unfolding ocall_print_string
print_test = refl

abbrev earlier : Timespec
earlier = record { tv_sec = 1; tv_nsec = 999999999 }

abbrev later : Timespec
later = record { tv_sec = 2; tv_nsec = 1500 }

ocall_sgx_clock_example :
    (ocall_sgx_clock later * 1000 ≤ 2000001500)
    × (2000001500 < ocall_sgx_clock later * 1000 + 1000)
    × (ocall_sgx_clock later < 9223372036854775808)
    × (ocall_sgx_clock earlier ≤ ocall_sgx_clock later)
ocall_sgx_clock_example =
    ocall_sgx_clock_lem earlier later (omega arith) (omega arith) (omega arith)
