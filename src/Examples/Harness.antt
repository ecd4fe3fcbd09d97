-- ===== src/Examples/Harness.antt =====
-- The start registers and the test framework on small inputs.
use lab.Examples.Text.{byte_at}
use lab.Ktest.{
  ktest_success, ktest_failure, Test, KtestSuite, Access, completes, faults, ktest_assert, call,
  ktest_suite_run, expect_fault, expect_no_fault, new_test, parse_bootarg_ktest,
}
use lab.Ktest.Bootarg.{parse_bootarg_ktest_lem}
use lab.Ktest.Fault.{before, quiet, marked, expect_fault_lem}
use lab.Ktest.Switch.{trap_enable, trap_disable, trap_disable-trap_enable}
use lab.Ktest.Suite.{any_failed, of_failed, results_of, state_after, ktest_suite_run_lem}
use lab.Memory.{Mem}
use lab.Prelude.{
  ℕ, ◌+◌, ◌/◌, ◌%◌, ◌^◌, ◌≡◌, refl, true, false, none, some, [], ◌∷◌, ◌==◌, if◌then◌else◌, arith,
  inl,
}
use lab.Startup.{Csrs, mmode_startup}
use lab.Startup.Privilege.{mmode_startup-mstatus}
use lab.Str.Copy.{IsCopied}

-- mstatus as an M-mode reset leaves it, with MPP = 3.
abbrev pub reset : Csrs
reset = record {
  mstatus = 0xa00001880;
  mepc = 0;
  satp = 0;
  medeleg = 0;
  mideleg = 0;
  pmpaddr0 = 0;
  pmpcfg0 = 0;
}

mmode_startup-mstatus_example :
    ((mmode_startup 0x80000000 reset).mstatus / 2 ^ 11 % 4 ≡ 1)
    × ((mmode_startup 0x80000000 reset).mstatus / 2 ^ 13 ≡ reset.mstatus / 2 ^ 13)
    × ((mmode_startup 0x80000000 reset).mstatus % 2 ^ 11 ≡ reset.mstatus % 2 ^ 11)
mmode_startup-mstatus_example = mmode_startup-mstatus 0x80000000 reset (omega arith)

-- A suite that counts: its first case expects 1, its second one 5.
abbrev count_to : ℕ → Test × ℕ → Test × ℕ
count_to n ran = (ktest_assert n (ran.1 == n) ran.0, ran.1 + 1)

abbrev counting : KtestSuite ℕ
counting = record {
  init = some (λ n. n + 1);
  exit = none;
  test_init = none;
  test_exit = none;
  tests = count_to 1 ∷ count_to 5 ∷ count_to 3 ∷ [];
}

ktest_suite_run_example : ktest_suite_run counting 0 ≡ (
  of_failed (any_failed (results_of counting counting.tests 1)),
  call counting.exit (state_after counting counting.tests 1),
)
ktest_suite_run_example = ktest_suite_run_lem counting 0

counting_fails : ktest_suite_run counting 0 ≡ (ktest_failure, 4)
unfolding ktest_suite_run ktest_assert
counting_fails = refl

-- A write to address 0 faults.
abbrev write : ℕ → Access ℕ
write a = if a == 0 then faults a else completes a

expect_fault_example :
    (expect_fault 410 0x80000100 write
        (before {A = ℕ} 410 0x80000100 7 9 false write new_test 0)
        new_test
        0
      ≡ some (quiet 0x80000100 0x80000100, marked false 410 ktest_success, 0))
    × (expect_no_fault 410 0x80000100 write
          (before {A = ℕ} 410 0x80000100 7 9 false write new_test 0)
          new_test
          0
        ≡ some (quiet 0x80000100 0x80000100, marked true 410 ktest_success, 0))
expect_fault_example = expect_fault_lem 410 0x80000100 7 9 false write new_test 0

-- "k=" stands for the word at 1, and "k=ab" are the boot arguments at 4.
abbrev arguments : Mem
arguments = byte_at (0 ∷ b'k' ∷ b'=' ∷ 0 ∷ b'k' ∷ b'=' ∷ b'a' ∷ b'b' ∷ 0 ∷ [])

parse_bootarg_ktest_example :
    (r : Mem × ℕ) × (parse_bootarg_ktest 3 arguments 1 4 100 64 ≡ some r.0)
    × IsCopied arguments 100 64 (b'a' ∷ b'b' ∷ []) 6 r
parse_bootarg_ktest_example =
    parse_bootarg_ktest_lem 3 arguments 1 4 100 63 (b'k' ∷ b'=' ∷ []) (b'a' ∷ b'b' ∷ [])
      (omega arith) (omega arith) (omega arith) (inl (omega arith))

trap_disable-trap_enable_example :
    trap_disable (
      trap_enable 0x80000200
        (record { stvec = 0x80000008; sie = 0x22; sstatus = 0x8000000200006000 }))
    ≡ record { stvec = 0; sie = 0x22; sstatus = 0x8000000200006000 }
trap_disable-trap_enable_example =
    trap_disable-trap_enable 0x80000200
      (record { stvec = 0x80000008; sie = 0x22; sstatus = 0x8000000200006000 }) (omega arith)
      (omega arith) (omega arith) (omega arith)
