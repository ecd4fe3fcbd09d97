-- ===== src/Ktest.antt =====
-- The test framework of src/ktest/test.c and include/ktest/test.h, and of src/ktest/kmain.c the
-- trap handler and the choice of the suite by the boot arguments. What the test cases work on is a
-- type parameter. Function pointers that may be NULL are options; log messages are left out.
pub mod Suite
pub mod Fault
pub mod Bootarg
pub mod Switch
pub mod World
pub mod Reach
pub mod Outside
pub mod AllocTests
pub mod AllocSuite
pub mod Startup
pub mod Main
pub mod Choice
pub mod Select
pub mod Names
pub mod UnitTests
pub mod UnitSuites
pub mod BasicTest
pub mod BasicSteps
pub mod BasicSuite
pub mod Basic
pub mod MapTests
pub mod MapSuite
pub mod RefusalRuns
pub mod Refusals
pub mod RefusalSuite
pub mod MapCases
pub mod MapPaging
pub mod KernelRun
pub mod KernelSuites
pub mod MapAlone
pub mod KernelTest
pub mod Denied
pub mod KernelSuite
pub mod KernelPaging
pub mod Boot
use lab.Memory.{Mem, store8}
use lab.Prelude.{
  ℕ, zero, suc, ◌+◌, Bool, true, false, not, Option, none, some, List, [], ◌∷◌, ◌==◌, if◌then◌else◌,
  ℤ,
}
use lab.Dtb.{is_zero}
use lab.Str.{strlen, strncmp, strncpy}

pub data Result : Type 0 where
  ktest_success : Result
  ktest_failure : Result

-- `struct ktest`, without what is only printed.
pub record Test : Type 0 where
  pub result : Result
  pub failure_line : ℕ

-- `struct ktest test = { ... }`: the fields left out are 0.
abbrev pub new_test : Test
new_test = record { result = ktest_success; failure_line = 0 }

abbrev pub fail : ℕ → Test → Test
fail line test = record test { result = ktest_failure; failure_line = line }

-- `KTEST_ASSERT` and `KTEST_EXPECT_EQ`.
unfoldable pub ktest_assert : ℕ → Bool → Test → Test
ktest_assert line true test = test
ktest_assert line false test = fail line test

pub record KtestSuite (A : Type 0) : Type 0 where
  pub init : Option (A → A)
  pub exit : Option (A → A)
  pub test_init : Option (Test × A → Test × A)
  pub test_exit : Option (Test × A → Test × A)
  pub tests : List (Test × A → Test × A)

-- `if (f) f(x);`
abbrev pub call : {A : Type 0} → Option (A → A) → A → A
call none x = x
call (some f) x = f x

module _ {A : Type 0} where
  -- One round: the test when `result` is read, and what is worked on after the round.
  unfoldable pub run_case : KtestSuite A → (Test × A → Test × A) → A → Test × A
  run_case suite run a =
      let ran = run (call suite.test_init (new_test, a)) in (ran.0, (call suite.test_exit ran).1)

  unfoldable pub run_cases : KtestSuite A → List (Test × A → Test × A) → Result → A → Result × A
  unfolding run_case
  run_cases suite [] result a = (result, a)
  run_cases suite (run ∷ cases) result a =
      let (test, a') = run_case suite run a in
      run_cases suite cases
        (elim (test.result) [ ktest_failure ↦ ktest_failure | ktest_success ↦ result ]) a'

  unfoldable pub ktest_suite_run : KtestSuite A → A → Result × A
  unfolding run_cases
  ktest_suite_run suite a =
      let (result, a') = run_cases suite suite.tests ktest_success (call suite.init a) in
      (result, call suite.exit a')

-- The static variables of the trap handler and the register sepc.
pub record Traps : Type 0 where
  pub ktest_fault_occurred : Bool
  pub ktest_fault_expected : Bool
  pub ktest_fault_return_addr : ℕ
  pub sepc : ℕ

-- `none` is a panic.
unfoldable pub handle_trap : Traps → Option Traps
handle_trap s =
    if s.ktest_fault_expected
    then some (record s {
      ktest_fault_occurred = true;
      ktest_fault_expected = false;
      sepc = s.ktest_fault_return_addr;
    })
    else none

-- The code inside of `KTEST_EXPECT_FAULT` runs to its end or traps.
pub data Access (A : Type 0) : Type 0 where
  completes : A → Access A
  faults : A → Access A

-- What follows the code: the test fails if no fault, or a fault, has occurred.
unfoldable pub after_fault : Traps → Test → Traps × Test
after_fault s test =
    if s.ktest_fault_occurred
    then (record s { ktest_fault_occurred = false }, test)
    else (s, record test { result = ktest_failure })

unfoldable pub after_no_fault : Traps → Test → Traps × Test
after_no_fault s test =
    if s.ktest_fault_occurred
    then (record s { ktest_fault_occurred = false }, record test { result = ktest_failure })
    else (s, test)

module _ {A : Type 0} where
  -- From the label on, for some rounds: a trap returns to the address in sepc, which has to be that
  -- of the label, and there the code is run again if a fault is still expected. `none` is a panic,
  -- a return to another address, or more rounds.
  unfoldable pub from_label : ℕ → ℕ → (A → Access A) → Traps → A → Option (Traps × A)
  unfolding handle_trap
  from_label zero label expr s a = none
  from_label (suc rounds) label expr s a =
      let s1 = record s { ktest_fault_return_addr = label } in
      elim (s1.ktest_fault_expected) [
        | false ↦ some (s1, a)
        | true ↦ elim (expr a) [
          | completes a' ↦ some (s1, a')
          | faults a' ↦ elim (handle_trap s1) [
            | none ↦ none
            | some s2 ↦ elim (s2.sepc == label) [
              | false ↦ none
              | true ↦ from_label rounds label expr s2 a'
            ]
          ]
        ]
      ]

  -- The macros up to what they do about a fault: two rounds are enough, since the trap handler
  -- clears `ktest_fault_expected`.
  unfoldable pub attempt : ℕ → (A → Access A) → Traps → A → Option (Traps × A)
  unfolding from_label
  attempt label expr s a =
      elim (from_label 2 label expr (record s { ktest_fault_expected = true }) a) [
        | none ↦ none
        | some (s', a') ↦ some (record s' { ktest_fault_expected = false }, a')
      ]

  -- `KTEST_EXPECT_FAULT` and `KTEST_EXPECT_NO_FAULT` at a line; `label` is the address of the label.
  unfoldable pub expect_fault :
      ℕ → ℕ → (A → Access A) → Traps → Test → A → Option (Traps × Test × A)
  unfolding attempt after_fault
  expect_fault line label expr s test a = elim (attempt label expr s a) [
    | none ↦ none
    | some (s', a') ↦ some (
      (after_fault s' (record test { failure_line = line })).0,
      (after_fault s' (record test { failure_line = line })).1,
      a',
    )
  ]

  unfoldable pub expect_no_fault :
      ℕ → ℕ → (A → Access A) → Traps → Test → A → Option (Traps × Test × A)
  unfolding attempt after_no_fault
  expect_no_fault line label expr s test a = elim (attempt label expr s a) [
    | none ↦ none
    | some (s', a') ↦ some (
      (after_no_fault s' (record test { failure_line = line })).0,
      (after_no_fault s' (record test { failure_line = line })).1,
      a',
    )
  ]

-- `parse_bootarg_ktest`; `prefix` is the address of "ktest_run=". `none` means that the fuel of a
-- string function ran out.
unfoldable pub parse_bootarg_ktest : ℕ → Mem → ℕ → ℕ → ℕ → ℕ → Option Mem
parse_bootarg_ktest fuel m prefix bootargs buf size = elim (strlen fuel m prefix) [
  | none ↦ none
  | some prefix_len ↦ elim (strncmp fuel m bootargs prefix prefix_len) [
    | none ↦ none
    | some difference ↦ some (
        if is_zero difference
        then (strncpy m buf (bootargs + prefix_len) size).0
        else store8 m buf 0)
  ]
]
