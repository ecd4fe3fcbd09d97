-- ===== src/Ktest/Fault.antt =====
-- The tests that a piece of code faults, or does not.
use lab.Ktest.{
  Result, ktest_failure, Test, Traps, handle_trap, Access, completes, faults, from_label, attempt,
  after_fault, after_no_fault, expect_fault, expect_no_fault,
}
use lab.Prelude.{ℕ, ◌≡◌, refl, Bool, true, false, some, not, if◌then◌else◌, eq→==}

-- What is worked on after the code, and whether it trapped.
module _ {A : Type 0} where
  abbrev pub left_by : Access A → A
  left_by (completes a) = a
  left_by (faults a) = a

  abbrev pub trapped : Access A → Bool
  trapped (completes a) = false
  trapped (faults a) = true

-- The state behind the macro: no fault is expected or remembered.
abbrev pub quiet : ℕ → ℕ → Traps
quiet label sepc = record {
  ktest_fault_occurred = false;
  ktest_fault_expected = false;
  ktest_fault_return_addr = label;
  sepc = sepc;
}

abbrev pub marked : Bool → ℕ → Result → Test
marked bad line result = record {
  result = (if bad then ktest_failure else result);
  failure_line = line;
}

module _ {A : Type 0} (line label sepc return_addr : ℕ) (expected : Bool) (expr : A → Access A)
    (test : Test) (a : A) where
  -- No fault is remembered before the macro.
  abbrev pub before : Traps
  before = record {
    ktest_fault_occurred = false;
    ktest_fault_expected = expected;
    ktest_fault_return_addr = return_addr;
    sepc = sepc;
  }

  fault_case :
      (r : Access A)
      → expr a ≡ r
      → expect_fault line label expr before test a
        ≡ some (
          quiet label (if trapped r then label else sepc),
          marked (not (trapped r)) line test.result,
          left_by r,
        )
  unfolding expect_fault attempt from_label handle_trap after_fault
  fault_case (completes a') e = rw (expect_fault, attempt, from_label, e) refl
  fault_case (faults a') e = rw (expect_fault, attempt, from_label, e, eq→== label label refl) refl

  no_fault_case :
      (r : Access A)
      → expr a ≡ r
      → expect_no_fault line label expr before test a
        ≡ some (
          quiet label (if trapped r then label else sepc),
          marked (trapped r) line test.result,
          left_by r,
        )
  unfolding expect_no_fault attempt from_label handle_trap after_no_fault
  no_fault_case (completes a') e = rw (expect_no_fault, attempt, from_label, e) refl
  no_fault_case (faults a') e =
      rw (expect_no_fault, attempt, from_label, e, eq→== label label refl) refl

  -- With no fault remembered, `KTEST_EXPECT_FAULT` and `KTEST_EXPECT_NO_FAULT` never panic. The one
  -- fails the test exactly if the code completes, the other exactly if it faults, and otherwise the
  -- result is kept. Both note the line, and leave no fault remembered or expected; after a fault
  -- sepc is the address of the label.
  pub expect_fault_lem :
      (expect_fault line label expr before test a
        ≡ some (
          quiet label (if trapped (expr a) then label else sepc),
          marked (not (trapped (expr a))) line test.result,
          left_by (expr a),
        ))
      × (expect_no_fault line label expr before test a
          ≡ some (
            quiet label (if trapped (expr a) then label else sepc),
            marked (trapped (expr a)) line test.result,
            left_by (expr a),
          ))
  expect_fault_lem = (fault_case (expr a) refl, no_fault_case (expr a) refl)
