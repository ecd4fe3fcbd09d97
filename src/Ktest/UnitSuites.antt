-- ===== src/Ktest/UnitSuites.antt =====
-- The four suites of unit tests, run in any state.
use lab.Ktest.{ktest_success, Test, KtestSuite, run_cases, ktest_suite_run, ktest_assert, new_test}
use lab.Ktest.Suite.{run_cases-success, ktest_suite_run-around}
use lab.Ktest.UnitTests.{
  expect_all, case_of, cases_of, suite_of, page_unit_tests, virt_addr_unit_tests, ppn_unit_tests,
  pte_unit_tests, test_is_aligned, test_ppn_down, test_ppn_up, test_va_get_index, test_phys_to_ppn,
  test_ppn_to_phys, test_pte_get_ppn, test_pte_from_ppn, test_pte_valid, test_pte_readable,
  test_pte_writable, test_pte_executable, test_pte_leaf,
}
use lab.Pgtable.{
  is_aligned, ppn_down, ppn_up, va_get_index, phys_to_ppn, ppn_to_phys, pte_get_ppn, pte_from_ppn,
  pte_valid, pte_readable, pte_writable, pte_executable, pte_leaf,
}
use lab.Prelude.{◌≡◌, refl, none, List, [], ◌∷◌, ◌∙◌}

test_is_aligned_lem : (test : Test) → test_is_aligned test ≡ test
unfolding test_is_aligned expect_all ktest_assert is_aligned
test_is_aligned_lem test = refl

test_ppn_down_lem : (test : Test) → test_ppn_down test ≡ test
unfolding test_ppn_down expect_all ktest_assert ppn_down
test_ppn_down_lem test = refl

test_ppn_up_lem : (test : Test) → test_ppn_up test ≡ test
unfolding test_ppn_up expect_all ktest_assert ppn_up
test_ppn_up_lem test = refl

test_va_get_index_lem : (test : Test) → test_va_get_index test ≡ test
unfolding test_va_get_index expect_all ktest_assert va_get_index
test_va_get_index_lem test = refl

test_phys_to_ppn_lem : (test : Test) → test_phys_to_ppn test ≡ test
unfolding test_phys_to_ppn expect_all ktest_assert phys_to_ppn
test_phys_to_ppn_lem test = refl

test_ppn_to_phys_lem : (test : Test) → test_ppn_to_phys test ≡ test
unfolding test_ppn_to_phys expect_all ktest_assert ppn_to_phys
test_ppn_to_phys_lem test = refl

test_pte_get_ppn_lem : (test : Test) → test_pte_get_ppn test ≡ test
unfolding test_pte_get_ppn expect_all ktest_assert pte_get_ppn
test_pte_get_ppn_lem test = refl

test_pte_from_ppn_lem : (test : Test) → test_pte_from_ppn test ≡ test
unfolding test_pte_from_ppn expect_all ktest_assert pte_from_ppn
test_pte_from_ppn_lem test = refl

test_pte_valid_lem : (test : Test) → test_pte_valid test ≡ test
unfolding test_pte_valid expect_all ktest_assert pte_valid
test_pte_valid_lem test = refl

test_pte_readable_lem : (test : Test) → test_pte_readable test ≡ test
unfolding test_pte_readable expect_all ktest_assert pte_readable
test_pte_readable_lem test = refl

test_pte_writable_lem : (test : Test) → test_pte_writable test ≡ test
unfolding test_pte_writable expect_all ktest_assert pte_writable
test_pte_writable_lem test = refl

test_pte_executable_lem : (test : Test) → test_pte_executable test ≡ test
unfolding test_pte_executable expect_all ktest_assert pte_executable
test_pte_executable_lem test = refl

test_pte_leaf_lem : (test : Test) → test_pte_leaf test ≡ test
unfolding test_pte_leaf expect_all ktest_assert pte_leaf
test_pte_leaf_lem test = refl

-- Tests that leave a fresh `struct ktest` as it is.
abbrev Pass : List (Test → Test) → Type 0
Pass [] = Unit {0}
Pass (run ∷ runs) = (run new_test ≡ new_test) × Pass runs

module _ {A : Type 0} (a : A) where
  cases_lem :
      (suite : KtestSuite A) (runs : List (Test → Test))
      → suite.test_init ≡ none
      → suite.test_exit ≡ none
      → Pass runs
      → run_cases suite (cases_of runs) ktest_success a ≡ (ktest_success, a)
  unfolding run_cases
  cases_lem suite [] no_init no_exit pass = refl
  cases_lem suite (run ∷ runs) no_init no_exit pass =
      run_cases-success suite (case_of run) (cases_of runs) a a new_test no_init no_exit
        (rw pass.0 refl) refl
      ∙ cases_lem suite runs no_init no_exit pass.1

  suite_of_lem :
      (runs : List (Test → Test))
      → Pass runs
      → ktest_suite_run (suite_of runs) a ≡ (ktest_success, a)
  suite_of_lem runs pass =
      ktest_suite_run-around (suite_of runs) a a ktest_success
        (cases_lem (suite_of runs) runs refl refl pass)

  pub page_unit_tests_lem : ktest_suite_run (page_unit_tests {A = A}) a ≡ (ktest_success, a)
  page_unit_tests_lem =
      suite_of_lem (test_is_aligned ∷ test_ppn_down ∷ test_ppn_up ∷ [])
        (test_is_aligned_lem new_test, (test_ppn_down_lem new_test, (test_ppn_up_lem new_test, tt)))

  pub virt_addr_unit_tests_lem :
      ktest_suite_run (virt_addr_unit_tests {A = A}) a ≡ (ktest_success, a)
  virt_addr_unit_tests_lem =
      suite_of_lem (test_va_get_index ∷ []) (test_va_get_index_lem new_test, tt)

  pub ppn_unit_tests_lem : ktest_suite_run (ppn_unit_tests {A = A}) a ≡ (ktest_success, a)
  ppn_unit_tests_lem =
      suite_of_lem (test_phys_to_ppn ∷ test_ppn_to_phys ∷ test_pte_get_ppn ∷ test_pte_from_ppn ∷ [])
        (
          test_phys_to_ppn_lem new_test,
          (
            test_ppn_to_phys_lem new_test,
            (test_pte_get_ppn_lem new_test, (test_pte_from_ppn_lem new_test, tt)),
          ),
        )

  pub pte_unit_tests_lem : ktest_suite_run (pte_unit_tests {A = A}) a ≡ (ktest_success, a)
  pte_unit_tests_lem =
      suite_of_lem
        (test_pte_valid ∷ test_pte_readable ∷ test_pte_writable ∷ test_pte_executable
          ∷ test_pte_leaf ∷ [])
        (
          test_pte_valid_lem new_test,
          (
            test_pte_readable_lem new_test,
            (
              test_pte_writable_lem new_test,
              (test_pte_executable_lem new_test, (test_pte_leaf_lem new_test, tt)),
            ),
          ),
        )
