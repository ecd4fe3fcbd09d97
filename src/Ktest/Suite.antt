-- ===== src/Ktest/Suite.antt =====
-- The result of a suite: no failure is lost, and every case runs.
use lab.Ktest.{
  Result, ktest_success, ktest_failure, Test, new_test, KtestSuite, call, run_case, run_cases,
  ktest_suite_run,
}
use lab.Prelude.{none, ◌≡◌, refl, Bool, true, false, ◌||◌, List, [], ◌∷◌, ap, ◌∙◌}

abbrev pub failed : Result → Bool
failed ktest_success = false
failed ktest_failure = true

abbrev pub any_failed : List Result → Bool
any_failed [] = false
any_failed (r ∷ rs) = failed r || any_failed rs

abbrev pub of_failed : Bool → Result
of_failed true = ktest_failure
of_failed false = ktest_success

shuffle : (x y z : Bool) → ((x || y) || z) ≡ (y || (x || z))
shuffle true true z = refl
shuffle true false z = refl
shuffle false true z = refl
shuffle false false z = refl

module _ {A : Type 0} where
  -- The results of the cases, each run in the state that the ones before it leave.
  abbrev pub results_of : KtestSuite A → List (Test × A → Test × A) → A → List Result
  results_of suite [] a = []
  results_of suite (run ∷ cases) a =
      (run_case suite run a).0.result ∷ results_of suite cases (run_case suite run a).1

  -- What the cases leave behind, in their order.
  abbrev pub state_after : KtestSuite A → List (Test × A → Test × A) → A → A
  state_after suite [] a = a
  state_after suite (run ∷ cases) a = state_after suite cases (run_case suite run a).1

  run_cases_step :
      (suite : KtestSuite A) (run : Test × A → Test × A) (cases : List (Test × A → Test × A))
      (before : Bool) (r : Result) (a : A)
      → (run_case suite run a).0.result ≡ r
      → run_cases suite (run ∷ cases) (of_failed before) a
        ≡ run_cases suite cases (of_failed (failed r || before)) (run_case suite run a).1
  unfolding run_cases
  run_cases_step suite run cases before ktest_success a e = rw (e, run_cases) refl
  run_cases_step suite run cases before ktest_failure a e = rw (e, run_cases) refl

  run_cases_lem :
      (suite : KtestSuite A) (cases : List (Test × A → Test × A)) (before : Bool) (a : A)
      → run_cases suite cases (of_failed before) a
        ≡ (of_failed (before || any_failed (results_of suite cases a)), state_after suite cases a)
  unfolding run_cases
  run_cases_lem suite [] true a = refl
  run_cases_lem suite [] false a = refl
  run_cases_lem suite (run ∷ cases) before a =
      let r = (run_case suite run a).0.result in
      let a' = (run_case suite run a).1 in
      run_cases_step suite run cases before r a refl
      ∙ run_cases_lem suite cases (failed r || before) a'
      ∙ ap (λ (b : Bool). (of_failed b, state_after suite cases a'))
          (shuffle (failed r) before (any_failed (results_of suite cases a')))

  -- `ktest_suite_run` runs every case, each in the state that the ones before it leave, between
  -- `init` and `exit`. The result is failure exactly if the test of some case has failed, whatever
  -- the cases behind it do.
  pub ktest_suite_run_lem :
      (suite : KtestSuite A) (a : A)
      → ktest_suite_run suite a ≡ (
        of_failed (any_failed (results_of suite suite.tests (call suite.init a))),
        call suite.exit (state_after suite suite.tests (call suite.init a)),
      )
  unfolding ktest_suite_run
  ktest_suite_run_lem suite a = rw (run_cases_lem suite suite.tests false (call suite.init a)) refl

  -- A case that succeeds, in a suite without functions around its cases.
  pub run_cases-success :
      (suite : KtestSuite A) (run : Test × A → Test × A) (cases : List (Test × A → Test × A))
      (a b : A) (test : Test)
      → suite.test_init ≡ none
      → suite.test_exit ≡ none
      → run (new_test, a) ≡ (test, b)
      → test.result ≡ ktest_success
      → run_cases suite (run ∷ cases) ktest_success a ≡ run_cases suite cases ktest_success b
  unfolding run_cases run_case
  run_cases-success suite run cases a b test no_init no_exit ran ok =
      rw (no_init, no_exit, run_cases, run_case, ran, ok) refl

  pub ktest_suite_run-around :
      (suite : KtestSuite A) (a b : A) (result : Result)
      → run_cases suite suite.tests ktest_success (call suite.init a) ≡ (result, b)
      → ktest_suite_run suite a ≡ (result, call suite.exit b)
  unfolding ktest_suite_run
  ktest_suite_run-around suite a b result ran = rw (ran, ktest_suite_run) refl
