-- ===== src/Ktest/Main.antt =====
-- `kmain` of src/ktest/kmain.c: the suites that the boot arguments ask for, in their order. `suites`
-- is a list without the NULL at its end. The strings lie in memory that the suites do not write.
-- `ktest_arg` and `prefix` are the addresses of the buffer and of "ktest_run=". The log messages
-- are left out, and so is the endless loop at the end.
use lab.Dtb.{is_zero}
use lab.Ktest.{Result, KtestSuite, ktest_suite_run, parse_bootarg_ktest}
use lab.Memory.{Mem}
use lab.Prelude.{ℕ, Bool, true, false, Option, none, some, List, [], ◌∷◌, ltb}
use lab.Str.{strlen, strcmp}

abbrev pub ktest_arg_max_size : ℕ
ktest_arg_max_size = 64

-- Whether a suite is run, by `ktest_single_test` and its name.
unfoldable pub is_chosen : ℕ → Mem → ℕ → Bool → ℕ → Option Bool
is_chosen fuel m ktest_arg false name = some true
is_chosen fuel m ktest_arg true name = elim (strcmp fuel m ktest_arg name) [
  | none ↦ none
  | some difference ↦ some (is_zero difference)
]

-- A suite with the address of its name.
pub record Named (A : Type 0) : Type 0 where
  pub name : ℕ
  pub suite : KtestSuite A

module _ {A : Type 0} where
  -- One round: the suite's name and result in front of those that follow.
  abbrev pub report : ℕ → Result → Option (List (ℕ × Result) × A) → Option (List (ℕ × Result) × A)
  report name result none = none
  report name result (some (results, a)) = some ((name, result) ∷ results, a)

  -- The loop over the suites; `none` means that the fuel ran out.
  unfoldable pub run_suites :
      ℕ → Mem → ℕ → Bool → List (Named A) → A → Option (List (ℕ × Result) × A)
  unfolding is_chosen
  run_suites fuel m ktest_arg single [] a = some ([], a)
  run_suites fuel m ktest_arg single (s ∷ suites) a =
      let skipped = run_suites fuel m ktest_arg single suites a in
      let (result, a') = ktest_suite_run s.suite a in
      let ran = report s.name result (run_suites fuel m ktest_arg single suites a') in
      elim (is_chosen fuel m ktest_arg single s.name) [
        | none ↦ none
        | some true ↦ ran
        | some false ↦ skipped
      ]

  unfoldable pub test_kmain :
      ℕ → Mem → ℕ → ℕ → ℕ → List (Named A) → A → Option (List (ℕ × Result) × A)
  unfolding run_suites
  test_kmain fuel m prefix bootargs ktest_arg suites a =
      elim (parse_bootarg_ktest fuel m prefix bootargs ktest_arg ktest_arg_max_size) [
        | none ↦ none
        | some m' ↦ elim (strlen fuel m' ktest_arg) [
          | none ↦ none
          | some len ↦ run_suites fuel m' ktest_arg (ltb 0 len) suites a
        ]
      ]
