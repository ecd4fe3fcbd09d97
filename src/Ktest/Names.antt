-- ===== src/Ktest/Names.antt =====
-- The six suites of `kmain`, and the choice of one of them by its name.
use lab.Ktest.{KtestSuite, ktest_suite_run}
use lab.Ktest.Choice.{verdict}
use lab.Ktest.Main.{Named, test_kmain}
use lab.Ktest.Select.{Verdicts, test_kmain-named}
use lab.Memory.{Mem}
use lab.Prelude.{
  ℕ, ◌+◌, ◌≤◌, ◌<◌, ◌≡◌, refl, Bool, true, false, some, List, [], ◌∷◌, ◌++◌, length, arith,
}
use lab.Str.Copy.{Apart}
use lab.Str.Text.{Text}

pub data SuiteName : Type 0 where
  page_unit : SuiteName
  virt_addr_unit : SuiteName
  ppn_unit : SuiteName
  pte_unit : SuiteName
  allocation : SuiteName
  mapping : SuiteName

-- The field `name` of each suite.
abbrev pub text_of : SuiteName → List ℕ
text_of page_unit =
    b'p' ∷ b'a' ∷ b'g' ∷ b'e' ∷ b'_' ∷ b'u' ∷ b'n' ∷ b'i' ∷ b't' ∷ b'_' ∷ b't' ∷ b'e' ∷ b's' ∷ b't'
    ∷ b's' ∷ []
text_of virt_addr_unit =
    b'v' ∷ b'i' ∷ b'r' ∷ b't' ∷ b'_' ∷ b'a' ∷ b'd' ∷ b'd' ∷ b'r' ∷ b'_' ∷ b'u' ∷ b'n' ∷ b'i' ∷ b't'
    ∷ b'_' ∷ b't' ∷ b'e' ∷ b's' ∷ b't' ∷ b's' ∷ []
text_of ppn_unit =
    b'p' ∷ b'p' ∷ b'n' ∷ b'_' ∷ b'u' ∷ b'n' ∷ b'i' ∷ b't' ∷ b'_' ∷ b't' ∷ b'e' ∷ b's' ∷ b't' ∷ b's'
    ∷ []
text_of pte_unit =
    b'p' ∷ b't' ∷ b'e' ∷ b'_' ∷ b'u' ∷ b'n' ∷ b'i' ∷ b't' ∷ b'_' ∷ b't' ∷ b'e' ∷ b's' ∷ b't' ∷ b's'
    ∷ []
text_of allocation = b'a' ∷ b'l' ∷ b'l' ∷ b'o' ∷ b'c' ∷ b'_' ∷ b't' ∷ b'e' ∷ b's' ∷ b't' ∷ b's' ∷ []
text_of mapping =
    b'v' ∷ b'm' ∷ b'_' ∷ b'm' ∷ b'a' ∷ b'p' ∷ b'_' ∷ b't' ∷ b'e' ∷ b's' ∷ b't' ∷ b's' ∷ []

-- "ktest_run="
abbrev pub ktest_run : List ℕ
ktest_run = b'k' ∷ b't' ∷ b'e' ∷ b's' ∷ b't' ∷ b'_' ∷ b'r' ∷ b'u' ∷ b'n' ∷ b'=' ∷ []

-- The array of `kmain`, by the addresses of the names and by the suites.
module _ {A : Type 0} where
  abbrev pub suites : (SuiteName → ℕ) → (SuiteName → KtestSuite A) → List (Named A)
  suites name suite =
      record { name = name page_unit; suite = suite page_unit }
      ∷ record { name = name virt_addr_unit; suite = suite virt_addr_unit }
      ∷ record { name = name ppn_unit; suite = suite ppn_unit }
      ∷ record { name = name pte_unit; suite = suite pte_unit }
      ∷ record { name = name allocation; suite = suite allocation }
      ∷ record { name = name mapping; suite = suite mapping }
      ∷ []

abbrev marks : SuiteName → List Bool
marks page_unit = true ∷ false ∷ false ∷ false ∷ false ∷ false ∷ []
marks virt_addr_unit = false ∷ true ∷ false ∷ false ∷ false ∷ false ∷ []
marks ppn_unit = false ∷ false ∷ true ∷ false ∷ false ∷ false ∷ []
marks pte_unit = false ∷ false ∷ false ∷ true ∷ false ∷ false ∷ []
marks allocation = false ∷ false ∷ false ∷ false ∷ true ∷ false ∷ []
marks mapping = false ∷ false ∷ false ∷ false ∷ false ∷ true ∷ []

module _ {A : Type 0} (fuel : ℕ) (m : Mem) (prefix bootargs ktest_arg : ℕ) (name : SuiteName → ℕ)
    (suite : SuiteName → KtestSuite A) (a : A) (bytes : (x : ℕ) → m x < 256)
    (zeros : (x : ℕ) → ktest_arg ≤ x → x < ktest_arg + 64 → m x ≡ 0)
    (word : Text m prefix ktest_run) (names : (k : SuiteName) → Text m (name k) (text_of k))
    (apart : (k : SuiteName) → Apart (name k) (length (text_of k)) ktest_arg 64)
    (enough : 20 < fuel) where
  entry :
      (k j : SuiteName) (b : Bool)
      → verdict (text_of k) (text_of j) ≡ some b
      → (t : List ℕ) × Text m (name j) t
        × (verdict (text_of k) t ≡ some b)
        × Apart (name j) (length t) ktest_arg 64
  entry k j b e = (text_of j, names j, e, apart j)

  verdicts : (k : SuiteName) → Verdicts m ktest_arg (text_of k) (marks k) (suites name suite)
  verdicts page_unit = (
    entry page_unit page_unit true refl,
    (
      entry page_unit virt_addr_unit false refl,
      (
        entry page_unit ppn_unit false refl,
        (
          entry page_unit pte_unit false refl,
          (entry page_unit allocation false refl, (entry page_unit mapping false refl, tt)),
        ),
      ),
    ),
  )
  verdicts virt_addr_unit = (
    entry virt_addr_unit page_unit false refl,
    (
      entry virt_addr_unit virt_addr_unit true refl,
      (
        entry virt_addr_unit ppn_unit false refl,
        (
          entry virt_addr_unit pte_unit false refl,
          (
            entry virt_addr_unit allocation false refl,
            (entry virt_addr_unit mapping false refl, tt),
          ),
        ),
      ),
    ),
  )
  verdicts ppn_unit = (
    entry ppn_unit page_unit false refl,
    (
      entry ppn_unit virt_addr_unit false refl,
      (
        entry ppn_unit ppn_unit true refl,
        (
          entry ppn_unit pte_unit false refl,
          (entry ppn_unit allocation false refl, (entry ppn_unit mapping false refl, tt)),
        ),
      ),
    ),
  )
  verdicts pte_unit = (
    entry pte_unit page_unit false refl,
    (
      entry pte_unit virt_addr_unit false refl,
      (
        entry pte_unit ppn_unit false refl,
        (
          entry pte_unit pte_unit true refl,
          (entry pte_unit allocation false refl, (entry pte_unit mapping false refl, tt)),
        ),
      ),
    ),
  )
  verdicts allocation = (
    entry allocation page_unit false refl,
    (
      entry allocation virt_addr_unit false refl,
      (
        entry allocation ppn_unit false refl,
        (
          entry allocation pte_unit false refl,
          (entry allocation allocation true refl, (entry allocation mapping false refl, tt)),
        ),
      ),
    ),
  )
  verdicts mapping = (
    entry mapping page_unit false refl,
    (
      entry mapping virt_addr_unit false refl,
      (
        entry mapping ppn_unit false refl,
        (
          entry mapping pte_unit false refl,
          (entry mapping allocation false refl, (entry mapping mapping true refl, tt)),
        ),
      ),
    ),
  )

  -- For each of the six suites: on the boot arguments "ktest_run=" with its name behind, and with a
  -- buffer of zeros apart from the boot arguments and from the names, `kmain` runs this suite once
  -- and no other.
  pub test_kmain-one :
      (k : SuiteName)
      → Text m bootargs (ktest_run ++ text_of k)
      → Apart (bootargs + 10) (length (text_of k)) ktest_arg 64
      → test_kmain fuel m prefix bootargs ktest_arg (suites name suite) a
        ≡ some ((name k, (ktest_suite_run (suite k) a).0) ∷ [], (ktest_suite_run (suite k) a).1)
  test_kmain-one page_unit t out =
      test_kmain-named fuel m prefix bootargs ktest_arg b'p' ktest_run
        (b'a' ∷ b'g' ∷ b'e' ∷ b'_' ∷ b'u' ∷ b'n' ∷ b'i' ∷ b't' ∷ b'_' ∷ b't' ∷ b'e' ∷ b's' ∷ b't'
          ∷ b's' ∷ [])
        (marks page_unit) (suites name suite) a bytes zeros word t out (omega arith) (omega arith)
        (omega arith) (verdicts page_unit)
  test_kmain-one virt_addr_unit t out =
      test_kmain-named fuel m prefix bootargs ktest_arg b'v' ktest_run
        (b'i' ∷ b'r' ∷ b't' ∷ b'_' ∷ b'a' ∷ b'd' ∷ b'd' ∷ b'r' ∷ b'_' ∷ b'u' ∷ b'n' ∷ b'i' ∷ b't'
          ∷ b'_' ∷ b't' ∷ b'e' ∷ b's' ∷ b't' ∷ b's' ∷ [])
        (marks virt_addr_unit) (suites name suite) a bytes zeros word t out (omega arith)
        (omega arith) (omega arith) (verdicts virt_addr_unit)
  test_kmain-one ppn_unit t out =
      test_kmain-named fuel m prefix bootargs ktest_arg b'p' ktest_run
        (b'p' ∷ b'n' ∷ b'_' ∷ b'u' ∷ b'n' ∷ b'i' ∷ b't' ∷ b'_' ∷ b't' ∷ b'e' ∷ b's' ∷ b't' ∷ b's'
          ∷ [])
        (marks ppn_unit) (suites name suite) a bytes zeros word t out (omega arith) (omega arith)
        (omega arith) (verdicts ppn_unit)
  test_kmain-one pte_unit t out =
      test_kmain-named fuel m prefix bootargs ktest_arg b'p' ktest_run
        (b't' ∷ b'e' ∷ b'_' ∷ b'u' ∷ b'n' ∷ b'i' ∷ b't' ∷ b'_' ∷ b't' ∷ b'e' ∷ b's' ∷ b't' ∷ b's'
          ∷ [])
        (marks pte_unit) (suites name suite) a bytes zeros word t out (omega arith) (omega arith)
        (omega arith) (verdicts pte_unit)
  test_kmain-one allocation t out =
      test_kmain-named fuel m prefix bootargs ktest_arg b'a' ktest_run
        (b'l' ∷ b'l' ∷ b'o' ∷ b'c' ∷ b'_' ∷ b't' ∷ b'e' ∷ b's' ∷ b't' ∷ b's' ∷ [])
        (marks allocation) (suites name suite) a bytes zeros word t out (omega arith) (omega arith)
        (omega arith) (verdicts allocation)
  test_kmain-one mapping t out =
      test_kmain-named fuel m prefix bootargs ktest_arg b'v' ktest_run
        (b'm' ∷ b'_' ∷ b'm' ∷ b'a' ∷ b'p' ∷ b'_' ∷ b't' ∷ b'e' ∷ b's' ∷ b't' ∷ b's' ∷ [])
        (marks mapping) (suites name suite) a bytes zeros word t out (omega arith) (omega arith)
        (omega arith) (verdicts mapping)
