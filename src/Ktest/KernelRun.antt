-- ===== src/Ktest/KernelRun.antt =====
-- `kmain` of src/ktest/kmain.c without boot arguments: all six suites, one after the other.
use lab.Alloc.{physstop}
use lab.Ktest.{Result, ktest_success}
use lab.Ktest.Outside.{outside}
use lab.Kernel.Space.{end_page}
use lab.Ktest.Names.{SuiteName, page_unit, virt_addr_unit, ppn_unit, pte_unit, allocation, mapping}
use lab.Ktest.World.{World}
use lab.Mm.Ensure.{IsVmTo}
use lab.Panic.{bug_log}
use lab.Prelude.{ℕ, ◌-◌, ◌≡◌, Option, some, List, [], ◌∷◌}
use lab.Str.Text.{Text}

-- The reports of the six suites, all of them successes.
abbrev pub all_succeed : (SuiteName → ℕ) → List (ℕ × Result)
all_succeed name =
    (name page_unit, ktest_success)
    ∷ (name virt_addr_unit, ktest_success)
    ∷ (name ppn_unit, ktest_success)
    ∷ (name pte_unit, ktest_success)
    ∷ (name allocation, ktest_success)
    ∷ (name mapping, ktest_success)
    ∷ []

-- How the run ends: the six suites have succeeded, the page tables are intact and lie in the pages
-- between `start` and the end of the memory, as the free pages do, and BUG() only logs.
-- The allocator is intact as far as the pages `free` go, behind which its list starts again at the
-- highest page.
pub record RunEnds (start : ℕ) (name : SuiteName → ℕ) (root : ℕ)
    (r : Option (List (ℕ × Result) × Option World)) : Type 0 where
  pub left : World
  pub free : List ℕ
  pub returns : r ≡ some (all_succeed name, some left)
  pub intact : IsVmTo (physstop - 4096) (outside (end_page start)) root left.heap free
  pub behavior : left.bug_behavior ≡ bug_log
