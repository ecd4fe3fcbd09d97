-- ===== src/Ktest/Basic.antt =====
-- `vm_map_tests_basic` as a whole: a page is mapped, written and read.
use lab.Alloc.{Heap, success, alloc_get_page}
use lab.Alloc.Chain.{IsPage}
use lab.Kernel.{satp_value}
use lab.Ktest.{Test}
use lab.Ktest.AllocTests.{get_page}
use lab.Ktest.BasicTest.{Machine, test_va, page_touches}
use lab.Ktest.BasicSteps.{IsSv39, Filled}
use lab.Ktest.World.{World, reached, settled}
use lab.Mm.{vm_map_page}
use lab.Mm.Touches.{get_touches}
use lab.Mm.Marks.{IsMapped}
use lab.Mm.SetLeaf.{MapsWith, page_mapping}
use lab.Pgtable.Laws.{IsCanonical}
use lab.Prelude.{ℕ, true, ◌+◌, ◌/◌, ◌≤◌, ◌≡◌, ◌≢◌, false, Option, some, List, ◌∷◌, length}

-- How the test on the world `w` ends: no expectation has failed, the page `p`, which was taken from
-- the allocator, is mapped at `test_va` and full of 0xab, allocator and page tables are intact, and
-- every other page is mapped as before. Two free pages more have been used at most.
pub record BasicEnds (end : ℕ) (reserved : List ℕ) (test : Test) (w : World) (p : ℕ) (free : List ℕ)
    (r : Test × Option World) : Type 0 where
  pub left : World
  pub test' : Test
  pub rest : List ℕ
  pub returns : r ≡ (test', some left)
  pub result : test'.result ≡ test.result
  pub mapped : IsMapped end reserved w.kernel_root_ptb test_va p rest left.heap
  pub filled : Filled p 4096 left.heap.mem
  pub used : length free ≤ 2 + length rest
  pub same_root : left.kernel_root_ptb ≡ w.kernel_root_ptb
  pub same_satp : left.satp ≡ w.satp
  pub quiet : left.traps.ktest_fault_occurred ≡ false
  pub others :
      (x : ℕ)
      → IsCanonical x
      → test_va / 4096 ≢ x / 4096
      → page_mapping left.heap.mem w.kernel_root_ptb x ≡ page_mapping w.heap.mem w.kernel_root_ptb x

module _ (machine : Machine) (sv39 : IsSv39 machine) (label : ℕ → ℕ) where
  -- From a mapping that succeeded on.
  module _ (end : ℕ) (reserved : List ℕ) (val : ℕ) (test : Test) (w : World) (p : ℕ) (free : List ℕ)
      (h2 : Heap) (page : IsPage p) (root_page : IsPage w.kernel_root_ptb)
      (paging : w.satp ≡ satp_value w.kernel_root_ptb)
      (quiet : w.traps.ktest_fault_occurred ≡ false) (got : (alloc_get_page w.heap).0 ≡ p)
      (same : (alloc_get_page w.heap).1.mem ≡ w.heap.mem)
      (made : vm_map_page w.kernel_root_ptb test_va p 6 (alloc_get_page w.heap).1 ≡ (success, h2))
      (map_reached : reached (get_page w).1 (page_touches p (get_page w).1) ≡ true)
      (got_reached : reached w (get_touches w.heap) ≡ true)
      (spec : MapsWith end
        (p ∷ reserved)
        w.kernel_root_ptb
        test_va
        p
        6
        (alloc_get_page w.heap).1
        free
        (success, h2)) where
    abbrev root : ℕ
    root = w.kernel_root_ptb

    abbrev w2 : World
    w2 = record w { heap = h2; traps = settled (label 446) w.traps }

    abbrev test2 : Test
    test2 = record test { failure_line = 446 }
