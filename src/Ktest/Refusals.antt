-- ===== src/Ktest/Refusals.antt =====
-- The four tests that `vm_map_page` refuses what it should, on every intact kernel.
use lab.Ktest.{Test}
use lab.Ktest.MapSuite.{refuses_va, refuses_pa, refuses_top}
use lab.Ktest.MapTests.{
  vm_map_tests_refuse_malformed_va, vm_map_tests_refuse_misaligned_va,
  vm_map_tests_refuse_misaligned_pa, vm_map_tests_refuse_remap,
}
use lab.Ktest.RefusalRuns.{Ends, EndsWithin, refused_then_mapped, mapped_then_refused}
use lab.Ktest.Reach.{Reaching}
use lab.Ktest.World.{World}
use lab.Alloc.{Heap, alloc_get_page}
use lab.Mm.Ensure.{IsVmTo}
use lab.Mm.SetLeaf.{page_mapping}
use lab.Panic.{bug_panic, bug_log}
use lab.Pgtable.{is_aligned}
use lab.Pgtable.Laws.{is_aligned_iff}
use lab.Prelude.{ℕ, ◌+◌, ◌%◌, ◌^◌, ◌≤◌, ◌<◌, ◌≡◌, refl, false, none, List, ◌∷◌, length, arith, inr}

unaligned : is_aligned 0xabcdabcdabcda100 ≡ false
unfolding is_aligned
unaligned = refl

module _ (end : ℕ) (small : end < 2 ^ 64) (reserved : List ℕ) (test : Test) (w : World) (p : ℕ)
    (free : List ℕ) (is : IsVmTo end reserved w.kernel_root_ptb w.heap (p ∷ free))
    (room : 2 ≤ length free) (quiet : w.traps.ktest_fault_occurred ≡ false)
    (reach : Reaching reserved w) (label label' : ℕ) where
  abbrev root : ℕ
  root = w.kernel_root_ptb

  abbrev heap1 : Heap
  heap1 = (alloc_get_page w.heap).1

  pub malformed_va_lem :
      page_mapping w.heap.mem root 0xffffffff00000000 ≡ none
      → EndsWithin end reserved free test w p 0xffffffff00000000 bug_panic 482
          (vm_map_tests_refuse_malformed_va label label' test w)
  unfolding vm_map_tests_refuse_malformed_va
  malformed_va_lem =
      refused_then_mapped end small reserved test w p free is room quiet reach label label' 475 480
        482 487 0xabcdabcd00000000 0xffffffff00000000 (λ page_addr. page_addr)
        (refuses_top root 0xabcdabcd00000000 p 6 heap1 refl) (omega arith) (omega arith)
        (inr (omega arith, omega arith))

  pub misaligned_va_lem :
      page_mapping w.heap.mem root 0xffffffff10000000 ≡ none
      → EndsWithin end reserved free test w p 0xffffffff10000000 bug_panic 506
          (vm_map_tests_refuse_misaligned_va label label' test w)
  unfolding vm_map_tests_refuse_misaligned_va
  misaligned_va_lem =
      refused_then_mapped end small reserved test w p free is room quiet reach label label' 499 504
        506 511 0xabcdabcdabcda100 0xffffffff10000000 (λ page_addr. page_addr)
        (refuses_va root 0xabcdabcdabcda100 p 6 heap1 unaligned) (omega arith) (omega arith)
        (inr (omega arith, omega arith))

  pub misaligned_pa_lem :
      page_mapping w.heap.mem root 0xffffffff30000000 ≡ none
      → EndsWithin end reserved free test w p 0xffffffff30000000 bug_panic 530
          (vm_map_tests_refuse_misaligned_pa label label' test w)
  unfolding vm_map_tests_refuse_misaligned_pa
  misaligned_pa_lem =
      refused_then_mapped end small reserved test w p free is room quiet reach label label' 523 528
        530 535 0xffffffff20000000 0xffffffff30000000 (λ page_addr. (page_addr + 4) % 2 ^ 64)
        (refuses_pa root 0xffffffff20000000 ((p + 4) % 2 ^ 64) 6 heap1
          (ground (arith, is_aligned_iff ((p + 4) % 2 ^ 64), is.heap.chain.1)))
        (omega arith) (omega arith) (inr (omega arith, omega arith))

  pub remap_lem :
      page_mapping w.heap.mem root 0xffffffff40000000 ≡ none
      → Ends end reserved test w p 0xffffffff40000000 bug_log 554
          (vm_map_tests_refuse_remap label label' test w)
  unfolding vm_map_tests_refuse_remap
  remap_lem =
      mapped_then_refused end small reserved test w p free is room quiet reach label label' 547 552
        554 559 0xffffffff40000000 (omega arith) (omega arith) (inr (omega arith, omega arith))
