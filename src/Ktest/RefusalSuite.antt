-- ===== src/Ktest/RefusalSuite.antt =====
-- The tests of refusals one after the other, in the order of the suite `vm_map_tests`.
use lab.Alloc.{Heap}
use lab.Ktest.{Test, new_test, KtestSuite, run_cases, ktest_success}
use lab.Ktest.AllocTests.{on_world}
use lab.Ktest.MapTests.{
  vm_map_tests_refuse_malformed_va, vm_map_tests_refuse_misaligned_va,
  vm_map_tests_refuse_misaligned_pa, vm_map_tests_refuse_remap,
}
use lab.Ktest.RefusalRuns.{Ends, EndsWithin}
use lab.Ktest.Refusals.{malformed_va_lem, misaligned_va_lem, misaligned_pa_lem, remap_lem}
use lab.Ktest.Suite.{run_cases-success}
use lab.Ktest.Reach.{Reaching}
use lab.Ktest.World.{World}
use lab.Mm.SetLeaf.{page_mapping}
use lab.Mm.Ensure.{IsVmTo}
use lab.Panic.{BugBehavior, bug_panic, bug_log}
use lab.Pgtable.Laws.{IsCanonical}
use lab.Prelude.{
  ℕ, suc, ◌/◌, ◌^◌, ◌<◌, ◌≤◌, ◌≡◌, refl, ◌≢◌, false, Option, none, some, List, [], ◌∷◌, length,
  arith, inr, ◌∙◌,
}

-- The last four of `vm_map_test_cases`; `label` gives the address of the label of a line.
abbrev pub refusal_tests : (ℕ → ℕ) → List (Test × Option World → Test × Option World)
refusal_tests label =
    on_world (vm_map_tests_refuse_misaligned_va (label 499) (label 506))
    ∷ on_world (vm_map_tests_refuse_misaligned_pa (label 523) (label 530))
    ∷ on_world (vm_map_tests_refuse_malformed_va (label 475) (label 482))
    ∷ on_world (vm_map_tests_refuse_remap (label 547) (label 554))
    ∷ []

-- The pages that the tests map are not mapped.
pub record Unused (w : World) : Type 0 where
  pub malformed : page_mapping w.heap.mem w.kernel_root_ptb 0xffffffff00000000 ≡ none
  pub misaligned_va : page_mapping w.heap.mem w.kernel_root_ptb 0xffffffff10000000 ≡ none
  pub misaligned_pa : page_mapping w.heap.mem w.kernel_root_ptb 0xffffffff30000000 ≡ none
  pub remap : page_mapping w.heap.mem w.kernel_root_ptb 0xffffffff40000000 ≡ none

IsVm-root :
    (end : ℕ) (reserved : List ℕ) (root root' : ℕ) (h : Heap) (free : List ℕ)
    → root ≡ root'
    → IsVmTo end reserved root h free
    → IsVmTo end reserved root' h free
IsVm-root end reserved root root' h free e is = rw e at is

-- The kernel between two tests, with `n` free pages behind the one that the tests take.
record Stage (end : ℕ) (reserved : List ℕ) (p n : ℕ) (w : World) : Type 0 where
  free : List ℕ
  is : IsVmTo end reserved w.kernel_root_ptb w.heap (p ∷ free)
  room : n ≤ length free
  quiet : w.traps.ktest_fault_occurred ≡ false
  reach : Reaching reserved w

module _ (end : ℕ) (reserved : List ℕ) (test : Test) (w : World) (p va line : ℕ)
    (after : BugBehavior) (r : Test × Option World) where
  advance :
      (n : ℕ) (free : List ℕ)
      → suc (suc n) ≤ length free
      → (e : EndsWithin end reserved free test w p va after line r)
      → Stage end reserved p n e.0.left
  advance n free room (e, used) = record {
    free = e.rest;
    is = rw e.same_root e.intact;
    room = omega (arith, room, used);
    quiet = e.quiet;
    reach = e.reach;
  }

  still_unused :
      (e : Ends end reserved test w p va after line r) (x : ℕ)
      → IsCanonical x
      → va / 4096 ≢ x / 4096
      → page_mapping w.heap.mem w.kernel_root_ptb x ≡ none
      → page_mapping e.left.heap.mem e.left.kernel_root_ptb x ≡ none
  still_unused e x c ne unused = rw e.same_root (e.others x c ne ∙ unused)

-- On an intact kernel whose allocator hands out the page `p` and eight more at least, wherever its
-- list goes on behind these within 64 bits, with no fault remembered, with the pages that the tests
-- map not mapped before, and with paging off or every page that is not reserved mapped to itself for
-- loads and stores in the tables in use, the four tests of refusals succeed one after the other, in
-- the order of the suite. Allocator and page tables are intact at the end, the page that the tests took is the
-- first free one again, and BUG() only logs from then on.
pub refusal_tests_lem :
    (label : ℕ → ℕ) (suite : KtestSuite (Option World)) (end : ℕ) (reserved : List ℕ) (w : World)
    (p : ℕ) (free : List ℕ)
    → suite.test_init ≡ none
    → suite.test_exit ≡ none
    → end < 2 ^ 64
    → IsVmTo end reserved w.kernel_root_ptb w.heap (p ∷ free)
    → 8 ≤ length free
    → w.traps.ktest_fault_occurred ≡ false
    → Reaching reserved w
    → Unused w
    → (w' : World) × (rest : List ℕ) × (run_cases suite (refusal_tests label) ktest_success (some w)
        ≡ (ktest_success, some w'))
      × IsVmTo end reserved w.kernel_root_ptb w'.heap (p ∷ rest)
      × (w'.bug_behavior ≡ bug_log)
unfolding run_cases
refusal_tests_lem label suite end reserved w p free no_init no_exit small is room quiet reach
      unused =
    let c0 : IsCanonical 0xffffffff00000000 = inr (omega arith, omega arith) in
    let c3 : IsCanonical 0xffffffff30000000 = inr (omega arith, omega arith) in
    let c4 : IsCanonical 0xffffffff40000000 = inr (omega arith, omega arith) in
    let run1 = vm_map_tests_refuse_misaligned_va (label 499) (label 506) in
    let run2 = vm_map_tests_refuse_misaligned_pa (label 523) (label 530) in
    let run3 = vm_map_tests_refuse_malformed_va (label 475) (label 482) in
    let run4 = vm_map_tests_refuse_remap (label 547) (label 554) in
    let e1 =
      misaligned_va_lem end small reserved new_test w p free is (omega (arith, room)) quiet reach
        (label 499) (label 506) unused.misaligned_va in
    let w1 = e1.0.left in
    let s1 =
      advance end reserved new_test w p 0xffffffff10000000 506 bug_panic (run1 new_test w) 6 free
        room e1 in
    let still1 =
      still_unused end reserved new_test w p 0xffffffff10000000 506 bug_panic (run1 new_test w)
        e1.0 in
    let e2 =
      misaligned_pa_lem end small reserved new_test w1 p s1.free s1.is (omega (arith, s1.room))
        s1.quiet s1.reach (label 523) (label 530)
        (still1 0xffffffff30000000 c3 (omega arith) unused.misaligned_pa) in
    let w2 = e2.0.left in
    let s2 =
      advance end reserved new_test w1 p 0xffffffff30000000 530 bug_panic (run2 new_test w1) 4
        s1.free s1.room e2 in
    let still2 =
      still_unused end reserved new_test w1 p 0xffffffff30000000 530 bug_panic (run2 new_test w1)
        e2.0 in
    let e3 =
      malformed_va_lem end small reserved new_test w2 p s2.free s2.is (omega (arith, s2.room))
        s2.quiet s2.reach (label 475) (label 482)
        (still2 0xffffffff00000000 c0 (omega arith)
          (still1 0xffffffff00000000 c0 (omega arith) unused.malformed)) in
    let w3 = e3.0.left in
    let s3 =
      advance end reserved new_test w2 p 0xffffffff00000000 482 bug_panic (run3 new_test w2) 2
        s2.free s2.room e3 in
    let still3 =
      still_unused end reserved new_test w2 p 0xffffffff00000000 482 bug_panic (run3 new_test w2)
        e3.0 in
    let e4 =
      remap_lem end small reserved new_test w3 p s3.free s3.is s3.room s3.quiet s3.reach (label 547)
        (label 554)
        (still3 0xffffffff40000000 c4 (omega arith) (
          still2 0xffffffff40000000 c4 (omega arith)
            (still1 0xffffffff40000000 c4 (omega arith) unused.remap))) in
    let roots : w3.kernel_root_ptb ≡ w.kernel_root_ptb =
      e3.0.same_root ∙ (e2.0.same_root ∙ e1.0.same_root) in
    (
      e4.left,
      e4.rest,
      run_cases-success suite (on_world run1) (on_world run2 ∷ on_world run3 ∷ on_world run4 ∷ [])
            (some w) (some w1) (record new_test { failure_line = 506 }) no_init no_exit e1.0.returns
            refl
          ∙ (run_cases-success suite (on_world run2) (on_world run3 ∷ on_world run4 ∷ []) (some w1)
                (some w2) (record new_test { failure_line = 530 }) no_init no_exit e2.0.returns refl
              ∙ (run_cases-success suite (on_world run3) (on_world run4 ∷ []) (some w2) (some w3)
                    (record new_test { failure_line = 482 }) no_init no_exit e3.0.returns refl
                  ∙ run_cases-success suite (on_world run4) [] (some w3) (some e4.left)
                      (record new_test { failure_line = 554 }) no_init no_exit e4.returns refl)),
      IsVm-root end reserved w3.kernel_root_ptb w.kernel_root_ptb e4.left.heap (p ∷ e4.rest) roots
          e4.intact,
      e4.behavior,
    )
