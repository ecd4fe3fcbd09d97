-- ===== src/Ktest/AllocSuite.antt =====
-- The suite `alloc_tests` of src/ktest/kmain.c on a kernel whose allocator is not initialised.
use lab.Alloc.{Heap, success, alloc_get_page, alloc_free_page, alloc_init, physstop}
use lab.Alloc.Again.{IsLinked, alloc_init-IsLinked}
use lab.Alloc.Ring.{IsLinked-given_back}
use lab.Alloc.Laws.{free_page-result, get_page-result, ready_heap, alloc_uninitialised}
use lab.Kernel.{LinkerSymbols, mm_init_kmap}
use lab.Ktest.{KtestSuite, ktest_success, Test, ktest_assert, new_test, ktest_suite_run, run_cases}
use lab.Ktest.Switch.{trap_enable, trap_disable}
use lab.Ktest.AllocTests.{
  on_world, get_page, after_init, check_page, alloc_tests_fail_without_init,
  alloc_tests_sanity_checks, alloc_tests_init, alloc_tests,
}
use lab.Ktest.Suite.{run_cases-success, ktest_suite_run-around}
use lab.Ktest.World.{World, without_fault_lem, settled}
use lab.Mm.Touches.{get_touches}
use lab.Ktest.Reach.{reached-unpaged}
use lab.Memory.{load64, store64}
use lab.Panic.{bug_panic, bug_log}
use lab.Pgtable.{is_aligned}
use lab.Prelude.{
  ℕ, [], ◌∷◌, Option, none, ◌+◌, ◌-◌, ◌^◌, ◌≤◌, ◌<◌, ◌≡◌, refl, true, false, some, leb, arith, ◌∙◌,
}

-- What an initialisation of the allocator does to a list of any content.
abbrev Initialised : ℕ → Heap → Heap → Type 0
Initialised kernel_end before h =
    (alloc_init kernel_end before ≡ some (success, h))
    × (alloc_get_page h ≡ (physstop - 4096, ready_heap h.mem (load64 h.mem (physstop - 4096))))
    × IsLinked kernel_end before.freelist_head h

initialised :
    (kernel_end : ℕ) (before : Heap)
    → 0 < kernel_end
    → kernel_end + 4096 ≤ physstop
    → before.freelist_head < 2 ^ 64
    → (h : Heap) × Initialised kernel_end before h
initialised kernel_end before pos fits small =
    let (h, ran, linked) = alloc_init-IsLinked kernel_end before pos fits small in
    (
      h,
      (ran, get_page-result h (physstop - 4096) linked.ready linked.highest (omega arith), linked),
    )

-- The allocator when the page has been given back.
abbrev given_back : Heap → Heap
given_back h =
    let m = h.mem in
    ready_heap (store64 m (physstop - 4096) (load64 m (physstop - 4096))) (physstop - 4096)

freed :
    (h : Heap)
    → alloc_free_page (physstop - 4096) (ready_heap h.mem (load64 h.mem (physstop - 4096)))
      ≡ (success, given_back h)
freed h =
    free_page-result (ready_heap h.mem (load64 h.mem (physstop - 4096))) (physstop - 4096) refl
      (omega arith)

module _ (test : Test) (w : World) (pos : 0 < w.kmap.kernel_end)
    (fits : w.kmap.kernel_end + 4096 ≤ physstop) (small : w.heap.freelist_head < 2 ^ 64) where
  after_init_lem : after_init test w ≡ (
    test,
    some (record w {
      heap = given_back (initialised w.kmap.kernel_end w.heap pos fits small).0;
      bug_behavior = bug_panic;
    }),
  )
  unfolding after_init ktest_assert
  after_init_lem =
      let i = initialised w.kmap.kernel_end w.heap pos fits small in
      rw (i.1.0, after_init, i.1.1, freed i.0) refl

  -- The page has the address that the sanity checks want.
  sanity_checks_lem :
      (label : ℕ)
      → w.traps.ktest_fault_occurred ≡ false
      → w.satp ≡ 0
      → alloc_tests_sanity_checks label test w ≡ (
        record test { failure_line = 329 },
        some (record w {
          heap = given_back (initialised w.kmap.kernel_end w.heap pos fits small).0;
          traps = settled label w.traps;
        }),
      )
  unfolding alloc_tests_sanity_checks check_page ktest_assert is_aligned
  sanity_checks_lem label quiet unpaged =
      let i = initialised w.kmap.kernel_end w.heap pos fits small in
      let w1 : World = record w { heap = i.0 } in
      let e : leb w.kmap.kernel_end (physstop - 4096) ≡ true = ground arith in
      rw
        (
          i.1.0,
          alloc_tests_sanity_checks,
          without_fault_lem 329 label (λ w2. get_touches w2.heap) get_page 0 test w1 quiet
              (reached-unpaged w1 (get_touches w1.heap) unpaged),
          i.1.1,
          freed i.0,
          e,
        )
        refl

-- Before the first initialisation.
fail_without_init_lem :
    (test : Test) (w : World)
    → w.heap.is_initialized ≡ false
    → (pos : 0 < w.kmap.kernel_end) (fits : w.kmap.kernel_end + 4096 ≤ physstop)
      (small : w.heap.freelist_head < 2 ^ 64)
    → alloc_tests_fail_without_init test w ≡ (
      test,
      some (record w {
        heap = given_back (initialised w.kmap.kernel_end w.heap pos fits small).0;
        bug_behavior = bug_panic;
      }),
    )
unfolding alloc_tests_fail_without_init ktest_assert
fail_without_init_lem test w off pos fits small =
    let u = alloc_uninitialised w.heap 0 off in
    rw (u.0, alloc_tests_fail_without_init, u.2)
      (after_init_lem test (record w { bug_behavior = bug_log }) pos fits small)

kernel_end_lem : (symbols : LinkerSymbols) → (mm_init_kmap symbols).kernel_end ≡ symbols.end
unfolding mm_init_kmap
kernel_end_lem symbols = refl

-- The two tests, one after the other.
cases_lem :
    (suite : KtestSuite (Option World)) (label : ℕ) (w : World)
    → suite.test_init ≡ none
    → suite.test_exit ≡ none
    → w.heap.is_initialized ≡ false
    → w.traps.ktest_fault_occurred ≡ false
    → w.satp ≡ 0
    → 0 < w.kmap.kernel_end
    → w.kmap.kernel_end + 4096 ≤ physstop
    → w.heap.freelist_head < 2 ^ 64
    → (h : Heap) × IsLinked w.kmap.kernel_end (physstop - 4096) h
      × (run_cases suite
            (on_world alloc_tests_fail_without_init
              ∷ on_world (alloc_tests_sanity_checks label)
              ∷ [])
            ktest_success
            (some w)
          ≡ (
            ktest_success,
            some (record w { heap = h; bug_behavior = bug_panic; traps = settled label w.traps }),
          ))
unfolding run_cases
cases_lem suite label w no_init no_exit off quiet unpaged pos fits small =
    let h1 = (initialised w.kmap.kernel_end w.heap pos fits small).0 in
    let w2 : World = record w { heap = given_back h1; bug_behavior = bug_panic } in
    let i2 = initialised w.kmap.kernel_end (given_back h1) pos fits (omega arith) in
    let h2 = given_back i2.0 in
    let w3 : World = record w2 { heap = h2; traps = settled label w.traps } in
    let later = on_world (alloc_tests_sanity_checks label) ∷ [] in
    (
      h2,
      IsLinked-given_back w.kmap.kernel_end (physstop - 4096) i2.0 fits (omega arith) i2.1.2,
      run_cases-success suite (on_world alloc_tests_fail_without_init) later (some w) (some w2)
            new_test no_init no_exit (fail_without_init_lem new_test w off pos fits small) refl
          ∙ run_cases-success suite (on_world (alloc_tests_sanity_checks label)) [] (some w2)
              (some w3) (record new_test { failure_line = 329 }) no_init no_exit
              (sanity_checks_lem new_test w2 pos fits (omega arith) label quiet unpaged) refl,
    )

-- On a kernel whose allocator is not initialised, whose list head is a word, with no fault
-- remembered, with paging off, and with room for a page between the kernel's end and the end of the
-- memory, the suite `alloc_tests` succeeds. It leaves behind an allocator whose list leads from the highest page
-- down to the kernel's end and back to the highest, BUG() that panics, and the registers and the
-- layout that its functions `init` and `exit` set.
pub alloc_tests_lem :
    (trap_entry : ℕ) (symbols : LinkerSymbols) (label : ℕ) (w : World)
    → w.heap.is_initialized ≡ false
    → w.traps.ktest_fault_occurred ≡ false
    → w.satp ≡ 0
    → w.heap.freelist_head < 2 ^ 64
    → 0 < symbols.end
    → symbols.end + 4096 ≤ physstop
    → (h : Heap) × IsLinked symbols.end (physstop - 4096) h
      × (ktest_suite_run (alloc_tests trap_entry symbols label) (some w) ≡ (
        ktest_success,
        some (record w {
          heap = h;
          kmap = mm_init_kmap symbols;
          bug_behavior = bug_panic;
          trap_csrs = trap_disable (trap_enable trap_entry w.trap_csrs);
          traps = settled label w.traps;
        }),
      ))
alloc_tests_lem trap_entry symbols label w off quiet unpaged small pos fits =
    let e = kernel_end_lem symbols in
    let suite = alloc_tests trap_entry symbols label in
    let w1 = alloc_tests_init trap_entry symbols w in
    let (h, linked, ran) =
      cases_lem suite label w1 refl refl off quiet unpaged (rw e pos) (rw e fits) small in
    let w2 : World = record w1 {
      heap = h;
      bug_behavior = bug_panic;
      traps = settled label w.traps;
    } in
    (h, rw e at linked, ktest_suite_run-around suite (some w) (some w2) ktest_success ran)
