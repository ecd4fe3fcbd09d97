-- ===== src/Ktest/AllocTests.antt =====
-- The suite `alloc_tests` of src/ktest/kmain.c. A test that does not get to its end, since the
-- fuel ran out or the kernel panicked, leaves no world. Paging is off when these tests run.
use lab.Alloc.{Status, success, failure, alloc_init, alloc_get_page, alloc_free_page}
use lab.Kernel.{LinkerSymbols, mm_init_kmap}
use lab.Ktest.{Test, KtestSuite, ktest_assert}
use lab.Ktest.Switch.{trap_enable, trap_disable}
use lab.Ktest.World.{World, without_fault}
use lab.Mm.Touches.{get_touches}
use lab.Panic.{BugBehavior, bug_panic, bug_log, bug_set_behavior}
use lab.Pgtable.{is_aligned}
use lab.Prelude.{ℕ, Bool, true, false, not, Option, none, some, [], ◌∷◌, ◌==◌, leb}

-- `ret == 0` and `ret == -1`.
abbrev pub succeeded : Status → Bool
succeeded success = true
succeeded failure = false

-- `alloc_get_page` and `alloc_free_page` on the kernel's allocator.
abbrev pub get_page : World → ℕ × World
get_page w = let (page_addr, heap) = alloc_get_page w.heap in (page_addr, record w { heap = heap })

abbrev pub free_page : ℕ → World → Status × World
free_page page_addr w =
    let (ret, heap) = alloc_free_page page_addr w.heap in (ret, record w { heap = heap })

-- A test on the world, where there is one left.
abbrev pub on_world :
    (Test → World → Test × Option World) → Test × Option World → Test × Option World
on_world run (test, none) = (test, none)
on_world run (test, some w) = run test w

abbrev pub map_world : (World → World) → Option World → Option World
map_world f none = none
map_world f (some w) = some (f w)

-- `bug_set_behavior` on the kernel's variable.
abbrev pub set_behavior : BugBehavior → World → World
set_behavior behavior w = record w { bug_behavior = bug_set_behavior behavior w.bug_behavior }

-- From the call of `alloc_init` on.
unfoldable pub after_init : Test → World → Test × Option World
after_init test w = elim (alloc_init w.kmap.kernel_end w.heap) [
  | none ↦ (test, none)
  | some (_, heap) ↦
      let (page_addr, w1) = get_page (record w { heap = heap }) in
      let test1 = ktest_assert 313 (not (page_addr == 0)) test in
      let (ret, w2) = free_page page_addr w1 in
      (ktest_assert 316 (succeeded ret) test1, some (set_behavior bug_panic w2))
]

unfoldable pub alloc_tests_fail_without_init : Test → World → Test × Option World
alloc_tests_fail_without_init test w =
    let (page_addr, w1) = get_page (set_behavior bug_log w) in
    let test1 = ktest_assert 302 (page_addr == 0) test in
    let (ret, w2) = free_page page_addr w1 in
    let test2 = ktest_assert 305 (not (succeeded ret)) test1 in
    after_init test2 (set_behavior bug_log (set_behavior bug_panic w2))

-- The checks of the page that was allocated.
unfoldable pub check_page : ℕ → Test → World → Test × Option World
check_page page_addr test w =
    let test1 = ktest_assert 334 (not (page_addr == 0)) test in
    let test2 = ktest_assert 337 (is_aligned page_addr) test1 in
    let test3 = ktest_assert 341 (leb w.kmap.kernel_end page_addr) test2 in
    let (ret, w') = free_page page_addr w in (ktest_assert 344 (succeeded ret) test3, some w')

-- `label` is the address of the label in `KTEST_EXPECT_NO_FAULT`.
unfoldable pub alloc_tests_sanity_checks : ℕ → Test → World → Test × Option World
unfolding check_page
alloc_tests_sanity_checks label test w = elim (alloc_init w.kmap.kernel_end w.heap) [
  | none ↦ (test, none)
  | some (_, heap) ↦
      elim (without_fault 329 label (λ w1. get_touches w1.heap) get_page 0 test
        (record w { heap = heap })) [
          | none ↦ (test, none)
          | some (test', page_addr, w') ↦ check_page page_addr test' w'
        ]
]

abbrev pub alloc_tests_init : ℕ → LinkerSymbols → World → World
alloc_tests_init trap_entry symbols w = record w {
  trap_csrs = trap_enable trap_entry w.trap_csrs;
  kmap = mm_init_kmap symbols;
}

abbrev pub alloc_tests_exit : World → World
alloc_tests_exit w = record w { trap_csrs = trap_disable w.trap_csrs }

abbrev pub alloc_tests : ℕ → LinkerSymbols → ℕ → KtestSuite (Option World)
alloc_tests trap_entry symbols label = record {
  init = some (map_world (alloc_tests_init trap_entry symbols));
  exit = some (map_world alloc_tests_exit);
  test_init = none;
  test_exit = none;
  tests = on_world alloc_tests_fail_without_init ∷ on_world (alloc_tests_sanity_checks label) ∷ [];
}
