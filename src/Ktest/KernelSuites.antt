-- ===== src/Ktest/KernelSuites.antt =====
-- The array of suites in `kmain` of src/ktest/kmain.c, and what each suite does when the boot
-- arguments choose it alone.
use lab.Alloc.{Heap, physstop}
use lab.Alloc.Again.{IsLinked}
use lab.Kernel.{LinkerSymbols, mm_init_kmap, panicked, vm_init}
use lab.Ktest.{Access, Result, ktest_success, KtestSuite, ktest_suite_run}
use lab.Ktest.AllocTests.{alloc_tests}
use lab.Ktest.BasicTest.{Machine}
use lab.Ktest.KernelTest.{AccessKind, globals}
use lab.Ktest.MapTests.{vm_map_tests_init}
use lab.Ktest.MapCases.{vm_map_tests}
use lab.Ktest.Names.{SuiteName, page_unit, virt_addr_unit, ppn_unit, pte_unit, allocation, mapping}
use lab.Ktest.Switch.{trap_enable, trap_disable}
use lab.Ktest.UnitTests.{page_unit_tests, virt_addr_unit_tests, ppn_unit_tests, pte_unit_tests}
use lab.Ktest.World.{World, settled}
use lab.Panic.{bug_panic}
use lab.Prelude.{ℕ, ◌+◌, ◌-◌, ◌^◌, ◌≤◌, ◌<◌, ◌≡◌, false, Option, none, some, List, [], ◌∷◌}
use lab.Str.Text.{Text}

-- The reports and the world of a run that goes on. A run that leaves no world has ended in the middle
-- of a test, and nothing behind that test runs: `panic` of src/panic.c never returns.
abbrev pub ended : Option (List (ℕ × Result) × Option World) → Option (List (ℕ × Result) × World)
ended none = none
ended (some (reports, none)) = none
ended (some (reports, some w)) = some (reports, w)

-- `label` gives the address of the label of a line.
module _ (access : AccessKind → ℕ → World → Access World) (machine : Machine) (label : ℕ → ℕ)
    (val trap_entry : ℕ) (symbols : LinkerSymbols) where
  abbrev pub kernel_suites : SuiteName → KtestSuite (Option World)
  kernel_suites page_unit = page_unit_tests
  kernel_suites virt_addr_unit = virt_addr_unit_tests
  kernel_suites ppn_unit = ppn_unit_tests
  kernel_suites pte_unit = pte_unit_tests
  kernel_suites allocation = alloc_tests trap_entry symbols (label 329)
  kernel_suites mapping = vm_map_tests access machine label val trap_entry symbols

  -- The results of the suites and what they leave, by the suite that is chosen and its name.
  abbrev pub Outcome : SuiteName → ℕ → World → Option (List (ℕ × Result) × Option World) → Type 0
  Outcome page_unit name w r = r ≡ some ((name, ktest_success) ∷ [], some w)
  Outcome virt_addr_unit name w r = r ≡ some ((name, ktest_success) ∷ [], some w)
  Outcome ppn_unit name w r = r ≡ some ((name, ktest_success) ∷ [], some w)
  Outcome pte_unit name w r = r ≡ some ((name, ktest_success) ∷ [], some w)
  Outcome allocation name w r =
      (h : Heap) × IsLinked symbols.end (physstop - 4096) h
      × (r
          ≡ some (
            (name, ktest_success) ∷ [],
            some (record w {
              heap = h;
              kmap = mm_init_kmap symbols;
              bug_behavior = bug_panic;
              trap_csrs = trap_disable (trap_enable trap_entry w.trap_csrs);
              traps = settled (label 329) w.traps;
            }),
          ))
  Outcome mapping name w r =
      (vm_init symbols (globals (vm_map_tests_init trap_entry w)) ≡ panicked) × (ended r ≡ none)

  module _ (w : World) (off : w.heap.is_initialized ≡ false)
      (quiet : w.traps.ktest_fault_occurred ≡ false) (unpaged : w.satp ≡ 0)
      (small : w.heap.freelist_head < 2 ^ 64) (pos : 0 < symbols.end)
      (fits : symbols.end + 4096 ≤ physstop) where
    abbrev run_of : SuiteName → Result × Option World
    run_of k = ktest_suite_run (kernel_suites k) (some w)
