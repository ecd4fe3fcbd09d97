-- ===== src/Ktest/MapAlone.antt =====
-- The suite `vm_map_tests` on a kernel whose allocator no other suite has initialised.
use lab.Kernel.{LinkerSymbols, panicked, vm_init, mm_init}
use lab.Kernel.Boot.{kmain_panics}
use lab.Ktest.{Access, run_cases, run_case, ktest_suite_run}
use lab.Ktest.BasicTest.{Machine}
use lab.Ktest.KernelTest.{AccessKind, globals, vm_map_tests_kernel}
use lab.Ktest.MapCases.{vm_map_tests}
use lab.Ktest.MapTests.{vm_map_tests_init}
use lab.Ktest.World.{World}
use lab.Prelude.{ℕ, ◌≡◌, refl, false, none, some}

-- On a kernel whose allocator is not initialised `vm_init`, which the first test of the suite
-- `vm_map_tests` calls, panics, and no world is left.
pub vm_map_tests-uninitialised :
    (access : AccessKind → ℕ → World → Access World) (machine : Machine) (label : ℕ → ℕ)
    (val trap_entry : ℕ) (symbols : LinkerSymbols) (w : World)
    → w.heap.is_initialized ≡ false
    → (vm_init symbols (globals (vm_map_tests_init trap_entry w)) ≡ panicked)
      × ((ktest_suite_run (vm_map_tests access machine label val trap_entry symbols) (some w)).1
          ≡ none)
unfolding ktest_suite_run run_cases run_case vm_map_tests_kernel lab.Kernel.kmain
vm_map_tests-uninitialised access machine label val trap_entry symbols w off =
    let panics = kmain_panics symbols (globals (vm_map_tests_init trap_entry w)) off in
    (panics, rw (panics, vm_map_tests_kernel) refl)
