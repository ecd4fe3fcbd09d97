-- ===== src/Ktest/MapCases.antt =====
-- The suite `vm_map_tests` of src/ktest/kmain.c.
use lab.Kernel.{LinkerSymbols}
use lab.Ktest.{Test, Access, KtestSuite}
use lab.Ktest.AllocTests.{on_world, map_world}
use lab.Ktest.BasicTest.{Machine, vm_map_tests_basic}
use lab.Ktest.KernelTest.{AccessKind, vm_map_tests_kernel}
use lab.Ktest.MapTests.{vm_map_tests_init, vm_map_tests_exit}
use lab.Ktest.RefusalSuite.{refusal_tests}
use lab.Ktest.World.{World}
use lab.Prelude.{ℕ, Option, none, some, List, ◌∷◌}

-- `access` and `machine` are what the machine does for the accesses of the tests, `label` gives the
-- address of the label of a line, and `val` is what the variable of `vm_map_tests_basic` holds
-- before it is set.
module _ (access : AccessKind → ℕ → World → Access World) (machine : Machine) (label : ℕ → ℕ)
    (val : ℕ) where
  abbrev pub vm_map_test_cases : LinkerSymbols → List (Test × Option World → Test × Option World)
  vm_map_test_cases symbols =
      on_world (vm_map_tests_kernel access label symbols)
      ∷ on_world (vm_map_tests_basic machine label val)
      ∷ refusal_tests label

  abbrev pub vm_map_tests : ℕ → LinkerSymbols → KtestSuite (Option World)
  vm_map_tests trap_entry symbols = record {
    init = some (map_world (vm_map_tests_init trap_entry));
    exit = some (map_world vm_map_tests_exit);
    test_init = none;
    test_exit = none;
    tests = vm_map_test_cases symbols;
  }
