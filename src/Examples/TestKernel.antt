-- ===== src/Examples/TestKernel.antt =====
-- The test kernel on concrete memory: its start, the choice of the suites, and the suite of the
-- allocator.
use lab.Alloc.{Heap, success, physstop, alloc_init, alloc_get_page}
use lab.Alloc.Again.{IsLinked, gets, alloc_init-again, alloc_init-IsLinked}
use lab.Dtb.{dtb_structs, dtb_strings, be_to_le, load32, header_get, node_at}
use lab.Dtb.Slots.{filled}
use lab.Dtb.Tree.{TreeAt, find_node, compared}
use lab.Examples.Blob.{blob, tree, tree_TreeAt, slots_SlotsAt}
use lab.Examples.Harness.{reset}
use lab.Examples.Paging.{cold}
use lab.Examples.Strings.{is_text-Text, byte_at-bytes, byte_at-behind}
use lab.Examples.Text.{byte_at}
use lab.Kernel.{LinkerSymbols, MemoryMap, mm_init_kmap}
use lab.Ktest.{ktest_success, KtestSuite, ktest_suite_run}
use lab.Ktest.AllocSuite.{alloc_tests_lem}
use lab.Ktest.AllocTests.{alloc_tests}
use lab.Ktest.Main.{test_kmain}
use lab.Ktest.Names.{
  SuiteName, page_unit, virt_addr_unit, ppn_unit, pte_unit, allocation, mapping, text_of, ktest_run,
  suites, test_kmain-one,
}
use lab.Ktest.Startup.{Constants, find_value, value_or, test_startup, test_startup_lem}
use lab.Ktest.Switch.{trap_enable, trap_disable}
use lab.Ktest.World.{World, settled}
use lab.Panic.{bug_panic}
use lab.Prelude.{
  ℕ, ◌+◌, ◌-◌, ◌/◌, ◌≡◌, refl, ◌≢◌, false, some, none, List, [], ◌∷◌, ◌++◌, length, arith, inl,
}
use lab.Printf.{log_info}
use lab.Startup.{mmode_startup}
use lab.Str.Copy.{Apart}
use lab.Str.Text.{Text}

-- "r" is taken for "chosen" and "p" for "bootargs".
abbrev constants : Constants
constants = record { chosen = 44; bootargs = 96; empty = 99 }

strings_nonzero : dtb_strings blob 0 ≢ 0
unfolding header_get be_to_le load32
strings_nonzero = omega arith

at_structs : TreeAt blob (dtb_structs blob 0) tree
unfolding header_get be_to_le load32
at_structs = tree_TreeAt

finds_node : find_node blob 44 (dtb_structs blob 0) tree ≡ some (node_at 40 1)
unfolding compared header_get be_to_le load32
finds_node = refl

test_startup_example :
    test_startup 20 blob 0 constants 0x80000400 reset
    ≡ some (
      value_or 99 (find_value blob 0 96 48 (filled 2 (b'p' ∷ []) ∷ [])),
      mmode_startup 0x80000400 reset,
    )
test_startup_example =
    test_startup_lem 20 blob 0 constants 0x80000400 reset tree (node_at 40 1)
      (filled 2 (b'p' ∷ []) ∷ []) strings_nonzero at_structs finds_node slots_SlotsAt (omega arith)
      (omega arith)

-- The value of the property.
bootargs_found : value_or 99 (find_value blob 0 96 48 (filled 2 (b'p' ∷ []) ∷ [])) ≡ 60
unfolding compared header_get be_to_le load32
bootargs_found = refl

-- The strings of the test kernel: "ktest_run=" at 1, the boot arguments "ktest_run=alloc_tests" at
-- 12, and the names.
abbrev pub strings : List ℕ
strings =
    0
    ∷ (ktest_run
        ++ 0
          ∷ (ktest_run
              ++ (text_of allocation
                  ++ 0
                    ∷ (text_of page_unit
                        ++ 0
                          ∷ (text_of virt_addr_unit
                              ++ 0
                                ∷ (text_of ppn_unit
                                    ++ 0
                                      ∷ (text_of pte_unit
                                          ++ 0
                                            ∷ (text_of allocation
                                                ++ 0 ∷ (text_of mapping ++ 0 ∷ [])))))))))

abbrev pub name_at : SuiteName → ℕ
name_at page_unit = 34
name_at virt_addr_unit = 50
name_at ppn_unit = 71
name_at pte_unit = 86
name_at allocation = 101
name_at mapping = 113

pub names_at : (k : SuiteName) → Text (byte_at strings) (name_at k) (text_of k)
names_at page_unit = is_text-Text (byte_at strings) 34 (text_of page_unit) refl
names_at virt_addr_unit = is_text-Text (byte_at strings) 50 (text_of virt_addr_unit) refl
names_at ppn_unit = is_text-Text (byte_at strings) 71 (text_of ppn_unit) refl
names_at pte_unit = is_text-Text (byte_at strings) 86 (text_of pte_unit) refl
names_at allocation = is_text-Text (byte_at strings) 101 (text_of allocation) refl
names_at mapping = is_text-Text (byte_at strings) 113 (text_of mapping) refl

pub names_apart : (k : SuiteName) → Apart (name_at k) (length (text_of k)) 200 64
names_apart page_unit = inl (omega arith)
names_apart virt_addr_unit = inl (omega arith)
names_apart ppn_unit = inl (omega arith)
names_apart pte_unit = inl (omega arith)
names_apart allocation = inl (omega arith)
names_apart mapping = inl (omega arith)

-- Each suite adds 1, and its one case succeeds.
abbrev pub adding : SuiteName → KtestSuite ℕ
adding k = record {
  init = some (λ n. n + 1);
  exit = none;
  test_init = none;
  test_exit = none;
  tests = (λ ran. ran) ∷ [];
}

test_kmain-one_example :
    test_kmain 21 (byte_at strings) 1 12 200 (suites name_at adding) 5
    ≡ some (
      (101, (ktest_suite_run (adding allocation) 5).0) ∷ [],
      (ktest_suite_run (adding allocation) 5).1,
    )
test_kmain-one_example =
    test_kmain-one {A = ℕ} 21 (byte_at strings) 1 12 200 name_at adding 5
      (byte_at-bytes strings refl) (λ x lo hi. byte_at-behind strings x (omega arith))
      (is_text-Text (byte_at strings) 1 ktest_run refl) names_at names_apart (omega arith)
      allocation (is_text-Text (byte_at strings) 12 (ktest_run ++ text_of allocation) refl)
      (inl (omega arith))

-- The linker symbols of a small kernel.
abbrev pub symbols : LinkerSymbols
symbols = record {
  start = 0x80000000;
  end = 0x80010000;
  text_start = 0x80000000;
  text_end = 0x80004000;
  bss_start = 0x80004000;
  bss_end = 0x80008000;
  rodata_start = 0x80008000;
  rodata_end = 0x8000a000;
  data_start = 0x8000a000;
  data_end = 0x80010000;
}

abbrev cold_map : MemoryMap
cold_map = record {
  kernel_start = 0;
  kernel_end = 0;
  kernel_size = 0;
  text_start = 0;
  text_end = 0;
  bss_start = 0;
  bss_end = 0;
  rodata_start = 0;
  rodata_end = 0;
  data_start = 0;
  data_end = 0;
}

abbrev pub booted : World
booted = record {
  heap = cold;
  kmap = cold_map;
  kernel_root_ptb = 0;
  satp = 0;
  bug_behavior = bug_panic;
  current_level = log_info;
  trap_csrs = record { stvec = 0; sie = 0; sstatus = 0 };
  traps = record {
    ktest_fault_occurred = false;
    ktest_fault_expected = false;
    ktest_fault_return_addr = 0;
    sepc = 0;
  };
}

alloc_tests_example :
    (h : Heap) × IsLinked 0x80010000 (physstop - 4096) h
    × (ktest_suite_run (alloc_tests 0x80000200 symbols 0x80000100) (some booted) ≡ (
      ktest_success,
      some (record booted {
        heap = h;
        kmap = mm_init_kmap symbols;
        bug_behavior = bug_panic;
        trap_csrs = trap_disable (trap_enable 0x80000200 booted.trap_csrs);
        traps = settled 0x80000100 booted.traps;
      }),
    ))
alloc_tests_example =
    alloc_tests_lem 0x80000200 symbols 0x80000100 booted refl refl refl (omega arith) (omega arith)
      (omega arith)

-- The allocator after its first initialisation.
abbrev once : Heap
once = (alloc_init-IsLinked 0x80010000 cold (omega arith) (omega arith) (omega arith)).0

alloc_init-again_example :
    (h2 : Heap) × (alloc_init 0x80010000 once ≡ some (success, h2))
    × (gets ((physstop - 0x80010000) / 4096) h2 ≡ h2)
    × ((k : ℕ) → (alloc_get_page (gets k h2)).0 ≢ 0)
alloc_init-again_example =
    alloc_init-again 0x80010000 cold once (omega arith) (omega arith) (omega arith)
      (alloc_init-IsLinked 0x80010000 cold (omega arith) (omega arith) (omega arith)).1
