-- ===== src/Ktest/KernelTest.antt =====
-- The test of src/ktest/kmain.c that enables paging and tries accesses that the kernel's mappings
-- forbid. What an access does is the machine's: a parameter.
use lab.Kernel.{LinkerSymbols, MemoryMap, Kernel, Run, running, panicked, out_of_fuel, vm_init}
use lab.Ktest.{Test, Access, ktest_assert, expect_fault}
use lab.Ktest.World.{World}
pub use lab.Mm.Access.{AccessKind, load, store, fetch}
use lab.Printf.{log_debug, printk_set_level}
use lab.Prelude.{ℕ, not, Option, none, some, List, [], ◌∷◌, ◌==◌}

-- `vm_init` on the kernel's globals; `none` where it panics. Its loops have fuel enough (Kernel/Ends).
abbrev pub with_kernel : World → Run → Option World
with_kernel w (running k) =
    some (record w {
      heap = k.heap;
      kmap = k.kmap;
      kernel_root_ptb = k.kernel_root_ptb;
      satp = k.satp;
    })
with_kernel w panicked = none
with_kernel w out_of_fuel = none

abbrev pub globals : World → Kernel
globals w = record {
  heap = w.heap;
  kmap = w.kmap;
  kernel_root_ptb = w.kernel_root_ptb;
  satp = w.satp;
}

-- `printk_set_level(LOG_DEBUG)`.
abbrev pub verbose : World → World
verbose w = record w { current_level = printk_set_level log_debug w.current_level }

-- An access in `KTEST_EXPECT_FAULT`, with the line of the macro.
pub record Probe : Type 0 where
  pub line : ℕ
  pub kind : AccessKind
  pub address : ℕ

-- `*ptr = 0` and `val = *ptr` at NULL, then for .text a write, for .bss a call, for .rodata both,
-- and for .data a call.
abbrev pub probes : MemoryMap → List Probe
probes kmap =
    record { line = 397; kind = store; address = 0 }
    ∷ record { line = 401; kind = load; address = 0 }
    ∷ record { line = 409; kind = store; address = kmap.text_start }
    ∷ record { line = 413; kind = fetch; address = kmap.bss_start }
    ∷ record { line = 418; kind = store; address = kmap.rodata_start }
    ∷ record { line = 419; kind = fetch; address = kmap.rodata_start }
    ∷ record { line = 423; kind = fetch; address = kmap.data_start }
    ∷ []

-- `label` gives the address of the label that `KTEST_GENLABEL` makes of a line.
module _ (access : AccessKind → ℕ → World → Access World) (label : ℕ → ℕ) where
  unfoldable pub expect_faults : List Probe → Test → World → Test × Option World
  expect_faults [] test w = (test, some w)
  expect_faults (p ∷ ps) test w =
      elim (expect_fault p.line (label p.line) (access p.kind p.address) w.traps test w) [
        | none ↦ (test, none)
        | some (traps, test', w') ↦ expect_faults ps test' (record w' { traps = traps })
      ]

  unfoldable pub vm_map_tests_kernel : LinkerSymbols → Test → World → Test × Option World
  unfolding expect_faults
  vm_map_tests_kernel symbols test w =
      elim (with_kernel (verbose w) (vm_init symbols (globals w))) [
        | none ↦ (test, none)
        | some w1 ↦
            let test1 = ktest_assert 389 (not (w1.satp == 0)) test in
            let test2 = ktest_assert 393 (not w1.traps.ktest_fault_occurred) test1 in
            expect_faults (probes w1.kmap) test2 w1
      ]
