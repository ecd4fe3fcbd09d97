-- ===== src/Ktest/BasicTest.antt =====
-- `vm_map_tests_basic` of src/ktest/kmain.c, which maps a page, and writes and reads it through its
-- virtual address. What the machine does for such an access is a parameter; `none` is a page fault.
use lab.Alloc.{Status, success}
use lab.Ktest.{Test, Access, completes, faults, ktest_assert, expect_no_fault}
use lab.Ktest.AllocTests.{get_page, succeeded}
use lab.Ktest.World.{World, reached, without_fault}
use lab.Memory.{Mem}
use lab.Mm.{vm_map_page}
use lab.Mm.Touches.{get_touches, map_touches}
use lab.Pgtable.{pte_bit_read, pte_bit_write, page_size}
use lab.Prelude.{ℕ, zero, suc, ◌+◌, true, false, Option, none, some, List, bit_or, ◌==◌}

-- Accesses of a byte, with the value of satp.
pub record Machine : Type 0 where
  pub store_byte : ℕ → Mem → ℕ → ℕ → Option Mem
  pub load_byte : ℕ → Mem → ℕ → Option (ℕ × Mem)

abbrev pub with_memory : Mem → World → World
with_memory m w = record w { heap = record w.heap { mem = m } }

-- `va`, the page that the test maps.
abbrev pub test_va : ℕ
test_va = 0xabcde000

-- The mapping in `KTEST_EXPECT_NO_FAULT`.
abbrev pub map_page : ℕ → World → Status × World
map_page page_addr w =
    let (ret, heap) =
      vm_map_page w.kernel_root_ptb test_va page_addr (bit_or pte_bit_read pte_bit_write) w.heap in
    (ret, record w { heap = heap })

-- The pages that it works on.
abbrev pub page_touches : ℕ → World → List ℕ
page_touches page_addr w = map_touches w.kernel_root_ptb test_va page_addr w.heap

-- `label` gives the address of the label that `KTEST_GENLABEL` makes of a line.
module _ (machine : Machine) (label : ℕ → ℕ) where
  -- `ptr[i] = v` and `val = ptr[i]` at an address.
  unfoldable pub store_at : ℕ → ℕ → World → Access World
  store_at address v w = elim (machine.store_byte w.satp w.heap.mem address v) [
    | none ↦ faults w
    | some m ↦ completes (with_memory m w)
  ]

  unfoldable pub load_at : ℕ → ℕ × World → Access (ℕ × World)
  load_at address (val, w) = elim (machine.load_byte w.satp w.heap.mem address) [
    | none ↦ faults (val, w)
    | some (v, m) ↦ completes (v, with_memory m w)
  ]

  -- The two loops, from index `i` on and for as many rounds; `none` is a panic.
  unfoldable pub write_page : ℕ → ℕ → Test → World → Option (Test × World)
  unfolding store_at
  write_page zero i test w = some (test, w)
  write_page (suc rounds) i test w =
      elim (expect_no_fault 454 (label 454) (store_at (test_va + i) 0xab) w.traps test w) [
        | none ↦ none
        | some (traps, test', w') ↦ write_page rounds (i + 1) test' (record w' { traps = traps })
      ]

  unfoldable pub read_page : ℕ → ℕ → ℕ → Test → World → Option (Test × World)
  unfolding load_at
  read_page zero i val test w = some (test, w)
  read_page (suc rounds) i val test w =
      elim (expect_no_fault 461 (label 461) (load_at (test_va + i)) w.traps test (val, w)) [
        | none ↦ none
        | some (traps, test', (val', w')) ↦
            read_page rounds (i + 1) val' (ktest_assert 464 (val' == 0xab) test')
              (record w' { traps = traps })
      ]

  -- The test on the page that was allocated; `val` is what the variable holds before it is set.
  unfoldable pub use_page : ℕ → ℕ → Test → World → Test × Option World
  unfolding write_page read_page
  use_page page_addr val test w =
      elim (without_fault 446 (label 446) (page_touches page_addr) (map_page page_addr) success test
        w) [
          | none ↦ (test, none)
          | some (test1, ret, w2) ↦
              let test2 = ktest_assert 449 (succeeded ret) test1 in
              elim (write_page page_size 0 test2 w2) [
                | none ↦ (test2, none)
                | some (test3, w3) ↦ elim (read_page page_size 0 val test3 w3) [
                  | none ↦ (test3, none)
                  | some (test4, w4) ↦ (test4, some w4)
                ]
              ]
        ]

  unfoldable pub vm_map_tests_basic : ℕ → Test → World → Test × Option World
  unfolding use_page
  vm_map_tests_basic val test w = elim (reached w (get_touches w.heap)) [
    | false ↦ (test, none)
    | true ↦ let (page_addr, w1) = get_page w in use_page page_addr val test w1
  ]
