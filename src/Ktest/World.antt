-- ===== src/Ktest/World.antt =====
-- The state that the allocator and mapping tests of src/ktest/kmain.c work on, and
-- `KTEST_EXPECT_NO_FAULT` around code that changes it. With paging on, the allocator and
-- `vm_map_page` work on a page only if the tables map it to itself for reading and writing; what
-- they leave where they trap half-way is not modelled, and there is then no result.
use lab.Alloc.{Heap}
use lab.Kernel.{MemoryMap}
use lab.Ktest.{Test, Traps, completes, expect_no_fault, attempt, from_label, after_no_fault}
use lab.Ktest.Switch.{TrapCsrs}
use lab.Mm.Access.{load, store, permits}
use lab.Mm.SetLeaf.{page_mapping}
use lab.Panic.{BugBehavior}
use lab.Pgtable.{pte_next_ptb}
use lab.Prelude.{
  ℕ, ◌*◌, ◌%◌, ◌^◌, ◌≡◌, refl, Bool, true, false, ◌&&◌, ◌||◌, ◌==◌, Option, none, some, List, [],
  ◌∷◌,
}

pub record World : Type 0 where
  pub heap : Heap
  pub kmap : MemoryMap
  pub kernel_root_ptb : ℕ
  pub satp : ℕ
  pub bug_behavior : BugBehavior
  pub current_level : ℕ
  pub trap_csrs : TrapCsrs
  pub traps : Traps

-- The variables of the trap handler behind code that does not fault.
abbrev pub settled : ℕ → Traps → Traps
settled label s = record s { ktest_fault_expected = false; ktest_fault_return_addr = label }

-- The root of the tables by satp.
unfoldable pub root_of : ℕ → ℕ
root_of satp = satp % 2 ^ 44 * 4096

-- The entry for a page maps it to itself, for loads and stores.
abbrev pub own_page : ℕ → Option ℕ → Bool
own_page x none = false
own_page x (some pte) = permits load pte && permits store pte && pte_next_ptb pte == x

-- The kernel reads and writes the page at its physical address; 0 in satp turns paging off. The
-- tables are those before the code, which only adds to them.
unfoldable pub reaches : World → ℕ → Bool
unfolding root_of
reaches w x = w.satp == 0 || own_page x (page_mapping w.heap.mem (root_of w.satp) x)

abbrev pub reached : World → List ℕ → Bool
reached w [] = true
reached w (x ∷ xs) = reaches w x && reached w xs

module _ {R : Type 0} where
  -- `KTEST_EXPECT_NO_FAULT(test, { r = f(); })`; `touches` are the pages that
  -- the code works on. `none` is a panic, or a trap half-way.
  unfoldable pub without_fault :
      ℕ → ℕ → (World → List ℕ) → (World → R × World) → R → Test → World → Option (Test × R × World)
  unfolding reaches
  without_fault line label touches f r test w = elim (reached w (touches w)) [
    | false ↦ none
    | true ↦
        elim (expect_no_fault line label (λ (p : R × World). completes (f p.1)) w.traps test
          (r, w)) [
            | none ↦ none
            | some (traps, test', (r', w')) ↦ some (test', r', record w' { traps = traps })
          ]
  ]

  pub without_fault_lem :
      (line label : ℕ) (touches : World → List ℕ) (f : World → R × World) (r : R) (test : Test)
      (w : World)
      → w.traps.ktest_fault_occurred ≡ false
      → reached w (touches w) ≡ true
      → without_fault line label touches f r test w
        ≡ some (
          record test { failure_line = line },
          (f w).0,
          record (f w).1 { traps = settled label w.traps },
        )
  unfolding without_fault expect_no_fault attempt from_label after_no_fault
  without_fault_lem line label touches f r test w quiet there =
      simp (quiet, there, without_fault, expect_no_fault, attempt) refl
