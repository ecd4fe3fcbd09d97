-- ===== src/Ktest/MapPaging.antt =====
-- The suite `vm_map_tests` as a whole.
use lab.Alloc.{physstop}
use lab.Kernel.{MemoryMap}
use lab.Kernel.MapAll.{kernel_table}
use lab.Kernel.Space.{HasTable}
use lab.Ktest.{Result, ktest_success}
use lab.Ktest.Denied.{beyond-perm}
use lab.Ktest.World.{World}
use lab.Mm.Ensure.{IsVmTo}
use lab.Mm.SetLeaf.{page_mapping}
use lab.Panic.{bug_log}
use lab.Pgtable.Laws.{IsCanonical}
use lab.Prelude.{ℕ, ◌%◌, ◌≤◌, ◌≡◌, refl, Option, none, some, List, [], ◌∷◌, length, arith, ◌∙◌}

-- The sections end within the memory.
pub record InMemory (kmap : MemoryMap) : Type 0 where
  pub text : kmap.text_end ≤ physstop
  pub rodata : kmap.rodata_end ≤ physstop
  pub section_data : kmap.data_end ≤ physstop
  pub bss : kmap.bss_end ≤ physstop

module _ (kmap : MemoryMap) (inside : InMemory kmap) (w : World)
    (had : HasTable w.kernel_root_ptb w.heap (kernel_table kmap)) where
  pub unmapped :
      (x : ℕ)
      → IsCanonical x
      → x % 4096 ≡ 0
      → physstop ≤ x
      → page_mapping w.heap.mem w.kernel_root_ptb x ≡ none
  unmapped x c al far =
      had x c al
      ∙ rw (beyond-perm kmap x inside.text inside.rodata inside.section_data inside.bss far) refl

pub first_of : (xs : List ℕ) → 1 ≤ length xs → (p : ℕ) × (ys : List ℕ) × (xs ≡ p ∷ ys)
first_of [] le = absurd (omega arith)
first_of (p ∷ ys) le = (p, ys, refl)

-- How the tests end: without a failure, with allocator and page tables intact.
pub record SuiteEnds (tail : ℕ) (reserved : List ℕ) (root : ℕ) (r : Result × Option World)
    : Type 0 where
  pub left : World
  pub free : List ℕ
  pub returns : r ≡ (ktest_success, some left)
  pub intact : IsVmTo tail reserved root left.heap free
  pub behavior : left.bug_behavior ≡ bug_log
