-- ===== src/Ktest/KernelSuite.antt =====
-- `vm_map_tests_kernel` on the address space that `vm_init` builds: its accesses one by one.
use lab.Alloc.{Heap}
use lab.Bits.{bit_or_split}
use lab.Kernel.{satp_value}
use lab.Kernel.Space.{HasTable, Table}
use lab.Ktest.{
  Test, Traps, Access, faults, expect_fault, attempt, from_label, handle_trap, after_fault,
}
use lab.Ktest.KernelTest.{AccessKind, Probe, expect_faults}
use lab.Ktest.World.{World}
use lab.Mm.{leaf_entry}
use lab.Mm.Access.{forbids}
use lab.Mm.SetLeaf.{page_mapping}
use lab.Pgtable.{phys_to_ppn}
use lab.Pgtable.Laws.{IsCanonical}
use lab.Prelude.{
  ℕ, true, eq→==, ◌+◌, ◌*◌, ◌/◌, ◌%◌, ◌^◌, ◌<◌, ◌≡◌, refl, ◌≢◌, false, Option, some, List, [], ◌∷◌,
  arith, ◌∙◌, bit_or,
}

-- Paging is on, whatever the root table.
pub satp_value-fields :
    (root : ℕ) → root < 2 ^ 56 → satp_value root ≡ 2 ^ 63 + bit_or 0 (root / 4096)
unfolding satp_value phys_to_ppn
satp_value-fields root small =
    let z : 0 * 2 ^ 60 + root / 4096 ≡ root / 4096 = omega arith in
    rw z at (bit_or_split 60 8 0 0 (root / 4096) (omega arith) (omega arith))

pub satp_value-nonzero : (root : ℕ) → root < 2 ^ 56 → satp_value root ≢ 0
satp_value-nonzero root small = omega (arith, satp_value-fields root small)

-- The entry of a page that the table maps.
module _ (root : ℕ) (h : Heap) (table : Table) (had : HasTable root h table) (x perm : ℕ)
    (canonical : IsCanonical x) (al : x % 4096 ≡ 0) (small : x < 2 ^ 56)
    (there : table x ≡ some perm) (low : perm < 2 ^ 10) where
  pub mapped_entry : page_mapping h.mem root x ≡ some (leaf_entry x perm)
  mapped_entry = had x canonical al ∙ rw there refl

-- An access in supervisor mode is a page fault, once paging is on, where the tables lead to an entry
-- of level 0 that forbids it whatever SUM and MXR are.
abbrev pub Denies : (AccessKind → ℕ → World → Access World) → Type 0
Denies access =
    (kind : AccessKind) (va : ℕ) (w : World) (pte : ℕ)
    → w.satp ≡ satp_value w.kernel_root_ptb
    → IsCanonical va
    → page_mapping w.heap.mem w.kernel_root_ptb va ≡ some pte
    → forbids kind pte ≡ true
    → access kind va w ≡ faults w

module _ (access : AccessKind → ℕ → World → Access World) (label : ℕ → ℕ) where
  -- Where every access faults, no expectation fails.
  abbrev pub Faults : World → List Probe → Type 0
  Faults w [] = Unit {0}
  Faults w (p ∷ ps) =
      ((t : Traps)
        → access p.kind p.address (record w { traps = t }) ≡ faults (record w { traps = t }))
      × Faults w ps

  abbrev pub Passed : Test → World → Test × Option World → Type 0
  Passed test w r =
      (test' : Test) × (t : Traps) × (r ≡ (test', some (record w { traps = t })))
      × (test'.result ≡ test.result)
      × (t.ktest_fault_occurred ≡ false)

  expect_fault_step :
      (p : Probe) (test : Test) (w : World)
      → access p.kind p.address w ≡ faults w
      → expect_fault p.line (label p.line) (access p.kind p.address) w.traps test w
        ≡ some (
          record w.traps {
            ktest_fault_occurred = false;
            ktest_fault_expected = false;
            ktest_fault_return_addr = label p.line;
            sepc = label p.line;
          },
          record test { failure_line = p.line },
          w,
        )
  unfolding expect_fault attempt from_label handle_trap after_fault
  expect_fault_step p test w f =
      rw (f, expect_fault, attempt, from_label, eq→== (label p.line) (label p.line) refl) refl

  pub expect_faults_lem :
      (ps : List Probe) (test : Test) (w : World) (t : Traps)
      → Faults w ps
      → t.ktest_fault_occurred ≡ false
      → Passed test w (expect_faults access label ps test (record w { traps = t }))
  unfolding expect_faults
  expect_faults_lem [] test w t f quiet = (test, t, refl, refl, quiet)
  expect_faults_lem (p ∷ ps) test w t f quiet =
      rw (expect_fault_step p test (record w { traps = t }) (f.0 t), expect_faults)
        (expect_faults_lem ps (record test { failure_line = p.line }) w
          (record t {
            ktest_fault_occurred = false;
            ktest_fault_expected = false;
            ktest_fault_return_addr = label p.line;
            sepc = label p.line;
          })
          f.1 refl)
