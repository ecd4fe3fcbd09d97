-- ===== src/Ktest/BasicSteps.antt =====
-- The loops of `vm_map_tests_basic` over a page that is mapped, on a machine that translates
-- addresses as Sv39 does.
use lab.Alloc.{Heap}
use lab.Kernel.{satp_value}
use lab.Ktest.{Test, Traps, Access, completes, expect_no_fault, attempt, from_label, after_no_fault}
use lab.Ktest.BasicTest.{Machine, test_va}
use lab.Ktest.World.{World, settled}
use lab.Memory.{Mem, store8}
use lab.Mm.Access.{load, store, permits}
use lab.Mm.Marks.{
  accessed, accessed_dirty, Holds-accessed, Holds-accessed_dirty, IsMapped, Accessed,
  marked-Accessed, marked-bytes, stored-Accessed, Accessed-trans,
}
use lab.Mm.SetLeaf.{low_path, page_mapping, with_entry}
use lab.Mm.Translate.{same_page}
use lab.Mm.Tree.{table_at}
use lab.Pgtable.{pte_next_ptb}
use lab.Pgtable.Laws.{IsCanonical}
use lab.Mm.SetLeaf.{with_entry-index}
use lab.Alloc.Chain.{IsPage}
use lab.Prelude.{ℕ, ◌+◌, ◌%◌, ◌^◌, ◌<◌, ◌≡◌, refl, inl, true, false, some, List, bit_or, arith}

-- An access in supervisor mode through an entry that permits it whatever SUM and MXR are completes,
-- and reaches the page of the entry, which is main memory. The hardware sets A in the entry, and D
-- on a write (the privileged architecture, section on Sv39, for hardware that updates these bits).
pub record IsSv39 (machine : Machine) : Type 0 where
  pub stores :
      (root va v table pte : ℕ) (m : Mem)
      → root % 4096 ≡ 0
      → root < 2 ^ 56
      → IsCanonical va
      → table_at m root (low_path va) ≡ some table
      → page_mapping m root va ≡ some pte
      → permits store pte ≡ true
      → machine.store_byte (satp_value root) m va v
        ≡ some (
            store8
              (with_entry va (bit_or pte accessed_dirty) table m)
              (pte_next_ptb pte + va % 4096)
              v)
  pub loads :
      (root va table pte : ℕ) (m : Mem)
      → root % 4096 ≡ 0
      → root < 2 ^ 56
      → IsCanonical va
      → table_at m root (low_path va) ≡ some table
      → page_mapping m root va ≡ some pte
      → permits load pte ≡ true
      → machine.load_byte (satp_value root) m va
        ≡ some (
          with_entry va (bit_or pte accessed) table m (pte_next_ptb pte + va % 4096),
          with_entry va (bit_or pte accessed) table m,
        )

pub expect_no_fault-completes :
    {A : Type 0} (line label : ℕ) (expr : A → Access A) (s : Traps) (test : Test) (a a' : A)
    → s.ktest_fault_occurred ≡ false
    → expr a ≡ completes a'
    → expect_no_fault line label expr s test a
      ≡ some (settled label s, record test { failure_line = line }, a')
unfolding expect_no_fault attempt from_label after_no_fault
expect_no_fault-completes line label expr s test a a' quiet ends =
    simp (ends, quiet, from_label, attempt, expect_no_fault) refl

-- The bytes before index `i` of the page are written.
abbrev pub Filled : ℕ → ℕ → Mem → Type 0
Filled p i m = (j : ℕ) → j < i → m (p + j) ≡ 0xab

module _ (machine : Machine) (sv39 : IsSv39 machine) (label : ℕ → ℕ) (w : World) (end : ℕ)
    (reserved : List ℕ) (root p : ℕ) (free : List ℕ) (paging : w.satp ≡ satp_value root)
    (root_page : IsPage root) (aligned : p % 4096 ≡ 0) where
  -- The world with other memory and other variables of the trap handler.
  abbrev pub world : Mem → Traps → World
  world m s = record w { heap = record w.heap { mem = m }; traps = s }

  abbrev pub Mapped : Mem → Type 0
  Mapped m = IsMapped end reserved root test_va p free (record w.heap { mem = m })

  abbrev pub AccessedTo : Mem → Mem → Type 0
  AccessedTo m n = Accessed end reserved root test_va p free (record w.heap { mem = m }) n

  module _ (m : Mem) (is : Mapped m) (i : ℕ) (lt : i < 4096) where
    abbrev pub dirty : Mem
    dirty = with_entry test_va (bit_or is.pte accessed_dirty) is.table m

    abbrev pub read : Mem
    read = with_entry test_va (bit_or is.pte accessed) is.table m

    pub store-translated :
        machine.store_byte w.satp m (test_va + i) 0xab ≡ some (store8 dirty (p + i) 0xab)
    store-translated =
        let va = test_va + i in
        let ix = same_page test_va va (omega arith) in
        let at_page : pte_next_ptb is.pte + va % 4096 ≡ p + i = omega (arith, is.holds.next) in
        let stored =
          sv39.stores root va 0xab is.table is.pte m root_page.1 root_page.2 (inl (omega arith))
            (rw (ix.0, ix.1) is.low) (rw (ix.0, ix.1, ix.2) is.there) is.holds.stores in
        rw paging (
          rw (with_entry-index test_va va (bit_or is.pte accessed_dirty) is.table m ix.2, at_page)
            at stored)

    pub load-translated : machine.load_byte w.satp m (test_va + i) ≡ some (read (p + i), read)
    load-translated =
        let va = test_va + i in
        let ix = same_page test_va va (omega arith) in
        let at_page : pte_next_ptb is.pte + va % 4096 ≡ p + i = omega (arith, is.holds.next) in
        let loaded =
          sv39.loads root va is.table is.pte m root_page.1 root_page.2 (inl (omega arith))
            (rw (ix.0, ix.1) is.low) (rw (ix.0, ix.1, ix.2) is.there) is.holds.loads in
        rw paging (
          rw (with_entry-index test_va va (bit_or is.pte accessed) is.table m ix.2, at_page) at
            loaded)

    pub store-Accessed : AccessedTo m (store8 dirty (p + i) 0xab)
    store-Accessed =
        let h : Heap = record w.heap { mem = m } in
        let marked =
          marked-Accessed end reserved root test_va p free h is (bit_or is.pte accessed_dirty)
            (Holds-accessed_dirty p is.pte is.holds) in
        Accessed-trans end reserved root test_va p free h dirty (store8 dirty (p + i) 0xab) marked (
          stored-Accessed end reserved root test_va p free (record h { mem = dirty }) marked.mapped
            i 0xab lt aligned)

    pub load-Accessed : AccessedTo m read
    load-Accessed =
        marked-Accessed end reserved root test_va p free (record w.heap { mem = m }) is
          (bit_or is.pte accessed) (Holds-accessed p is.pte is.holds)

    pub store-Filled : Filled p i m → Filled p (i + 1) (store8 dirty (p + i) 0xab)
    unfolding store8
    store-Filled filled j below =
        let kept =
          marked-bytes end reserved root test_va p free (record w.heap { mem = m }) is
            (bit_or is.pte accessed_dirty) (Holds-accessed_dirty p is.pte is.holds) j aligned
            (omega arith) in
        ground (arith, kept, filled j)

    pub read-byte : (j : ℕ) → j < 4096 → read (p + j) ≡ m (p + j)
    read-byte j below =
        marked-bytes end reserved root test_va p free (record w.heap { mem = m }) is
          (bit_or is.pte accessed) (Holds-accessed p is.pte is.holds) j aligned below
