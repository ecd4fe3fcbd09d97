-- ===== src/Examples/Entries.antt =====
-- The helpers of include/arch/pgtable.h at values of the repository's tests.
use lab.Mm.{leaf_entry}
use lab.Mm.Entry.{leaf_entry_fields}
use lab.Pgtable.{
  is_aligned, ppn_down, ppn_up, va_get_index, phys_to_ppn, ppn_to_phys, pte_get_ppn, pte_from_ppn,
  pte_next_ptb, pte_valid, pte_readable, pte_writable, pte_executable, pte_leaf,
}
use lab.Pgtable.Laws.{va_get_index_injective}
use lab.Prelude.{ℕ, ◌≡◌, refl, true, false, arith, inl}

va_get_index_injective_example : ◌≡◌ {A = ℕ} 0x7ffc000 0x7ffc000
va_get_index_injective_example =
    va_get_index_injective 0x7ffc000 0x7ffc000 (inl (omega arith)) (inl (omega arith)) refl refl
      refl refl

leaf_entry_example :
    (pte_valid (leaf_entry 0xabcde000 6) ≡ true)
    × (pte_next_ptb (leaf_entry 0xabcde000 6) ≡ 0xabcde000)
    × (pte_readable (leaf_entry 0xabcde000 6) ≡ pte_readable 6)
    × (pte_writable (leaf_entry 0xabcde000 6) ≡ pte_writable 6)
    × (pte_executable (leaf_entry 0xabcde000 6) ≡ pte_executable 6)
leaf_entry_example = leaf_entry_fields 0xabcde000 6 (omega arith) (omega arith) (omega arith)

-- `test_is_aligned`, `test_ppn_down`, `test_ppn_up`.
page_unit_tests :
    (is_aligned 0xabcab000 ≡ true)
    × (is_aligned 0xabcabcab ≡ false)
    × (ppn_down 0xabcabcab ≡ 0xabcab)
    × (ppn_up 0xabcabcab ≡ 0xabcac)
    × (ppn_up 0xfffff000 ≡ 0xfffff)
unfolding is_aligned ppn_down ppn_up
page_unit_tests = (refl, refl, refl, refl, refl)

-- `test_va_get_index`.
virt_addr_unit_tests :
    (va_get_index 0x7ffc000000 2 ≡ 0x1ff)
    × (va_get_index 0x7ffc000000 1 ≡ 0x1e0)
    × (va_get_index 0x7ffc000000 0 ≡ 0)
    × (va_get_index 0xfffffffffffff000 2 ≡ 0x1ff)
unfolding va_get_index
virt_addr_unit_tests = (refl, refl, refl, refl)

-- `test_phys_to_ppn`, `test_ppn_to_phys`, `test_pte_get_ppn`, `test_pte_from_ppn`.
ppn_unit_tests :
    (phys_to_ppn 0x80000400 ≡ 0x80000)
    × (ppn_to_phys 0x7ffff ≡ 0x7ffff000)
    × (pte_get_ppn 0x2af2ac0b ≡ 0xabcab)
    × (pte_from_ppn 0xabcab ≡ 0x2af2ac00)
unfolding phys_to_ppn ppn_to_phys pte_get_ppn pte_from_ppn
ppn_unit_tests = (refl, refl, refl, refl)

-- `test_pte_valid` to `test_pte_leaf`.
pte_unit_tests :
    (pte_valid 0x402 ≡ false)
    × (pte_readable 0x403 ≡ true)
    × (pte_writable 0x2af2ac0b ≡ false)
    × (pte_executable 0x2af2ac0b ≡ true)
    × (pte_leaf 0x2af2ac01 ≡ false)
    × (pte_leaf 0x20000005 ≡ true)
unfolding pte_valid pte_readable pte_writable pte_executable pte_leaf
pte_unit_tests = (refl, refl, refl, refl, refl, refl)
