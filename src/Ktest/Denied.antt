-- ===== src/Ktest/Denied.antt =====
-- The permissions of the pages that `vm_map_tests_kernel` accesses.
use lab.Alloc.{physstop}
use lab.Kernel.{MemoryMap, uart}
use lab.Kernel.MapAll.{IsLayout, kernel_table}
use lab.Kernel.Space.{first_page, end_page, end_page-bounds, within}
use lab.Pgtable.{pte_readable, pte_writable, pte_executable, phys_to_ppn, ppn_up, ◌<<<◌}
use lab.Prelude.{ℕ, ◌+◌, ◌%◌, ◌^◌, ◌≤◌, ◌<◌, ◌≡◌, refl, true, false, none, some, arith}

-- The sections in the order of the linker script, each at a page's start and not empty, and none of
-- them in the first page.
pub record InOrder (kmap : MemoryMap) : Type 0 where
  pub text_first : 4096 ≤ kmap.text_start
  pub text_aligned : kmap.text_start % 4096 ≡ 0
  pub text_bounds : kmap.text_start < kmap.text_end
  pub bss_behind : end_page kmap.text_end ≤ kmap.bss_start
  pub bss_aligned : kmap.bss_start % 4096 ≡ 0
  pub bss_bounds : kmap.bss_start < kmap.bss_end
  pub rodata_behind : end_page kmap.bss_end ≤ kmap.rodata_start
  pub rodata_aligned : kmap.rodata_start % 4096 ≡ 0
  pub rodata_bounds : kmap.rodata_start < kmap.rodata_end
  pub data_behind : end_page kmap.rodata_end ≤ kmap.data_start
  pub data_aligned : kmap.data_start % 4096 ≡ 0
  pub data_bounds : kmap.data_start < kmap.data_end
  pub kernel_behind : kmap.data_end ≤ kmap.kernel_end

-- A section's first page lies in its range, and a page below a range does not.
within-start :
    (start end : ℕ)
    → start % 4096 ≡ 0
    → start < end
    → end ≤ 2 ^ 38
    → within (first_page start) (end_page end) start ≡ true
unfolding ppn_up lab.Pgtable.ppn_down
within-start start end al lt le = ground arith

within-below : (p limit x : ℕ) → x < p → within p limit x ≡ false
within-below p limit x lt = ground arith

within-above : (p limit x : ℕ) → limit ≤ x → within p limit x ≡ false
within-above p limit x le = ground arith

within-inside : (p limit x : ℕ) → p ≤ x → x < limit → within p limit x ≡ true
within-inside p limit x lo hi = ground arith

end_page-below :
    (end last x : ℕ) → end ≤ last → last ≤ 2 ^ 38 → end_page last ≤ x → end_page end ≤ x
unfolding ppn_up
end_page-below end last x le small lo = omega arith

first_page-aligned : (start : ℕ) → start % 4096 ≡ 0 → start < 2 ^ 38 → first_page start ≡ start
unfolding lab.Pgtable.ppn_down
first_page-aligned start al lt = omega arith

-- The permissions of the first pages.
module _ (kmap : MemoryMap) (order : InOrder kmap) (layout : IsLayout kmap) where
  -- A range that ends before a page, and one that starts behind it.
  before : (start end x : ℕ) → end_page end ≤ x → within (first_page start) (end_page end) x ≡ false
  before start end x le = within-above (first_page start) (end_page end) x le

  behind :
      (start end x : ℕ)
      → start % 4096 ≡ 0
      → start < 2 ^ 38
      → x < start
      → within (first_page start) (end_page end) x ≡ false
  behind start end x al small lt =
      let e = first_page-aligned start al small in
      within-below (first_page start) (end_page end) x (rw e lt)

  pub text-perm : kernel_table kmap kmap.text_start ≡ some 10
  unfolding kernel_table
  text-perm =
      rw
        (within-start kmap.text_start kmap.text_end order.text_aligned order.text_bounds
          layout.text)
        refl

  pub bss-perm : kernel_table kmap kmap.bss_start ≡ some 6
  unfolding kernel_table
  bss-perm =
      let x = kmap.bss_start in
      let o = order in
      let b = end_page-bounds kmap.bss_end layout.bss in
      let r = end_page-bounds kmap.rodata_end layout.rodata in
      rw
        (
          before kmap.text_start kmap.text_end x o.bss_behind,
          behind kmap.rodata_start kmap.rodata_end x o.rodata_aligned
              (omega (arith, o.rodata_bounds, layout.rodata))
              (omega (arith, b.1, o.bss_bounds, o.rodata_behind)),
          behind kmap.data_start kmap.data_end x o.data_aligned
              (omega (arith, o.data_bounds, layout.section_data))
              (omega
                (arith, b.1, r.1, o.bss_bounds, o.rodata_behind, o.rodata_bounds, o.data_behind)),
          within-start kmap.bss_start kmap.bss_end o.bss_aligned o.bss_bounds layout.bss,
        )
        refl

  pub rodata-perm : kernel_table kmap kmap.rodata_start ≡ some 2
  unfolding kernel_table
  rodata-perm =
      let x = kmap.rodata_start in
      let o = order in
      let b = end_page-bounds kmap.bss_end layout.bss in
      rw
        (
          before kmap.text_start kmap.text_end x
              (omega (arith, o.bss_behind, o.bss_bounds, b.1, o.rodata_behind)),
          within-start kmap.rodata_start kmap.rodata_end o.rodata_aligned o.rodata_bounds
              layout.rodata,
        )
        refl

  pub data-perm : kernel_table kmap kmap.data_start ≡ some 6
  unfolding kernel_table
  data-perm =
      let x = kmap.data_start in
      let o = order in
      let b = end_page-bounds kmap.bss_end layout.bss in
      let r = end_page-bounds kmap.rodata_end layout.rodata in
      rw
        (
          before kmap.text_start kmap.text_end x (
              omega (
                arith, o.bss_behind, o.bss_bounds, b.1, o.rodata_behind, o.rodata_bounds, r.1,
                o.data_behind,
              )),
          before kmap.rodata_start kmap.rodata_end x o.data_behind,
          within-start kmap.data_start kmap.data_end o.data_aligned o.data_bounds
              layout.section_data,
        )
        refl

  pub null-perm : kernel_table kmap 0 ≡ some 0
  unfolding kernel_table
  null-perm =
      let o = order in
      let t = end_page-bounds kmap.text_end layout.text in
      let b = end_page-bounds kmap.bss_end layout.bss in
      let r = end_page-bounds kmap.rodata_end layout.rodata in
      let d = end_page-bounds kmap.kernel_end layout.kernel in
      let past : 0 < kmap.bss_start = omega (arith, t.1, o.text_bounds, o.bss_behind) in
      let past2 : 0 < kmap.rodata_start = omega (arith, b.1, o.bss_bounds, o.rodata_behind) in
      let past3 : 0 < kmap.data_start = omega (arith, r.1, o.rodata_bounds, o.data_behind) in
      rw
        (
          behind kmap.text_start kmap.text_end 0 o.text_aligned
              (omega (arith, o.text_bounds, layout.text)) (omega (arith, o.text_first)),
          behind kmap.rodata_start kmap.rodata_end 0 o.rodata_aligned
              (omega (arith, o.rodata_bounds, layout.rodata)) past2,
          behind kmap.data_start kmap.data_end 0 o.data_aligned
              (omega (arith, o.data_bounds, layout.section_data)) past3,
          behind kmap.bss_start kmap.bss_end 0 o.bss_aligned
              (omega (arith, o.bss_bounds, layout.bss)) past,
          within-below (end_page kmap.kernel_end) physstop 0
              (omega (arith, d.1, o.kernel_behind, o.data_bounds)),
        )
        refl

-- Above the memory nothing is mapped.
pub beyond-perm :
    (kmap : MemoryMap) (x : ℕ)
    → kmap.text_end ≤ physstop
    → kmap.rodata_end ≤ physstop
    → kmap.data_end ≤ physstop
    → kmap.bss_end ≤ physstop
    → physstop ≤ x
    → kernel_table kmap x ≡ none
unfolding kernel_table
beyond-perm kmap x text rodata section_data bss far =
    let above = λ (end : ℕ) (le : end ≤ physstop).
      let b = end_page-bounds end (omega arith) in
      let y : end_page end ≤ x = omega (arith, b) in y in
    rw
      (
        within-above (first_page kmap.text_start) (end_page kmap.text_end) x
            (above kmap.text_end text),
        within-above (first_page kmap.rodata_start) (end_page kmap.rodata_end) x
            (above kmap.rodata_end rodata),
        within-above (first_page kmap.data_start) (end_page kmap.data_end) x
            (above kmap.data_end section_data),
        within-above (first_page kmap.bss_start) (end_page kmap.bss_end) x (above kmap.bss_end bss),
        within-above (end_page kmap.kernel_end) physstop x far,
        within-above uart (uart + 4096) x (omega arith),
        within-above 0 (0 + 4096) x (omega arith),
      )
      refl

-- The memory above the kernel is read and written, where no section reaches above the kernel's end.
pub memory-perm :
    (kmap : MemoryMap) (x : ℕ)
    → kmap.text_end ≤ kmap.kernel_end
    → kmap.rodata_end ≤ kmap.kernel_end
    → kmap.data_end ≤ kmap.kernel_end
    → kmap.bss_end ≤ kmap.kernel_end
    → kmap.kernel_end ≤ 2 ^ 38
    → end_page kmap.kernel_end ≤ x
    → x < physstop
    → kernel_table kmap x ≡ some 6
unfolding kernel_table
memory-perm kmap x text rodata section_data bss small lo hi =
    let above = λ (end : ℕ) (le : end ≤ kmap.kernel_end).
      let y : end_page end ≤ x = end_page-below end kmap.kernel_end x le small lo in y in
    rw
      (
        within-above (first_page kmap.text_start) (end_page kmap.text_end) x
            (above kmap.text_end text),
        within-above (first_page kmap.rodata_start) (end_page kmap.rodata_end) x
            (above kmap.rodata_end rodata),
        within-above (first_page kmap.data_start) (end_page kmap.data_end) x
            (above kmap.data_end section_data),
        within-above (first_page kmap.bss_start) (end_page kmap.bss_end) x (above kmap.bss_end bss),
        within-inside (end_page kmap.kernel_end) physstop x lo hi,
      )
      refl
