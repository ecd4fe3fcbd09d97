-- ===== src/Kernel/MapAll.antt =====
-- The mappings of `mm_init`, one after the other, and the table of permissions that they add up to.
use lab.Alloc.{Heap, physstop}
use lab.Kernel.{MemoryMap, rounds, uart, map_region, map_pages, map_all}
use lab.Kernel.Step.{Stepped, step_lem}
use lab.Kernel.Region.{MapsRange, map_pages_lem}
use lab.Kernel.Supply.{tables, Supplied-less, RangeSupplied-first, Supplied-after_step}
use lab.Kernel.Space.{
  Table, HasTable, HasTable-range, HasTable-single, extend, first_page, end_page, end_page-bounds,
  map_region_lem,
}
use lab.Mm.{vm_map_page}
use lab.Mm.Ensure.{IsVmTo, Supplied}
use lab.Prelude.{
  ℕ, ◌+◌, ◌*◌, ◌^◌, ◌≤◌, ◌<◌, ◌≡◌, refl, ◌⊎◌, inl, inr, Option, none, some, List, length, arith,
  ltb, ltb→lt, ltb-false→le, Bool-cases,
}

-- The sections with their permissions, then the memory above the kernel, the serial device, and
-- the page at 0; where two overlap, the first counts.
unfoldable pub kernel_table : MemoryMap → Table
kernel_table kmap =
    extend
      (extend
        (extend
          (extend
            (extend
              (extend (extend (λ _. none) (first_page kmap.text_start) (end_page kmap.text_end) 10)
                (first_page kmap.rodata_start) (end_page kmap.rodata_end) 2)
              (first_page kmap.data_start) (end_page kmap.data_end) 6)
            (first_page kmap.bss_start) (end_page kmap.bss_end) 6)
          (end_page kmap.kernel_end) physstop 6)
        uart (uart + 4096) 6)
      0 (0 + 4096) 0

-- The sections and the kernel end below 2 ^ 38.
pub record IsLayout (kmap : MemoryMap) : Type 0 where
  pub text : kmap.text_end ≤ 2 ^ 38
  pub rodata : kmap.rodata_end ≤ 2 ^ 38
  pub bss : kmap.bss_end ≤ 2 ^ 38
  pub section_data : kmap.data_end ≤ 2 ^ 38
  pub kernel : kmap.kernel_end ≤ 2 ^ 38

-- The pages that the tables of `mm_init` take at most, and two more: for each range two for every
-- 2 MiB that it touches, and two each for the serial device and the page at 0.
unfoldable pub pages_needed : MemoryMap → ℕ
pages_needed kmap =
    2 * tables (first_page kmap.text_start) (end_page kmap.text_end)
    + 2 * tables (first_page kmap.rodata_start) (end_page kmap.rodata_end)
    + 2 * tables (first_page kmap.data_start) (end_page kmap.data_end)
    + 2 * tables (first_page kmap.bss_start) (end_page kmap.bss_end)
    + 2 * tables (end_page kmap.kernel_end) physstop
    + 6

-- What the mappings of `mm_init` leave: the address space of the table, unless the free pages ran
-- out.
pub record MapsAll (tail : ℕ) (reserved : List ℕ) (kmap : MemoryMap) (root : ℕ) (free : List ℕ)
    (r : Option Heap) : Type 0 where
  pub after : Heap
  pub returns : r ≡ some after
  pub rest : List ℕ
  pub is_vm : IsVmTo tail reserved root after rest
  pub space : (length rest < 2) ⊎ HasTable root after (kernel_table kmap)
  pub spares : pages_needed kmap ≤ length free → length free + 2 ≤ length rest + pages_needed kmap

Supplied-after_range :
    (tail : ℕ) (reserved : List ℕ) (root p limit perm n : ℕ) (h : Heap) (free : List ℕ)
    (r : Option Heap) (m : MapsRange tail reserved root p limit perm h free r)
    → Supplied tail (2 * tables p limit + n + 2) free
    → Supplied tail (n + 2) m.rest
Supplied-after_range tail reserved root p limit perm n h free r m (inl null) = inl null
Supplied-after_range tail reserved root p limit perm n h free r m (inr many) =
    let u = m.used (omega arith) in inr (omega arith)

-- What the ranges behind the first take.
section_pages : MemoryMap → ℕ
section_pages kmap =
    2 * tables (first_page kmap.rodata_start) (end_page kmap.rodata_end)
    + (2 * tables (first_page kmap.data_start) (end_page kmap.data_end)
        + (2 * tables (first_page kmap.bss_start) (end_page kmap.bss_end)
            + (2 * tables (end_page kmap.kernel_end) physstop + 4)))

Supplied-sections :
    (tail : ℕ) (kmap : MemoryMap) (free : List ℕ)
    → Supplied tail (pages_needed kmap) free
    → Supplied tail
        (2 * tables (first_page kmap.text_start) (end_page kmap.text_end) + section_pages kmap + 2)
        free
unfolding pages_needed section_pages
Supplied-sections tail kmap free (inl null) = inl null
Supplied-sections tail kmap free (inr many) = inr (omega arith)

-- The steps of `map_all`, one after the other.
module _ (tail : ℕ) (reserved : List ℕ) (kmap : MemoryMap) (root : ℕ) (h : Heap) (free : List ℕ)
    (empty : HasTable root h (λ _. none)) {r1 r2 r3 r4 r5 : Option Heap} {h6 h7 : Heap}
    (m1 : MapsRange tail reserved root
      (first_page kmap.text_start)
      (end_page kmap.text_end)
      10
      h
      free
      r1)
    (m2 : MapsRange tail reserved root
      (first_page kmap.rodata_start)
      (end_page kmap.rodata_end)
      2
      m1.after
      m1.rest
      r2)
    (m3 : MapsRange tail reserved root
      (first_page kmap.data_start)
      (end_page kmap.data_end)
      6
      m2.after
      m2.rest
      r3)
    (m4 : MapsRange tail reserved root
      (first_page kmap.bss_start)
      (end_page kmap.bss_end)
      6
      m3.after
      m3.rest
      r4)
    (m5 : MapsRange tail reserved root (end_page kmap.kernel_end) physstop 6 m4.after m4.rest r5)
    (s6 : Stepped tail reserved root uart 6 m5.after m5.rest h6)
    (s7 : Stepped tail reserved root 0 0 h6 s6.rest h7) where
  all_steps : 2 ≤ length s7.rest → HasTable root h7 (kernel_table kmap)
  unfolding kernel_table
  all_steps room =
      let t1 =
        HasTable-range tail reserved root _ _ 10 (λ _. none) h free r1 empty m1
          (omega (arith, m2.shrinks, m3.shrinks, m4.shrinks, m5.shrinks, s6.shrinks, s7.shrinks)) in
      let t2 =
        HasTable-range tail reserved root _ _ 2 _ m1.after m1.rest r2 t1 m2
          (omega (arith, m3.shrinks, m4.shrinks, m5.shrinks, s6.shrinks, s7.shrinks)) in
      let t3 =
        HasTable-range tail reserved root _ _ 6 _ m2.after m2.rest r3 t2 m3
          (omega (arith, m4.shrinks, m5.shrinks, s6.shrinks, s7.shrinks)) in
      let t4 =
        HasTable-range tail reserved root _ _ 6 _ m3.after m3.rest r4 t3 m4
          (omega (arith, m5.shrinks, s6.shrinks, s7.shrinks)) in
      let t5 =
        HasTable-range tail reserved root _ _ 6 _ m4.after m4.rest r5 t4 m5
          (omega (arith, s6.shrinks, s7.shrinks)) in
      let t6 =
        HasTable-single tail reserved root uart 6 _ m5.after h6 m5.rest t5 s6
          (omega (arith, s6.shrinks, s7.shrinks)) (omega arith) in
      HasTable-single tail reserved root 0 0 _ h6 h7 s6.rest t6 s7 (omega (arith, s7.shrinks))
        (omega arith)

  enough : pages_needed kmap ≤ length free → length free + 2 ≤ length s7.rest + pages_needed kmap
  unfolding pages_needed
  enough room =
      let u1 = m1.used (omega arith) in
      let u2 = m2.used (omega arith) in
      let u3 = m3.used (omega arith) in
      let u4 = m4.used (omega arith) in
      let u5 = m5.used (omega arith) in omega (arith, s6.used, s7.used)

  space_or_few : (length s7.rest < 2) ⊎ HasTable root h7 (kernel_table kmap)
  space_or_few = elim (Bool-cases (ltb (length s7.rest) 2)) [
    | inl few ↦ inl (ltb→lt (length s7.rest) 2 few)
    | inr room ↦ inr (all_steps (ltb-false→le (length s7.rest) 2 room))
  ]

map_all-returns :
    (kmap : MemoryMap) (root : ℕ) (h h1 h2 h3 h4 h5 : Heap)
    → map_region root kmap.text_start kmap.text_end 10 h ≡ some h1
    → map_region root kmap.rodata_start kmap.rodata_end 2 h1 ≡ some h2
    → map_region root kmap.data_start kmap.data_end 6 h2 ≡ some h3
    → map_region root kmap.bss_start kmap.bss_end 6 h3 ≡ some h4
    → map_pages (rounds physstop) root 6 (end_page kmap.kernel_end) physstop h4 ≡ some h5
    → map_all kmap root h ≡ some (vm_map_page root 0 0 0 (vm_map_page root uart uart 6 h5).1).1
unfolding map_all
map_all-returns kmap root h h1 h2 h3 h4 h5 e1 e2 e3 e4 e5 = rw (e1, e2, e3, e4, e5) refl

pub map_all_lem :
    (tail : ℕ) (reserved : List ℕ) (kmap : MemoryMap) (root : ℕ) (h : Heap) (free : List ℕ)
    → IsVmTo tail reserved root h free
    → Supplied tail (pages_needed kmap) free
    → IsLayout kmap
    → HasTable root h (λ _. none)
    → MapsAll tail reserved kmap root free (map_all kmap root h)
unfolding section_pages
map_all_lem tail reserved kmap root h free is supply layout empty =
    let u1 = Supplied-sections tail kmap free supply in
    let m1 =
      map_region_lem tail reserved root kmap.text_start kmap.text_end 10 h free is
        (RangeSupplied-first tail root (first_page kmap.text_start) (end_page kmap.text_end)
          (section_pages kmap) h free u1)
        layout.text (omega arith) in
    let u2 =
      Supplied-after_range tail reserved root (first_page kmap.text_start) (end_page kmap.text_end)
        10 (section_pages kmap) h free _ m1 u1 in
    let m2 =
      map_region_lem tail reserved root kmap.rodata_start kmap.rodata_end 2 m1.after m1.rest
        m1.is_vm
        (RangeSupplied-first tail root (first_page kmap.rodata_start) (end_page kmap.rodata_end) _
          m1.after m1.rest u2)
        layout.rodata (omega arith) in
    let u3 =
      Supplied-after_range tail reserved root (first_page kmap.rodata_start)
        (end_page kmap.rodata_end) 2 _ m1.after m1.rest _ m2 u2 in
    let m3 =
      map_region_lem tail reserved root kmap.data_start kmap.data_end 6 m2.after m2.rest m2.is_vm
        (RangeSupplied-first tail root (first_page kmap.data_start) (end_page kmap.data_end) _
          m2.after m2.rest u3)
        layout.section_data (omega arith) in
    let u4 =
      Supplied-after_range tail reserved root (first_page kmap.data_start) (end_page kmap.data_end)
        6 _ m2.after m2.rest _ m3 u3 in
    let m4 =
      map_region_lem tail reserved root kmap.bss_start kmap.bss_end 6 m3.after m3.rest m3.is_vm
        (RangeSupplied-first tail root (first_page kmap.bss_start) (end_page kmap.bss_end) _
          m3.after m3.rest u4)
        layout.bss (omega arith) in
    let u5 =
      Supplied-after_range tail reserved root (first_page kmap.bss_start) (end_page kmap.bss_end) 6
        _ m3.after m3.rest _ m4 u4 in
    let b = end_page-bounds kmap.kernel_end layout.kernel in
    let m5 =
      map_pages_lem tail reserved (rounds physstop) root 6 (end_page kmap.kernel_end) physstop
        m4.after m4.rest m4.is_vm
        (RangeSupplied-first tail root (end_page kmap.kernel_end) physstop 4 m4.after m4.rest u5)
        b.0 (omega arith) (omega arith) (omega arith) (omega arith) in
    let u6 : Supplied tail 6 m5.rest =
      Supplied-after_range tail reserved root (end_page kmap.kernel_end) physstop 6 4 m4.after
        m4.rest _ m5 u5 in
    let s6 =
      step_lem tail reserved root uart 6 m5.after m5.rest m5.is_vm (inl (omega arith)) (omega arith)
        (Supplied-less tail 6 2 m5.rest (omega arith) u6) (omega arith) (omega arith) in
    let u7 : Supplied tail 4 s6.rest =
      Supplied-after_step tail reserved root uart 6 4 m5.after _ m5.rest s6 u6 in
    let s7 =
      step_lem tail reserved root 0 0 (vm_map_page root uart uart 6 m5.after).1 s6.rest s6.is_vm
        (inl (omega arith)) (omega arith) (Supplied-less tail 4 2 s6.rest (omega arith) u7)
        (omega arith) (omega arith) in
    record {
      after = (vm_map_page root 0 0 0 (vm_map_page root uart uart 6 m5.after).1).1;
      returns =
          map_all-returns kmap root h m1.after m2.after m3.after m4.after m5.after m1.returns
            m2.returns m3.returns m4.returns m5.returns;
      rest = s7.rest;
      is_vm = s7.is_vm;
      space = space_or_few tail reserved kmap root h free empty m1 m2 m3 m4 m5 s6 s7;
      spares = enough tail reserved kmap root h free empty m1 m2 m3 m4 m5 s6 s7;
    }
