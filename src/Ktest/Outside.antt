-- ===== src/Ktest/Outside.antt =====
-- The pages outside of the memory above the kernel, and that the kernel reaches all others once
-- `mm_init` has mapped them.
use lab.Alloc.{physstop}
use lab.Alloc.Chain.{IsPage}
use lab.Alloc.Ring.{pages_down, above-pages_down}
use lab.Kernel.{MemoryMap, satp_value}
use lab.Kernel.MapAll.{IsLayout, kernel_table}
use lab.Kernel.Space.{HasTable, end_page, end_page-bounds}
use lab.Ktest.Denied.{InOrder, memory-perm}
use lab.Ktest.KernelSuite.{satp_value-fields}
use lab.Ktest.Reach.{OwnPages, Reaching}
use lab.Ktest.World.{World, root_of}
use lab.Mm.{leaf_entry}
use lab.Mm.Access.{load, store, permits, pte_user, leaf_entry-permits}
use lab.Mm.Entry.{leaf_entry-next}
use lab.Pgtable.{pte_readable, pte_writable}
use lab.Prelude.{
  ℕ, zero, suc, ◌+◌, ◌-◌, ◌*◌, ◌/◌, ◌%◌, ◌^◌, ◌≤◌, ◌<◌, ◌≡◌, refl, inl, inr, List, ◌++◌, ◌∈◌, ◌∉◌,
  true, arith, ◌∙◌, append-not_in, not_in-append, eq_or_ne, ltb, ltb→lt, ltb-false→le, Bool-cases,
}
use Prim.Native.Nat.{bit_or-bitwise}

-- The number of pages from `PHYSTOP` to the end of the physical addresses.
unfoldable pub pages_beyond : ℕ
pages_beyond = (2 ^ 56 - physstop) / 4096

pages_beyond_lem : physstop + 4096 * pages_beyond ≡ 2 ^ 56
unfolding pages_beyond
pages_beyond_lem = refl

unfoldable pub outside : ℕ → List ℕ
outside start = pages_down 0 (start / 4096) ++ pages_down physstop pages_beyond

in-pages_down :
    (cur n x : ℕ)
    → cur % 4096 ≡ 0
    → x % 4096 ≡ 0
    → cur ≤ x
    → x < cur + 4096 * n
    → x ∈ pages_down cur n
in-pages_down cur zero x al al' lo hi = absurd (omega arith)
in-pages_down cur (suc n) x al al' lo hi = elim (eq_or_ne x (cur + 4096 * n)) [
  | inl same ↦ ground (arith, same)
  | inr ne ↦ let rest = in-pages_down cur n x al al' lo (omega arith) in ground (arith, rest)
]

below-pages_down : (cur n x : ℕ) → x < cur → x ∉ pages_down cur n
below-pages_down cur zero x lt = refl
below-pages_down cur (suc n) x lt = let rest = below-pages_down cur n x lt in ground (arith, rest)

pub inside-outside : (start x : ℕ) → start ≤ x → x < physstop → x ∉ outside start
unfolding outside
inside-outside start x lo hi =
    not_in-append x (pages_down 0 (start / 4096)) (pages_down physstop pages_beyond)
      (above-pages_down 0 (start / 4096) x (omega arith))
      (below-pages_down physstop pages_beyond x hi)

outside-inside :
    (start x : ℕ) → start % 4096 ≡ 0 → IsPage x → x ∉ outside start → (start ≤ x) × (x < physstop)
unfolding outside
outside-inside start x al page out =
    let both =
      append-not_in x (pages_down 0 (start / 4096)) (pages_down physstop pages_beyond) out in
    (
      elim (Bool-cases (ltb x start)) [
        | inr not_below ↦ ltb-false→le x start not_below
        | inl below ↦
            let held =
              in-pages_down 0 (start / 4096) x (omega arith) page.1 (omega arith)
                (omega (arith, ltb→lt x start below)) in
            absurd (cc (held, both.0))
      ],
      elim (Bool-cases (ltb x physstop)) [
        | inl inside ↦ ltb→lt x physstop inside
        | inr far ↦
            let held =
              in-pages_down physstop pages_beyond x (omega arith) page.1
                (ltb-false→le x physstop far) (omega (arith, pages_beyond_lem, page.2)) in
            absurd (cc (held, both.1))
      ],
    )

pub root_of-satp_value :
    (root : ℕ) → root % 4096 ≡ 0 → root < 2 ^ 56 → root_of (satp_value root) ≡ root
unfolding root_of
root_of-satp_value root al small =
    omega (arith, satp_value-fields root small, bit_or-bitwise 0 (root / 4096))

read_write :
    (x : ℕ)
    → x < 2 ^ 56
    → (permits load (leaf_entry x 6) ≡ true) × (permits store (leaf_entry x 6) ≡ true)
unfolding permits pte_user pte_readable pte_writable
read_write x small = (
  leaf_entry-permits load x 6 small (omega arith),
  leaf_entry-permits store x 6 small (omega arith),
)

-- On the address space of `mm_init`, with paging on.
module _ (kmap : MemoryMap) (order : InOrder kmap) (layout : IsLayout kmap) (w : World)
    (had : HasTable w.kernel_root_ptb w.heap (kernel_table kmap)) where
  mapped_memory : OwnPages (outside (end_page kmap.kernel_end)) w.kernel_root_ptb w.heap.mem
  mapped_memory x page out =
      let b = end_page-bounds kmap.kernel_end layout.kernel in
      let t = end_page-bounds kmap.text_end layout.text in
      let s = end_page-bounds kmap.bss_end layout.bss in
      let r = end_page-bounds kmap.rodata_end layout.rodata in
      let (lo, hi) = outside-inside (end_page kmap.kernel_end) x b.0 page out in
      let last = order.kernel_behind in
      let rodata_le : kmap.rodata_end ≤ kmap.kernel_end =
        omega (arith, r, order.data_behind, order.data_bounds, last) in
      let bss_le : kmap.bss_end ≤ kmap.kernel_end =
        omega (arith, s, order.rodata_behind, order.rodata_bounds, rodata_le) in
      let text_le : kmap.text_end ≤ kmap.kernel_end =
        omega (arith, t, order.bss_behind, order.bss_bounds, bss_le) in
      let perm = memory-perm kmap x text_le rodata_le last bss_le layout.kernel lo hi in
      let ok = read_write x page.2 in
      (
        omega (arith, hi),
        leaf_entry x 6,
        had x (inl (omega (arith, hi))) page.1 ∙ rw perm refl,
        ok.0,
        ok.1,
        leaf_entry-next x 6 page.1 page.2 (omega arith),
      )

  pub kernel-Reaching :
      w.satp ≡ satp_value w.kernel_root_ptb
      → IsPage w.kernel_root_ptb
      → Reaching (outside (end_page kmap.kernel_end)) w
  kernel-Reaching paging page =
      inr (rw paging (root_of-satp_value w.kernel_root_ptb page.1 page.2), mapped_memory)
