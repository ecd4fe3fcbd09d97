-- ===== src/Mm/Translate.antt =====
-- What the MMU makes of the tables (Sv39, lab/INSTRUCTIONS.md): the translation of an address, and
-- how `vm_map_page` changes it.
use lab.Alloc.{Heap, success}
use lab.Memory.{Mem}
use lab.Mm.{vm_map_page}
use lab.Mm.Access.{AccessKind, permits, leaf_entry-permits}
use lab.Mm.Entry.{leaf_entry-next}
use lab.Mm.Map.{vm_map_page_lem}
use lab.Mm.SetLeaf.{MapSpec, page_mapping}
use lab.Mm.Tree.{and_then}
use lab.Mm.Ensure.{IsVm}
use lab.Pgtable.{va_get_index, pte_next_ptb}
use lab.Pgtable.Laws.{
  IsCanonical, va_get_index-lt, va_get_index_two, va_get_index_one, va_get_index_zero,
}
use lab.Prelude.{
  ℕ, ◌+◌, ◌/◌, ◌%◌, ◌^◌, ◌<◌, ◌≡◌, refl, ◌≢◌, ◌⊎◌, inl, inr, Option, none, some, List,
  if◌then◌else◌, arith, eq_or_ne, eq→==, ne→==, ◌==◌,
}

-- The address in physical memory; `none` is a page fault. No entry above level 0 is a leaf, SUM and
-- MXR of sstatus are clear, and the hardware sets the bits A and D by itself.
pub translate : AccessKind → Mem → ℕ → ℕ → Option ℕ
translate kind m root va =
    and_then (page_mapping m root va)
      (λ pte. if permits kind pte then some (pte_next_ptb pte + va % 4096) else none)

-- Addresses of one page have the same indices.
pub same_page :
    (va wa : ℕ)
    → va / 4096 ≡ wa / 4096
    → (va_get_index wa 2 ≡ va_get_index va 2)
      × (va_get_index wa 1 ≡ va_get_index va 1)
      × (va_get_index wa 0 ≡ va_get_index va 0)
same_page va wa e = omega (
  arith,
  va_get_index_two va,
  va_get_index_one va,
  va_get_index_zero va,
  va_get_index_two wa,
  va_get_index_one wa,
  va_get_index_zero wa,
)

-- Addresses of different pages differ in an index.
pub other_page :
    (va wa : ℕ)
    → IsCanonical va
    → IsCanonical wa
    → va / 4096 ≢ wa / 4096
    → (va_get_index wa 2 ≢ va_get_index va 2)
      ⊎ ((va_get_index wa 1 ≢ va_get_index va 1) ⊎ (va_get_index wa 0 ≢ va_get_index va 0))
other_page va wa c d ne = elim (eq_or_ne (va_get_index wa 2) (va_get_index va 2)) [
  | inr ne2 ↦ inl ne2
  | inl e2 ↦ elim (eq_or_ne (va_get_index wa 1) (va_get_index va 1)) [
    | inr ne1 ↦ inr (inl ne1)
    | inl e1 ↦ inr (
        inr λ e0. omega (
          arith,
          va_get_index_two va,
          va_get_index_one va,
          va_get_index_zero va,
          va_get_index_two wa,
          va_get_index_one wa,
          va_get_index_zero wa,
        ))
  ]
]

module _ (kind : AccessKind) (root va pa perm : ℕ) (h h' : Heap) (free : List ℕ)
    (is : IsVm root h free) (small : perm < 2 ^ 10)
    (spec : MapSpec root va pa perm h free (success, h')) where
  translate-inside :
      (wa : ℕ)
      → pa < 2 ^ 56
      → va / 4096 ≡ wa / 4096
      → translate kind h'.mem root wa ≡ (if permits kind perm then some (pa + wa % 4096) else none)
  unfolding translate
  translate-inside wa fits e =
      let ix = same_page va wa e in
      rw
        (
          ix.0,
          ix.1,
          ix.2,
          spec.3,
          leaf_entry-permits kind pa perm fits small,
          leaf_entry-next pa perm spec.7 fits small,
        )
        refl

  translate-outside :
      (wa : ℕ)
      → IsCanonical wa
      → va / 4096 ≢ wa / 4096
      → translate kind h'.mem root wa ≡ translate kind h.mem root wa
  unfolding translate
  translate-outside wa c ne =
      rw
        (spec.4 (va_get_index wa 2) (va_get_index wa 1) (va_get_index wa 0) (va_get_index-lt wa 2)
          (va_get_index-lt wa 1) (va_get_index-lt wa 0) (other_page va wa spec.8 c ne))
        refl

-- After a successful `vm_map_page` on an intact tree and allocator, with a physical page below
-- 2 ^ 56 and permissions below bit 10, a load, store or fetch in supervisor mode at an address of the
-- page is translated to the same offset in the physical page if the permissions permit it: the bit
-- R, W or X of the access is set, U is not set, and W not without R, which is reserved. Otherwise
-- it is a page fault. Every canonical address of another page is translated as before. SUM and MXR
-- of sstatus are clear, and the hardware sets the bits A and D by itself.
pub translate-vm_map_page :
    (kind : AccessKind) (root va pa perm : ℕ) (h h' : Heap) (free : List ℕ) (wa : ℕ)
    → IsVm root h free
    → va < 2 ^ 64
    → pa < 2 ^ 56
    → perm < 2 ^ 10
    → IsCanonical wa
    → vm_map_page root va pa perm h ≡ (success, h')
    → translate kind h'.mem root wa ≡ (
        if va / 4096 == wa / 4096
        then (if permits kind perm then some (pa + wa % 4096) else none)
        else translate kind h.mem root wa)
translate-vm_map_page kind root va pa perm h h' free wa is fits fits' small c ran =
    let spec : MapSpec root va pa perm h free (success, h') =
      rw ran at (vm_map_page_lem root va pa perm h free is fits small) in
    elim (eq_or_ne (va / 4096) (wa / 4096)) [
      | inl e ↦
          rw (eq→== (va / 4096) (wa / 4096) e)
            (translate-inside kind root va pa perm h h' free is small spec wa fits' e)
      | inr ne ↦
          rw (ne→== (va / 4096) (wa / 4096) ne)
            (translate-outside kind root va pa perm h h' free is small spec wa c ne)
    ]
