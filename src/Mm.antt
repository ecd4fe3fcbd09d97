-- ===== src/Mm.antt =====
-- `vm_map_page` of src/mm.c, over the memory and the allocator's variables. The root of the page
-- tables, the global `kernel_root_ptb`, is an argument.
pub mod Entry
pub mod Access
pub mod Tree
pub mod Install
pub mod Leaf
pub mod SetLeaf
pub mod Translate
pub mod Frame
pub mod Touches
pub mod Outcome
pub mod Present
pub mod Marks
pub mod Empty
pub mod Ensure
pub mod Walk
pub mod Map
use lab.Alloc.{Heap, Status, success, failure, alloc_zero_page}
use lab.Memory.{load64, store64}
use lab.Pgtable.{
  is_aligned, va_get_index, ptb_get_ptep, pte_valid, pte_leaf, pte_next_ptb, pte_from_ppn,
  phys_to_ppn,
}
use lab.Prelude.{
  ℕ, zero, suc, ◌-◌, ◌^◌, Bool, true, false, not, ◌&&◌, ◌||◌, Option, none, some, bit_and, bit_or,
  ◌==◌, if◌then◌else◌,
}

-- `pte_from_ppn(phys_to_ppn(pa)) | PTE_VALID`, the entry that points at the next table.
unfoldable pub next_entry : ℕ → ℕ
next_entry pa = bit_or (pte_from_ppn (phys_to_ppn pa)) 1

-- `pte_from_ppn(phys_to_ppn(pa)) | perm | PTE_VALID`, the entry that maps a page.
unfoldable pub leaf_entry : ℕ → ℕ → ℕ
leaf_entry pa perm = bit_or (bit_or (pte_from_ppn (phys_to_ppn pa)) perm) 1

-- `if (!pte_valid(*ptep)) …`: a table is allocated and linked where there is none. The test is
-- false where the allocation failed.
unfoldable pub ensure_table : ℕ → Heap → Bool × Heap
ensure_table ptep h =
    if pte_valid (load64 h.mem ptep)
    then (true, h)
    else let (new_ptb_pa, h') = alloc_zero_page h in
      if new_ptb_pa == 0
      then (false, h')
      else (true, record h' { mem = store64 h'.mem ptep (next_entry new_ptb_pa) })

-- The loop over the levels above 0. The result is the table of level 0, or `none` for a return
-- of -1.
unfoldable pub walk_levels : ℕ → ℕ → ℕ → Heap → Option ℕ × Heap
walk_levels va zero ptb h = (some ptb, h)
walk_levels va (suc level) ptb h =
    let ptep = ptb_get_ptep ptb (va_get_index va (suc level)) in
    let (linked, h') = ensure_table ptep h in
    if not linked || pte_leaf (load64 h'.mem ptep)
    then (none, h')
    else walk_levels va level (pte_next_ptb (load64 h'.mem ptep)) h'

-- What follows the loop: the entry at level 0.
unfoldable pub set_leaf : ℕ → ℕ → ℕ → Option ℕ × Heap → Status × Heap
set_leaf va pa perm (none, h) = (failure, h)
set_leaf va pa perm (some ptb, h) =
    let ptep0 = ptb_get_ptep ptb (va_get_index va 0) in
    if pte_valid (load64 h.mem ptep0)
    then (failure, h)
    else (success, record h { mem = store64 h.mem ptep0 (leaf_entry pa perm) })

-- `~((1UL << 38) - 1)`.
abbrev pub mask_63_38 : ℕ
mask_63_38 = 2 ^ 64 - 2 ^ 38

unfoldable pub vm_map_page : ℕ → ℕ → ℕ → ℕ → Heap → Status × Heap
vm_map_page kernel_root_ptb va pa perm h =
    let top_bits = bit_and va mask_63_38 in
    if not (is_aligned va) || not (is_aligned pa)
    then (failure, h)
    else if not (top_bits == 0) && not (top_bits == mask_63_38)
    then (failure, h)
    else set_leaf va pa perm (walk_levels va 2 kernel_root_ptb h)
