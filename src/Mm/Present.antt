-- ===== src/Mm/Present.antt =====
-- `vm_map_page` where the table of level 0 is there already: no page is taken for tables.
use lab.Alloc.{Heap, Status, success, failure}
use lab.Memory.{Mem}
use lab.Mm.{ensure_table, walk_levels, set_leaf, vm_map_page, leaf_entry, mask_63_38}
use lab.Mm.Ensure.{IsVmTo}
use lab.Mm.Entry.{leaf_entry-lt}
use lab.Mm.SetLeaf.{MapsWith, low_path, page_mapping, with_entry, IsVm-with_entry}
use lab.Mm.Tree.{entry, child, leaf_at, table_at}
use lab.Pgtable.{va_get_index, ptb_get_ptep, is_aligned, pte_valid, pte_leaf, pte_next_ptb}
use lab.Pgtable.Laws.{IsCanonical, va_get_index-lt}
use lab.Prelude.{
  ℕ, suc, ◌%◌, ◌^◌, ◌≤◌, ◌<◌, ◌≡◌, refl, inl, inr, true, false, not, ◌&&◌, ◌||◌, ◌==◌, some, List,
  length, bit_and, arith, ◌∙◌, Option-cases, Bool-cases,
}

-- The table of level 0 for an address.
abbrev pub HasLow : ℕ → Mem → ℕ → Type 0
HasLow root m va = (t : ℕ) × (table_at m root (low_path va) ≡ some t)

-- What is mapped has one.
pub low_table : (m : Mem) (root va e : ℕ) → page_mapping m root va ≡ some e → HasLow root m va
low_table m root va e there = elim (Option-cases (table_at m root (low_path va))) [
  | inl nowhere ↦ absurd (cc (rw nowhere at there))
  | inr found ↦ found
]

pub child-some :
    (m : Mem) (t i a : ℕ)
    → child m t i ≡ some a
    → (pte_valid (entry m t i) ≡ true)
      × (pte_leaf (entry m t i) ≡ false)
      × (pte_next_ptb (entry m t i) ≡ a)
unfolding child
child-some m t i a e = ground arith

-- One round of the loop.
walk_levels-linked :
    (va level t a : ℕ) (h : Heap)
    → child h.mem t (va_get_index va (suc level)) ≡ some a
    → walk_levels va (suc level) t h ≡ walk_levels va level a h
unfolding walk_levels ensure_table ptb_get_ptep
walk_levels-linked va level t a h e =
    let i : ℕ = va_get_index va (suc level) in
    let c = child-some h.mem t i a e in rw (c.0, c.1, c.2) refl

walk_levels-present :
    (root va t : ℕ) (h : Heap)
    → table_at h.mem root (low_path va) ≡ some t
    → walk_levels va 2 root h ≡ (some t, h)
unfolding walk_levels
walk_levels-present root va t h low = elim (Option-cases (child h.mem root (va_get_index va 2))) [
  | inl nowhere ↦ absurd (cc (rw nowhere at low))
  | inr (b, e) ↦ walk_levels-linked va 1 root b h e ∙ walk_levels-linked va 0 b t h (rw e at low)
]

set_leaf-taken_entry :
    (root va pa perm t e : ℕ) (h : Heap)
    → table_at h.mem root (low_path va) ≡ some t
    → page_mapping h.mem root va ≡ some e
    → set_leaf va pa perm (some t, h) ≡ (failure, h)
unfolding set_leaf ptb_get_ptep leaf_at
set_leaf-taken_entry root va pa perm t e h low there =
    elim (Bool-cases (pte_valid (entry h.mem t (va_get_index va 0)))) [
      | inl taken ↦ rw taken refl
      | inr open_slot ↦ cc (rw (low, open_slot) at there)
    ]

-- A page that is mapped is refused, and nothing changes.
pub vm_map_page-taken :
    (root va pa perm e : ℕ) (h : Heap)
    → page_mapping h.mem root va ≡ some e
    → vm_map_page root va pa perm h ≡ (failure, h)
unfolding vm_map_page
vm_map_page-taken root va pa perm e h there =
    let top_bits = bit_and va mask_63_38 in
    let low = low_table h.mem root va e there in
    elim (Bool-cases (not (is_aligned va) || not (is_aligned pa))) [
      | inl unaligned ↦ rw unaligned refl
      | inr aligned ↦ elim (Bool-cases (not (top_bits == 0) && not (top_bits == mask_63_38))) [
        | inl bad ↦ rw (aligned, bad) refl
        | inr good ↦
            rw (aligned, good, walk_levels-present root va low.0 h low.1)
              (set_leaf-taken_entry root va pa perm low.0 e h low.1 there)
      ]
    ]

module _ (end : ℕ) (reserved : List ℕ) (root va pa perm : ℕ) (h : Heap) (free : List ℕ)
    (is : IsVmTo end reserved root h free) (small : perm < 2 ^ 10)
    (there : HasLow root h.mem va) where
  set_leaf-present : IsVmTo end reserved root (set_leaf va pa perm (some there.0, h)).1 free
  unfolding set_leaf ptb_get_ptep with_entry
  set_leaf-present = elim (Bool-cases (pte_valid (entry h.mem there.0 (va_get_index va 0)))) [
    | inl taken ↦ rw taken is
    | inr open_slot ↦ rw open_slot (
        IsVm-with_entry end reserved root va (leaf_entry pa perm) there.0 h free is there.1
          (leaf_entry-lt pa perm small))
  ]

  -- The free pages are as before, whatever the result.
  pub vm_map_page-present : IsVmTo end reserved root (vm_map_page root va pa perm h).1 free
  unfolding vm_map_page
  vm_map_page-present =
      let top_bits = bit_and va mask_63_38 in
      elim (Bool-cases (not (is_aligned va) || not (is_aligned pa))) [
        | inl unaligned ↦ rw unaligned is
        | inr aligned ↦ elim (Bool-cases (not (top_bits == 0) && not (top_bits == mask_63_38))) [
          | inl bad ↦ rw (aligned, bad) is
          | inr good ↦
              rw (aligned, good, walk_levels-present root va there.0 h there.1) set_leaf-present
        ]
      ]

-- After a call for an aligned page at a canonical address, with two pages left, it is mapped.
pub MapsWith-there :
    (end : ℕ) (reserved : List ℕ) (root va pa perm : ℕ) (h : Heap) (free : List ℕ)
    (r : Status × Heap)
    → MapsWith end reserved root va pa perm h free r
    → va % 4096 ≡ 0
    → pa % 4096 ≡ 0
    → IsCanonical va
    → 2 ≤ length free
    → (e : ℕ) × (page_mapping r.1.mem root va ≡ some e)
MapsWith-there end reserved root va pa perm h free (success, h') spec al al' canonical room =
    (leaf_entry pa perm, spec.3)
MapsWith-there end reserved root va pa perm h free (failure, h') (_, _, same, why, _) al al'
      canonical room =
    elim why [
      | inl bad ↦ absurd (bad al)
      | inr (inl bad) ↦ absurd (bad al')
      | inr (inr (inl bad)) ↦ absurd (bad canonical)
      | inr (inr (inr (inl taken))) ↦ elim (Option-cases (page_mapping h.mem root va)) [
        | inl unused ↦ absurd (taken unused)
        | inr (e, old) ↦ (
          e,
          same (va_get_index va 2) (va_get_index va 1) (va_get_index va 0) (va_get_index-lt va 2)
                (va_get_index-lt va 1) (va_get_index-lt va 0)
              ∙ old,
        )
      ]
      | inr (inr (inr (inr few))) ↦ absurd (omega arith)
    ]
