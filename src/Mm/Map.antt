-- ===== src/Mm/Map.antt =====
-- `vm_map_page`: it inserts one page into the mapping, or returns -1 and maps nothing.
use lab.Alloc.{Heap, Status, success, failure}
use lab.Bits.{bit_and_shifted, bit_and_low}
use lab.Mm.{walk_levels, vm_map_page, mask_63_38}
use lab.Mm.SetLeaf.{MapsWith, MapSpec, Refused, set_leaf_lem, page_mapping}
use lab.Mm.Tree.{top}
use lab.Mm.Ensure.{IsVmTo, IsVm, Supplied}
use lab.Mm.Walk.{walk_levels_lem}
use lab.Pgtable.{is_aligned}
use lab.Pgtable.Laws.{is_aligned_iff, IsCanonical}
use lab.Prelude.{
  ℕ, ◌-◌, ◌*◌, ◌/◌, ◌%◌, ◌^◌, ◌≤◌, ◌<◌, ◌≡◌, refl, ◌↔◌, inl, inr, true, false, not, ◌&&◌, none,
  List, [], length, ◌==◌, arith, Bool-cases, bit_and,
}

top_bits_lem : (va : ℕ) → bit_and va mask_63_38 ≡ va / 2 ^ 38 % 2 ^ 26 * 2 ^ 38
top_bits_lem va = omega (arith, bit_and_shifted 38 va (2 ^ 26 - 1), bit_and_low 26 (va / 2 ^ 38))

-- The test of the bits 63 to 38 passes exactly on canonical addresses.
top_bits_iff :
    (va : ℕ)
    → va < 2 ^ 64
    → ((not (bit_and va mask_63_38 == 0) && not (bit_and va mask_63_38 == mask_63_38)) ≡ false)
      ↔ IsCanonical va
top_bits_iff va fits = ground (arith, top_bits_lem va)

module _ (end : ℕ) (reserved : List ℕ) where
  module _ (root va pa perm : ℕ) (h : Heap) (free : List ℕ)
      (is : IsVmTo end reserved root h free) where
    -- A call that returns -1 at once.
    refused : Refused root va pa h free → MapsWith end reserved root va pa perm h free (failure, h)
    refused why = (free, is, λ i2 i1 i0 x y z. refl, why, omega arith)

    unaligned_va :
        is_aligned va ≡ false
        → MapsWith end reserved root va pa perm h free (vm_map_page root va pa perm h)
    unfolding vm_map_page
    unaligned_va bad = rw bad (refused (inl (ground (arith, is_aligned_iff va))))

    unaligned_pa :
        is_aligned va ≡ true
        → is_aligned pa ≡ false
        → MapsWith end reserved root va pa perm h free (vm_map_page root va pa perm h)
    unfolding vm_map_page
    unaligned_pa good bad = rw (good, bad) (refused (inr (inl (ground (arith, is_aligned_iff pa)))))

    module _ (room : Supplied end 2 free) (fits : va < 2 ^ 64) (small : perm < 2 ^ 10)
        (va_al : is_aligned va ≡ true) (pa_al : is_aligned pa ≡ true) where
      aligned_args : MapsWith end reserved root va pa perm h free (vm_map_page root va pa perm h)
      unfolding vm_map_page
      aligned_args =
          elim (Bool-cases
            (not (bit_and va mask_63_38 == 0) && not (bit_and va mask_63_38 == mask_63_38))) [
              | inl bad ↦
                  rw (va_al, pa_al, bad)
                    (refused (inr (inr (inl (λ c. cc (bad, (top_bits_iff va fits).1 c))))))
              | inr good ↦
                  rw (va_al, pa_al, good)
                    (set_leaf_lem end reserved root va pa perm h free is small
                      ((is_aligned_iff va).0 va_al) ((is_aligned_iff pa).0 pa_al)
                      ((top_bits_iff va fits).0 good) (walk_levels va 2 root h)
                      (walk_levels_lem end reserved root va 2 root top h free (omega arith) tt is
                        room refl))
            ]

  -- As `vm_map_page_lem`, with the reserved pages kept.
  pub vm_map_page-reserved :
      (root va pa perm : ℕ) (h : Heap) (free : List ℕ)
      → IsVmTo end reserved root h free
      → Supplied end 2 free
      → va < 2 ^ 64
      → perm < 2 ^ 10
      → MapsWith end reserved root va pa perm h free (vm_map_page root va pa perm h)
  vm_map_page-reserved root va pa perm h free is room fits small =
      elim (Bool-cases (is_aligned va)) [
        | inr bad ↦ unaligned_va root va pa perm h free is bad
        | inl va_al ↦ elim (Bool-cases (is_aligned pa)) [
          | inr bad ↦ unaligned_pa root va pa perm h free is va_al bad
          | inl pa_al ↦ aligned_args root va pa perm h free is room fits small va_al pa_al
        ]
      ]

-- `vm_map_page` on an intact tree and allocator, with a virtual address of 64 bits and permissions
-- below bit 10, keeps both intact. On success the arguments were aligned and the address
-- canonical, the page was not mapped before and is now mapped by the entry for `pa` and `perm`,
-- every other page is mapped as before, and at most two free pages were used. On failure every
-- page is mapped as before, and the reason is one of these: an argument that is not aligned, an
-- address that is not canonical, a page that is mapped already, or fewer than two free pages. The
-- free pages never become more.
pub vm_map_page_lem :
    (root va pa perm : ℕ) (h : Heap) (free : List ℕ)
    → IsVm root h free
    → va < 2 ^ 64
    → perm < 2 ^ 10
    → MapSpec root va pa perm h free (vm_map_page root va pa perm h)
vm_map_page_lem root va pa perm h free is fits small =
    vm_map_page-reserved 0 [] root va pa perm h free is (inl refl) fits small

-- With two pages left in front of the list, wherever it goes on behind them, `vm_map_page` succeeds
-- exactly for aligned arguments, a canonical address and a page that is not mapped yet.
pub vm_map_page-success_to :
    (end : ℕ) (reserved : List ℕ) (root va pa perm : ℕ) (h : Heap) (free : List ℕ)
    → IsVmTo end reserved root h free
    → va < 2 ^ 64
    → perm < 2 ^ 10
    → 2 ≤ length free
    → ((vm_map_page root va pa perm h).0 ≡ success)
      ↔ ((va % 4096 ≡ 0) × (pa % 4096 ≡ 0) × IsCanonical va × (page_mapping h.mem root va ≡ none))
vm_map_page-success_to end reserved root va pa perm h free is fits small room =
    from_spec (vm_map_page root va pa perm h)
      (vm_map_page-reserved end reserved root va pa perm h free is (inr room) fits small)
  where
    from_spec :
        (r : Status × Heap)
        → MapsWith end reserved root va pa perm h free r
        → (r.0 ≡ success) ↔ (
            (va % 4096 ≡ 0)
            × (pa % 4096 ≡ 0)
            × IsCanonical va
            × (page_mapping h.mem root va ≡ none))
    from_spec (success, h') spec = (λ _. (spec.6, spec.7, spec.8, spec.2), λ _. refl)
    from_spec (failure, h') (_, _, _, why, _) = (
      λ e. cc,
      λ (va_al, pa_al, canonical, unused). elim why [
        | inl bad ↦ absurd (bad va_al)
        | inr (inl bad) ↦ absurd (bad pa_al)
        | inr (inr (inl bad)) ↦ absurd (bad canonical)
        | inr (inr (inr (inl bad))) ↦ absurd (bad unused)
        | inr (inr (inr (inr few))) ↦ absurd (omega arith)
      ],
    )

-- With two free pages left, on an intact tree and allocator, `vm_map_page` succeeds exactly for
-- aligned arguments, a canonical address and a page that is not mapped yet.
pub vm_map_page-success_iff :
    (root va pa perm : ℕ) (h : Heap) (free : List ℕ)
    → IsVm root h free
    → va < 2 ^ 64
    → perm < 2 ^ 10
    → 2 ≤ length free
    → ((vm_map_page root va pa perm h).0 ≡ success)
      ↔ ((va % 4096 ≡ 0) × (pa % 4096 ≡ 0) × IsCanonical va × (page_mapping h.mem root va ≡ none))
vm_map_page-success_iff root va pa perm h free is fits small room =
    vm_map_page-success_to 0 [] root va pa perm h free is fits small room
