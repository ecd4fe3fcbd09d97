-- ===== src/Ktest/MapSuite.antt =====
-- The steps of the tests of refusals: a page taken, a mapping with its check, and refusals.
use lab.Alloc.{Heap, Status, success, failure, alloc_get_page}
use lab.Alloc.Laws.{get_page_to}
use lab.Ktest.{Test, ktest_assert}
use lab.Ktest.AllocTests.{get_page, free_page}
use lab.Ktest.MapTests.{map_under, touched_by, map_checked, map_twice, Attempt}
use lab.Ktest.World.{World, reached, settled, without_fault_lem}
use lab.Mm.{vm_map_page, mask_63_38}
use lab.Mm.Map.{vm_map_page-success_to}
use lab.Mm.SetLeaf.{page_mapping}
use lab.Mm.Tree.{IsTree-fewer}
use lab.Mm.Ensure.{IsVmTo, cons_first, later_in}
use lab.Mm.Touches.{get_touches, free_touches}
use lab.Panic.{BugBehavior}
use lab.Pgtable.{is_aligned}
use lab.Pgtable.Laws.{IsCanonical}
use lab.Prelude.{
  ℕ, ◌∈◌, ◌∉◌, ◌++◌, eq_or_ne, ◌&&◌, ◌||◌, ◌==◌, ◌%◌, ◌^◌, ◌≤◌, ◌<◌, ◌≡◌, refl, Bool, true, false,
  none, some, List, ◌∷◌, length, arith, bit_and, ap, inl, inr, not, Bool-cases,
}

not_taken :
    (p : ℕ) (reserved free : List ℕ)
    → p ∉ free
    → ((x : ℕ) → x ∈ p ∷ free → x ∉ reserved)
    → (x : ℕ) → x ∈ free
    → x ∉ p ∷ reserved
not_taken p reserved free out apart x taken = elim (eq_or_ne x p) [
  | inr ne ↦ let kept = apart x (later_in x p free taken) in ground (arith, ne, kept)
  | inl same ↦ let taken' : p ∈ free = rw same at taken in absurd (cc (taken', out))
]

-- A page is taken from an intact kernel, and reserved.
pub IsVm-got :
    (end : ℕ) (reserved : List ℕ) (root p : ℕ) (h : Heap) (free : List ℕ)
    → IsVmTo end reserved root h (p ∷ free)
    → ((alloc_get_page h).0 ≡ p)
      × IsVmTo end (p ∷ reserved) root (alloc_get_page h).1 free
      × ((alloc_get_page h).1.mem ≡ h.mem)
IsVm-got end reserved root p h free is =
    let got = get_page_to end h p free is.heap in
    (
      got.0,
      record {
        heap = got.2;
        tree = rw got.4 (
            IsTree-fewer h.mem root (reserved ++ p ∷ free) (p ∷ (reserved ++ free))
              (cons_first p reserved free) is.tree);
        apart = not_taken p reserved free got.3 is.apart;
      },
      got.4,
    )

-- Without the reservation.
pub IsVm-forget :
    (end : ℕ) (reserved : List ℕ) (root p : ℕ) (h : Heap) (free : List ℕ)
    → IsVmTo end (p ∷ reserved) root h free
    → IsVmTo end reserved root h free
IsVm-forget end reserved root p h free is = record {
  heap = is.heap;
  tree =
      IsTree-fewer h.mem root (p ∷ (reserved ++ free)) (reserved ++ free)
        (λ x out. ground (arith, out)) is.tree;
  apart = λ x e. let out = is.apart x e in ground (arith, out);
}

-- One mapping with what is expected of it.
pub map_checked_lem :
    (line line' label : ℕ) (expected : Status → Bool) (after : BugBehavior) (va pa : ℕ)
    (ret r : Status) (test : Test) (w : World) (h : Heap)
    → w.traps.ktest_fault_occurred ≡ false
    → reached w (touched_by va pa w) ≡ true
    → vm_map_page w.kernel_root_ptb va pa 6 w.heap ≡ (r, h)
    → expected r ≡ true
    → map_checked line line' label expected after va pa ret test w
      ≡ some (
        record test { failure_line = line },
        r,
        record w { heap = h; bug_behavior = after; traps = settled label w.traps },
      )
unfolding map_checked ktest_assert
map_checked_lem line line' label expected after va pa ret r test w h quiet there mapped ok =
    rw
      (
        without_fault_lem line label (touched_by va pa) (map_under after va pa) ret test w quiet
            there,
        map_checked,
        mapped,
        ok,
      )
      refl

pub map_twice_lem :
    (once again : ℕ → Attempt) (p : ℕ) (test t1 t2 : Test) (w w2 w3 : World) (ret ret' : Status)
    → reached w (get_touches w.heap) ≡ true
    → (alloc_get_page w.heap).0 ≡ p
    → once p success test (record w { heap = (alloc_get_page w.heap).1 }) ≡ some (t1, ret, w2)
    → again p ret t1 w2 ≡ some (t2, ret', w3)
    → reached w3 (free_touches p w3.heap) ≡ true
    → map_twice once again test w ≡ (t2, some (free_page p w3).1)
unfolding map_twice
map_twice_lem once again p test t1 t2 w w2 w3 ret ret' there got first second there' =
    let e : (get_page w).0 ≡ p = got in
    rw (there, map_twice, e, first, e, second, e, there', e) refl

-- The refusals before the page tables are looked at.
module _ (root va pa perm : ℕ) (h : Heap) where
  pub refuses_va : is_aligned va ≡ false → vm_map_page root va pa perm h ≡ (failure, h)
  unfolding vm_map_page
  refuses_va bad = rw bad refl

  pub refuses_pa : is_aligned pa ≡ false → vm_map_page root va pa perm h ≡ (failure, h)
  unfolding vm_map_page
  refuses_pa bad = elim (Bool-cases (is_aligned va)) [
    | inl good ↦ rw (good, bad) refl
    | inr bad' ↦ rw bad' refl
  ]

  pub refuses_top :
      (not (bit_and va mask_63_38 == 0) && not (bit_and va mask_63_38 == mask_63_38)) ≡ true
      → vm_map_page root va pa perm h ≡ (failure, h)
  unfolding vm_map_page
  refuses_top bad = elim (Bool-cases (not (is_aligned va) || not (is_aligned pa))) [
    | inl unaligned ↦ rw unaligned refl
    | inr aligned ↦ rw (aligned, bad) refl
  ]

  -- What is not mapped is, where two pages are left.
  pub makes_mapping :
      (end : ℕ) (reserved free : List ℕ)
      → IsVmTo end reserved root h free
      → va < 2 ^ 64
      → perm < 2 ^ 10
      → 2 ≤ length free
      → va % 4096 ≡ 0
      → pa % 4096 ≡ 0
      → IsCanonical va
      → page_mapping h.mem root va ≡ none
      → vm_map_page root va pa perm h ≡ (success, (vm_map_page root va pa perm h).1)
  makes_mapping end reserved free is fits small room va_al pa_al canonical unused =
      ap (λ (s : Status). (s, (vm_map_page root va pa perm h).1))
        ((vm_map_page-success_to end reserved root va pa perm h free is fits small room).1
          (va_al, pa_al, canonical, unused))
