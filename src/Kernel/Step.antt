-- ===== src/Kernel/Step.antt =====
-- One call of `vm_map_page` in the loops of `mm_init`: a page is mapped to itself.
use lab.Alloc.{Heap, Status, success, failure}
use lab.Mm.{leaf_entry, vm_map_page}
use lab.Mm.Map.{vm_map_page-reserved}
use lab.Mm.Present.{HasLow, low_table, vm_map_page-present, MapsWith-there}
use lab.Mm.SetLeaf.{MapsWith, low_path, page_mapping}
use lab.Mm.Tree.{table_at}
use lab.Mm.Translate.{other_page}
use lab.Mm.Ensure.{IsVmTo, Supplied}
use lab.Pgtable.{va_get_index}
use lab.Pgtable.Laws.{IsCanonical, va_get_index-lt}
use lab.Prelude.{
  ℕ, ◌+◌, ◌/◌, ◌%◌, ◌^◌, ◌≤◌, ◌<◌, ◌≡◌, refl, ◌≢◌, inl, inr, none, some, List, length, Option-cases,
  arith, ◌∙◌,
}

-- What one call of `vm_map_page` on a page and itself does to the pages.
pub record Stepped (tail : ℕ) (reserved : List ℕ) (root p perm : ℕ) (h : Heap) (free : List ℕ)
    (h' : Heap) : Type 0 where
  pub rest : List ℕ
  pub is_vm : IsVmTo tail reserved root h' rest
  pub shrinks : length rest ≤ length free
  pub others :
      (x : ℕ)
      → IsCanonical x
      → p / 4096 ≢ x / 4096
      → page_mapping h'.mem root x ≡ page_mapping h.mem root x
  pub fresh :
      page_mapping h.mem root p ≡ none
      → 2 ≤ length free
      → page_mapping h'.mem root p ≡ some (leaf_entry p perm)
  pub kept : (e : ℕ) → page_mapping h.mem root p ≡ some e → page_mapping h'.mem root p ≡ some e
  -- The tables: two pages at most are taken for them, none where they are there, and then they are.
  pub leads : 2 ≤ length free → HasLow root h'.mem p
  pub used : length free ≤ 2 + length rest
  pub spares : HasLow root h.mem p → length rest ≡ length free

module _ (tail : ℕ) (reserved : List ℕ) (root p perm : ℕ) (h : Heap) (free : List ℕ)
    (is : IsVmTo tail reserved root h free) (canonical : IsCanonical p) (al : p % 4096 ≡ 0) where
  MapsWith-Stepped :
      (r : Status × Heap) (rest : List ℕ)
      → IsVmTo tail reserved root r.1 rest
      → length rest ≤ length free
      → length free ≤ 2 + length rest
      → (HasLow root h.mem p → length rest ≡ length free)
      → MapsWith tail reserved root p p perm h free r
      → Stepped tail reserved root p perm h free r.1
  MapsWith-Stepped (success, h') rest is' sh two spared
        (_, _, before, after, other, _, _, _, _, _) =
      record {
        rest = rest;
        is_vm = is';
        shrinks = sh;
        others = λ x c ne.
            other (va_get_index x 2) (va_get_index x 1) (va_get_index x 0) (va_get_index-lt x 2)
              (va_get_index-lt x 1) (va_get_index-lt x 0) (other_page p x canonical c ne);
        fresh = λ _ _. after;
        kept = λ e old. cc;
        leads = λ _. low_table h'.mem root p (leaf_entry p perm) after;
        used = two;
        spares = spared;
      }
  MapsWith-Stepped (failure, h') rest is' sh two spared (rest', is2, same, why, sh') = record {
    rest = rest;
    is_vm = is';
    shrinks = sh;
    others = λ x c ne. unchanged x;
    fresh = λ unused room. elim why [
      | inl bad ↦ absurd (bad al)
      | inr (inl bad) ↦ absurd (bad al)
      | inr (inr (inl bad)) ↦ absurd (bad canonical)
      | inr (inr (inr (inl bad))) ↦ absurd (bad unused)
      | inr (inr (inr (inr few))) ↦ absurd (omega arith)
    ];
    kept = λ e old. unchanged p ∙ old;
    leads = λ room.
        let there =
          MapsWith-there tail reserved root p p perm h free (failure, h')
            (rest', is2, same, why, sh') al al canonical room in
        low_table h'.mem root p there.0 there.1;
    used = two;
    spares = spared;
  }
    where
      unchanged : (x : ℕ) → page_mapping h'.mem root x ≡ page_mapping h.mem root x
      unchanged x =
          same (va_get_index x 2) (va_get_index x 1) (va_get_index x 0) (va_get_index-lt x 2)
            (va_get_index-lt x 1) (va_get_index-lt x 0)

  -- Where the table is missing, two pages at most are taken.
  two_taken :
      (r : Status × Heap)
      → table_at h.mem root (low_path p) ≡ none
      → MapsWith tail reserved root p p perm h free r
      → (rest : List ℕ) × IsVmTo tail reserved root r.1 rest
        × (length rest ≤ length free)
        × (length free ≤ 2 + length rest)
  two_taken (success, h') missing (rest, is', _, _, _, two, _, _, _, sh) = (rest, is', sh, two)
  two_taken (failure, h') missing (rest, is', same, why, sh) = (
    rest,
    is',
    sh,
    elim why [
      | inl bad ↦ absurd (bad al)
      | inr (inl bad) ↦ absurd (bad al)
      | inr (inr (inl bad)) ↦ absurd (bad canonical)
      | inr (inr (inr (inl bad))) ↦ absurd (bad (rw missing refl))
      | inr (inr (inr (inr few))) ↦ omega arith
    ],
  )

  pub step_lem :
      Supplied tail 2 free
      → p < 2 ^ 64
      → perm < 2 ^ 10
      → Stepped tail reserved root p perm h free (vm_map_page root p p perm h).1
  step_lem room fits small =
      let r = vm_map_page root p p perm h in
      let spec = vm_map_page-reserved tail reserved root p p perm h free is room fits small in
      elim (Option-cases (table_at h.mem root (low_path p))) [
        | inr there ↦
            MapsWith-Stepped r free
              (vm_map_page-present tail reserved root p p perm h free is small there) (omega arith)
              (omega arith) (λ _. refl) spec
        | inl missing ↦
            let taken = two_taken r missing spec in
            MapsWith-Stepped r taken.0 taken.1 taken.2 taken.3
              (λ there. absurd (cc (missing, there.1))) spec
      ]
