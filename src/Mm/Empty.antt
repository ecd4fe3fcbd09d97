-- ===== src/Mm/Empty.antt =====
-- A root table whose entries are all 0, as `mm_init` of src/mm.c allocates it: a tree of one table.
use lab.Alloc.Chain.{IsPage}
use lab.Memory.{Mem}
use lab.Mm.Tree.{WalkPath, top, at, Bounded, entry, child, table_at, mapping, IsTree}
use lab.Pgtable.{pte_valid, pte_leaf}
use lab.Pgtable.Laws.{pte_valid_lem}
use lab.Prelude.{ℕ, ◌<◌, ◌≡◌, refl, true, false, none, some, List, ◌∉◌}

module _ (m : Mem) (root : ℕ) (zeros : (j : ℕ) → j < 512 → entry m root j ≡ 0) where
  empty-invalid : (j : ℕ) → j < 512 → pte_valid (entry m root j) ≡ false
  empty-invalid j lt = rw (zeros j lt) (pte_valid_lem 0)

  empty-child : (j : ℕ) → j < 512 → child m root j ≡ none
  unfolding child
  empty-child j lt = rw (empty-invalid j lt) refl

  -- No path but the empty one leads to a table.
  empty-table_at : (q : WalkPath) (j : ℕ) → Bounded (at q j) → table_at m root (at q j) ≡ none
  empty-table_at top j bq = empty-child j bq.1
  empty-table_at (at q i) j bq = rw (empty-table_at q i bq.0) refl

  -- No page is mapped.
  pub mapping-empty : (i2 i1 i0 : ℕ) → i2 < 512 → mapping m root i2 i1 i0 ≡ none
  mapping-empty i2 i1 i0 lt = rw (empty-child i2 lt) refl

  module _ (free : List ℕ) (page : IsPage root) (out : root ∉ free) where
    pages : (q : WalkPath) (a : ℕ) → Bounded q → table_at m root q ≡ some a → IsPage a × (a ∉ free)
    pages top a bq e = let same : root ≡ a = cc in rw (← same) (page, out)
    pages (at q j) a bq e = let off = empty-table_at q j bq in cc

    distinct :
        (q s : WalkPath) (a : ℕ)
        → Bounded q
        → Bounded s
        → table_at m root q ≡ some a
        → table_at m root s ≡ some a
        → q ≡ s
    distinct top top a bq bs e e' = refl
    distinct top (at s j) a bq bs e e' = let off = empty-table_at s j bs in cc
    distinct (at q j) s a bq bs e e' = let off = empty-table_at q j bq in cc

    no_leaf :
        (q : WalkPath) (a i : ℕ)
        → Bounded (at q i)
        → table_at m root q ≡ some a
        → pte_valid (entry m a i) ≡ true
        → pte_leaf (entry m a i) ≡ false
    no_leaf top a i bq e valid =
        let same : a ≡ root = cc in
        let off = empty-invalid i bq.1 in
        let on : pte_valid (entry m root i) ≡ true = rw same at valid in cc
    no_leaf (at q j) a i bq e valid = let off = empty-table_at q j bq.0 in cc

    pub IsTree-empty : IsTree m root free
    IsTree-empty = record { pages = pages; distinct = distinct; no_leaf = no_leaf }
