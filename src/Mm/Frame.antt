-- ===== src/Mm/Frame.antt =====
-- Writes to a page that is no table leave the tables as they are, and giving such a page back to
-- the allocator keeps both intact.
use lab.Alloc.{Heap, alloc_free_page}
use lab.Alloc.Chain.{IsPage, SameOutsidePage, load64-other_page}
use lab.Alloc.Laws.{free_page_to}
use lab.Memory.{Mem}
use lab.Mm.Install.{child-same, leaf_at-same}
use lab.Mm.Tree.{WalkPath, top, at, Bounded, entry, table_at, IsTree, IsTree-fewer}
use lab.Mm.Ensure.{IsVmTo, SameMapping}
use lab.Prelude.{
  ℕ, ◌%◌, ◌^◌, ◌<◌, ◌≡◌, refl, inl, inr, some, List, [], ◌∷◌, ◌++◌, ◌∈◌, ◌∉◌, append-not_in,
  not_in-append, eq_or_ne, has, arith, ◌∙◌, sym, Option-cases, Bool-cases,
}

module _ (m n : Mem) (root p : ℕ) (xs : List ℕ) (tree : IsTree m root (p ∷ xs))
    (same : SameOutsidePage p m n) (al : p % 4096 ≡ 0) where
  entry-frame :
      (q : WalkPath) (b j : ℕ)
      → Bounded q
      → table_at m root q ≡ some b
      → j < 512
      → entry n b j ≡ entry m b j
  entry-frame q b j bq e lt =
      let page = tree.pages q b bq e in
      load64-other_page p b j m n same al page.0.1 (ground (arith, page.1)) lt

  pub table_at-frame : (q : WalkPath) → Bounded q → table_at n root q ≡ table_at m root q
  table_at-frame top bq = refl
  table_at-frame (at q j) bq = elim (Option-cases (table_at m root q)) [
    | inl nowhere ↦ rw (table_at-frame q bq.0, nowhere) refl
    | inr (b, e) ↦
        rw (table_at-frame q bq.0, e) (child-same m n b j (entry-frame q b j bq.0 e bq.1))
  ]

  pub IsTree-frame : IsTree n root (p ∷ xs)
  IsTree-frame = record {
    pages = λ q a bq e. tree.pages q a bq (sym (table_at-frame q bq) ∙ e);
    distinct = λ q s a bq bs e e'.
        tree.distinct q s a bq bs (sym (table_at-frame q bq) ∙ e) (sym (table_at-frame s bs) ∙ e');
    no_leaf = λ q a j bq e valid.
        let old = sym (table_at-frame q bq.0) ∙ e in
        let kept = entry-frame q a j bq.0 old bq.1 in
        rw kept (tree.no_leaf q a j bq old (rw kept at valid));
  }

  -- The same pages are mapped.
  pub mapping-frame : SameMapping root m n
  mapping-frame i2 i1 i0 lt2 lt1 lt0 =
      let q = at (at top i2) i1 in
      let bq : Bounded q = ((tt, lt2, omega arith), lt1, omega arith) in
      elim (Option-cases (table_at m root q)) [
        | inl nowhere ↦ rw (table_at-frame q bq, nowhere) refl
        | inr (b, e) ↦
            rw (table_at-frame q bq, e) (leaf_at-same m n b i0 (entry-frame q b i0 bq e lt0))
      ]

-- A reserved page is not free.
pub reserved_not_free :
    (end : ℕ) (reserved : List ℕ) (root p : ℕ) (h : Heap) (free : List ℕ)
    → IsVmTo end (p ∷ reserved) root h free
    → p ∉ free
reserved_not_free end reserved root p h free is = elim (Bool-cases (has p free)) [
  | inr out ↦ out
  | inl taken ↦ let off = is.apart p taken in absurd (ground (arith, off))
]

-- The order of pages does not matter.
cons_last : (a : ℕ) (xs ys : List ℕ) (x : ℕ) → x ∉ a ∷ (xs ++ ys) → x ∉ xs ++ a ∷ ys
cons_last a xs ys x out =
    let both = append-not_in x (a ∷ []) (xs ++ ys) out in
    let rest = append-not_in x xs ys both.1 in
    not_in-append x xs (a ∷ ys) rest.0 (not_in-append x (a ∷ []) ys both.0 rest.1)

not_first :
    (x p : ℕ) (reserved free : List ℕ)
    → p ∉ reserved
    → ((y : ℕ) → y ∈ free → y ∉ p ∷ reserved)
    → x ∈ p ∷ free
    → x ∉ reserved
not_first x p reserved free out apart taken = elim (eq_or_ne x p) [
  | inl same ↦ rw same out
  | inr ne ↦
      let later : x ∈ free = ground (arith, taken, ne) in
      let kept = apart x later in ground (arith, kept)
]

-- A reserved page is given back to the allocator.
pub IsVm-freed :
    (end : ℕ) (reserved : List ℕ) (root p : ℕ) (h : Heap) (free : List ℕ)
    → end < 2 ^ 64
    → IsPage p
    → p ∉ reserved
    → IsVmTo end (p ∷ reserved) root h free
    → IsVmTo end reserved root (alloc_free_page p h).1 (p ∷ free)
      × SameMapping root h.mem (alloc_free_page p h).1.mem
IsVm-freed end reserved root p h free low page out is =
    let freed =
      free_page_to end h free p low is.heap page
        (reserved_not_free end reserved root p h free is) in
    let m = (alloc_free_page p h).1.mem in
    (
      record {
        heap = freed.1;
        tree =
            IsTree-fewer m root (p ∷ (reserved ++ free)) (reserved ++ p ∷ free)
              (cons_last p reserved free)
              (IsTree-frame h.mem m root p (reserved ++ free) is.tree freed.2 page.1);
        apart = λ x e. not_first x p reserved free out is.apart e;
      },
      mapping-frame h.mem m root p (reserved ++ free) is.tree freed.2 page.1,
    )
