-- ===== src/Mm/Install.antt =====
-- Linking a new, empty table below an entry that was not valid: the tree stays a tree, it has
-- one more table, and the mapped pages are the same.
use lab.Alloc.Chain.{IsPage}
use lab.Memory.{Mem}
use lab.Mm.{next_entry}
use lab.Mm.Entry.{pte_next_ptb-next_entry}
use lab.Mm.Tree.{
  WalkPath, top, at, depth, Bounded, entry, child, and_then, table_at, leaf_at, mapping, IsTree,
}
use lab.Pgtable.{pte_valid, pte_leaf}
use lab.Pgtable.Laws.{pte_valid_lem}
use mathlib.Core.Path.{ap₂}
use lab.Prelude.{
  ℕ, ◌%◌, ◌<◌, ◌≡◌, refl, ◌≢◌, ◌⊎◌, inl, inr, true, false, none, some, List, ◌∷◌, ◌∉◌, arith, ap,
  Option-cases, eq_or_ne, ◌∙◌, sym,
}

-- From `m` to `n` the page `a` has been cleared and linked at entry `i` of the table `t`; no other
-- entry of any page has changed.
pub record Installed (m n : Mem) (t i a : ℕ) : Type 0 where
  pub cleared : (j : ℕ) → j < 512 → entry n a j ≡ 0
  pub linked : entry n t i ≡ next_entry a
  pub beside : (j : ℕ) → j < 512 → j ≢ i → entry n t j ≡ entry m t j
  pub elsewhere : (b j : ℕ) → b % 4096 ≡ 0 → b ≢ a → b ≢ t → j < 512 → entry n b j ≡ entry m b j

module _ (m n : Mem) (t j : ℕ) where
  pub child-same : entry n t j ≡ entry m t j → child n t j ≡ child m t j
  unfolding child
  child-same e = rw e refl

  pub leaf_at-same : entry n t j ≡ entry m t j → leaf_at n t j ≡ leaf_at m t j
  unfolding leaf_at
  leaf_at-same e = rw e refl

module _ (m : Mem) (t j : ℕ) where
  child-invalid : pte_valid (entry m t j) ≡ false → child m t j ≡ none
  unfolding child
  child-invalid e = rw e refl

  leaf_at-invalid : pte_valid (entry m t j) ≡ false → leaf_at m t j ≡ none
  unfolding leaf_at
  leaf_at-invalid e = rw e refl

  zero-invalid : entry m t j ≡ 0 → pte_valid (entry m t j) ≡ false
  zero-invalid e = rw e (pte_valid_lem 0)

  child-next : (a : ℕ) → IsPage a → entry m t j ≡ next_entry a → child m t j ≡ some a
  unfolding child
  child-next a page e =
      let f = pte_next_ptb-next_entry a page.1 page.2 in rw (e, f.0, f.1, f.2) refl

module _ (m n : Mem) (root t i a : ℕ) (p : WalkPath) (free : List ℕ)
    (tree : IsTree m root (a ∷ free)) (bounded : Bounded (at p i))
    (parent : table_at m root p ≡ some t) (unused : pte_valid (entry m t i) ≡ false)
    (page : IsPage a) (new : a ∉ free) (done : Installed m n t i a) where
  -- A table of the tree before has its entries as before, but for the one that was set.
  entry-kept :
      (q : WalkPath) (b j : ℕ)
      → Bounded q
      → table_at m root q ≡ some b
      → j < 512
      → ((q ≡ p) × (b ≡ t) × (j ≡ i)) ⊎ (entry n b j ≡ entry m b j)
  entry-kept q b j bq e lt = elim (eq_or_ne b t) [
    | inr other ↦
        let old = tree.pages q b bq e in inr (done.elsewhere b j old.0.1 (ground arith) other lt)
    | inl same ↦ elim (eq_or_ne j i) [
      | inl hit ↦ inl (tree.distinct q p b bq bounded.0 e (rw same parent), same, hit)
      | inr miss ↦ inr (rw same (done.beside j lt miss))
    ]
  ]

  empty-child : (j : ℕ) → j < 512 → child n a j ≡ none
  empty-child j lt = child-invalid n a j (zero-invalid n a j (done.cleared j lt))

  linked-child : child n t i ≡ some a
  linked-child = child-next n t i a page done.linked

  -- Below a path that leads where it led, or to the new table.
  table_at-at :
      (q : WalkPath) (j : ℕ)
      → Bounded (at q j)
      → ((q ≡ at p i) × (table_at n root q ≡ some a)) ⊎ (table_at n root q ≡ table_at m root q)
      → ((at q j ≡ at p i) × (table_at n root (at q j) ≡ some a))
        ⊎ (table_at n root (at q j) ≡ table_at m root (at q j))
  table_at-at q j bq (inl (e, e')) =
      inr (rw (e', empty-child j bq.1, e, parent, child-invalid m t i unused) refl)
  table_at-at q j bq (inr same) = elim (Option-cases (table_at m root q)) [
    | inl nowhere ↦ inr (rw (same, nowhere) refl)
    | inr (b, e) ↦ elim (entry-kept q b j bq.0 e bq.1) [
      | inl (eq, eb, ej) ↦ inl (ap₂ at eq ej, rw (same, e, eb, ej) linked-child)
      | inr kept ↦ inr (rw (same, e) (child-same m n b j kept))
    ]
  ]

  -- Every path leads where it led, but for the new one.
  pub table_at-installed :
      (q : WalkPath)
      → Bounded q
      → ((q ≡ at p i) × (table_at n root q ≡ some a)) ⊎ (table_at n root q ≡ table_at m root q)
  table_at-installed top bq = inr refl
  table_at-installed (at q j) bq = table_at-at q j bq (table_at-installed q bq.0)

  pub table_at-new : table_at n root (at p i) ≡ some a
  table_at-new = elim (table_at-installed p bounded.0) [
    | inl (loop, _) ↦ absurd (omega (arith, ap depth loop))
    | inr old ↦ rw (old, parent) linked-child
  ]

  installed-pages :
      (q : WalkPath) (b : ℕ) → Bounded q → table_at n root q ≡ some b → IsPage b × (b ∉ free)
  installed-pages q b bq e = elim (table_at-installed q bq) [
    | inl (_, new_table) ↦ let same : a ≡ b = cc in rw (← same) (page, new)
    | inr same ↦ let old = tree.pages q b bq (sym same ∙ e) in (old.0, ground arith)
  ]

  -- The new table is none of the others, since it was free.
  new-distinct : (q : WalkPath) → Bounded q → table_at m root q ≢ some a
  new-distinct q bq e = let old = tree.pages q a bq e in ground arith

  installed-distinct :
      (q s : WalkPath) (b : ℕ)
      → Bounded q
      → Bounded s
      → table_at n root q ≡ some b
      → table_at n root s ≡ some b
      → q ≡ s
  installed-distinct q s b bq bs eq es = elim (table_at-installed q bq) [
    | inl (ep, ea) ↦ elim (table_at-installed s bs) [
      | inl (ep', _) ↦ ep ∙ sym ep'
      | inr old ↦ absurd (new-distinct s bs (sym old ∙ (es ∙ (sym eq ∙ ea))))
    ]
    | inr old ↦ elim (table_at-installed s bs) [
      | inl (_, ea) ↦ absurd (new-distinct q bq (sym old ∙ (eq ∙ (sym es ∙ ea))))
      | inr old' ↦ tree.distinct q s b bq bs (sym old ∙ eq) (sym old' ∙ es)
    ]
  ]

  installed-no_leaf :
      (q : WalkPath) (b j : ℕ)
      → Bounded (at q j)
      → table_at n root q ≡ some b
      → pte_valid (entry n b j) ≡ true
      → pte_leaf (entry n b j) ≡ false
  installed-no_leaf q b j bq e valid = elim (table_at-installed q bq.0) [
    | inl (_, ea) ↦
        let same : b ≡ a = cc in let off = zero-invalid n a j (done.cleared j bq.1) in cc
    | inr old ↦ elim (entry-kept q b j bq.0 (sym old ∙ e) bq.1) [
      | inl (_, eb, ej) ↦ rw (eb, ej, done.linked) (pte_next_ptb-next_entry a page.1 page.2).1
      | inr kept ↦ rw kept (tree.no_leaf q b j bq (sym old ∙ e) (rw kept at valid))
    ]
  ]

  pub IsTree-installed : IsTree n root free
  IsTree-installed = record {
    pages = installed-pages;
    distinct = installed-distinct;
    no_leaf = installed-no_leaf;
  }

  leaves-installed :
      (q : WalkPath) (j : ℕ)
      → Bounded q
      → depth q ≡ 2
      → j < 512
      → and_then (table_at n root q) (λ b. leaf_at n b j)
        ≡ and_then (table_at m root q) (λ b. leaf_at m b j)
  leaves-installed q j bq deep lt = elim (table_at-installed q bq) [
    | inl (e, ea) ↦
        rw
          (
            ea,
            leaf_at-invalid n a j (zero-invalid n a j (done.cleared j lt)),
            e,
            parent,
            child-invalid m t i unused,
          )
          refl
    | inr old ↦ elim (Option-cases (table_at m root q)) [
      | inl nowhere ↦ rw (old, nowhere) refl
      | inr (b, e) ↦ elim (entry-kept q b j bq e lt) [
        | inl (eq, _, _) ↦ absurd (omega (arith, ap depth eq, deep, bounded.2))
        | inr kept ↦ rw (old, e) (leaf_at-same m n b j kept)
      ]
    ]
  ]

  -- The mapped pages are the same.
  pub mapping-installed :
      (i2 i1 i0 : ℕ)
      → i2 < 512
      → i1 < 512
      → i0 < 512
      → mapping n root i2 i1 i0 ≡ mapping m root i2 i1 i0
  mapping-installed i2 i1 i0 lt2 lt1 lt0 =
      leaves-installed (at (at top i2) i1) i0 ((tt, lt2, omega arith), lt1, omega arith) refl lt0
