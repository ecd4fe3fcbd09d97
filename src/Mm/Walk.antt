-- ===== src/Mm/Walk.antt =====
-- The loop of `vm_map_page` over the upper levels: it ends at the table of level 0, with the tree
-- intact and the same pages mapped.
use lab.Alloc.{Heap}
use lab.Mm.{ensure_table, walk_levels}
use lab.Mm.Ensure.{IsVmTo, Supplied, SameMapping, EnsureSpec, ensure_table_lem}
use lab.Mm.Tree.{WalkPath, at, depth, Bounded, table_at}
use lab.Pgtable.{va_get_index, ptb_get_ptep}
use lab.Pgtable.Laws.{va_get_index-lt}
use lab.Prelude.{
  ℕ, zero, suc, ◌+◌, ◌*◌, ◌≤◌, ◌<◌, ◌≡◌, refl, Bool, true, false, Option, none, some, List, length,
  arith, ◌∙◌, inl, inr,
}

module _ (end : ℕ) (reserved : List ℕ) where
  -- The path that the loop follows from `p` down, with the indices of `va`.
  abbrev pub descend : ℕ → ℕ → WalkPath → WalkPath
  descend va zero p = p
  descend va (suc level) p = descend va level (at p (va_get_index va (suc level)))

  -- The loop ends at the table of level 0, or the free pages were fewer than the levels.
  abbrev pub WalkSpec : ℕ → Heap → List ℕ → ℕ → WalkPath → Option ℕ × Heap → Type 0
  WalkSpec root h free level q (some t, h') =
      (free' : List ℕ) × IsVmTo end reserved root h' free'
      × (table_at h'.mem root q ≡ some t)
      × SameMapping root h.mem h'.mem
      × (length free ≤ level + length free')
      × (length free' ≤ length free)
  WalkSpec root h free level q (none, h') =
      (free' : List ℕ) × IsVmTo end reserved root h' free'
      × SameMapping root h.mem h'.mem
      × (length free < level)
      × (length free' ≤ length free)

  WalkSpec-after :
      (root : ℕ) (h h' : Heap) (free free' : List ℕ) (level : ℕ) (q : WalkPath)
      (r : Option ℕ × Heap)
      → SameMapping root h.mem h'.mem
      → length free ≤ suc (length free')
      → length free' ≤ length free
      → WalkSpec root h' free' level q r
      → WalkSpec root h free (suc level) q r
  WalkSpec-after root h h' free free' level q (some t, h2) same le sh
        (rest, is, e, same', le', sh') =
      (
        rest,
        is,
        e,
        λ i2 i1 i0 a b c. same' i2 i1 i0 a b c ∙ same i2 i1 i0 a b c,
        omega arith,
        omega arith,
      )
  WalkSpec-after root h h' free free' level q (none, h2) same le sh (rest, is, same', lt, sh') = (
    rest,
    is,
    λ i2 i1 i0 a b c. same' i2 i1 i0 a b c ∙ same i2 i1 i0 a b c,
    omega arith,
    omega arith,
  )

  pub Supplied-one :
      (level : ℕ) (free : List ℕ) → Supplied end (suc level) free → Supplied end 1 free
  Supplied-one level free (inl null) = inl null
  Supplied-one level free (inr more) = inr (omega arith)

  pub Supplied-rest :
      (level : ℕ) (free free' : List ℕ)
      → length free ≤ suc (length free')
      → Supplied end (suc level) free
      → Supplied end level free'
  Supplied-rest level free free' le (inl null) = inl null
  Supplied-rest level free free' le (inr more) = inr (omega arith)

  pub walk_levels_lem :
      (root va level t : ℕ) (p : WalkPath) (h : Heap) (free : List ℕ)
      → depth p + level ≡ 2
      → Bounded p
      → IsVmTo end reserved root h free
      → Supplied end level free
      → table_at h.mem root p ≡ some t
      → WalkSpec root h free level (descend va level p) (walk_levels va level t h)
  unfolding walk_levels ptb_get_ptep
  walk_levels_lem root va zero t p h free deep bp is room parent =
      (free, is, parent, λ i2 i1 i0 a b c. refl, omega arith, omega arith)
  walk_levels_lem root va (suc level) t p h free deep bp is room parent =
      go (ensure_table (t + 8 * i) h) refl
        (ensure_table_lem end reserved root p t i bounded h free is (Supplied-one level free room)
          parent)
        (λ a h' free' is' le.
          walk_levels_lem root va level a (at p i) h' free' (omega arith) bounded is'
            (Supplied-rest level free free' le room))
    where
      i : ℕ
      i = va_get_index va (suc level)

      bounded : Bounded (at p i)
      bounded = (bp, va_get_index-lt va (suc level), omega arith)

      go :
          (r : Bool × Heap)
          → ensure_table (t + 8 * i) h ≡ r
          → EnsureSpec end reserved root h free p t i r
          → ((a : ℕ) (h' : Heap) (free' : List ℕ)
              → IsVmTo end reserved root h' free'
              → length free ≤ suc (length free')
              → table_at h'.mem root (at p i) ≡ some a
              → WalkSpec root h' free' level
                  (descend va level (at p i))
                  (walk_levels va level a h'))
          → WalkSpec root h free
              (suc level)
              (descend va level (at p i))
              (walk_levels va (suc level) t h)
      go (false, h') e (same, empty) below =
          rw (e, same) (free, is, λ i2 i1 i0 x y z. refl, rw empty (omega arith), omega arith)
      go (true, h') e (a, free', is', e', noleaf, next, same, le, sh) below =
          rw (e, noleaf, next)
            (WalkSpec-after root h h' free free' level (descend va level (at p i))
              (walk_levels va level a h') same le sh (below a h' free' is' le e'))
