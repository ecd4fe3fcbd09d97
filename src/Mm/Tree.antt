-- ===== src/Mm/Tree.antt =====
-- The page tables as a tree in memory, read as the Sv39 walk reads them: the tables by the path of
-- indices that leads to them, and the pages that they map.
use lab.Alloc.Chain.{IsPage}
use lab.Memory.{Mem, load64}
use lab.Pgtable.{pte_valid, pte_leaf, pte_next_ptb}
use lab.Prelude.{
  ℕ, suc, ◌+◌, ◌*◌, ◌<◌, ◌≡◌, true, false, not, ◌&&◌, Option, none, some, List, if◌then◌else◌, ◌∉◌,
}

-- The indices on the way from the root.
pub data WalkPath : Type 0 where
  top : WalkPath
  at : WalkPath → ℕ → WalkPath

abbrev pub depth : WalkPath → ℕ
depth top = 0
depth (at p i) = suc (depth p)

-- A path to a table: two indices at most, each below 512.
abbrev pub Bounded : WalkPath → Type 0
Bounded top = Unit {0}
Bounded (at p i) = Bounded p × (i < 512) × (depth p < 2)

abbrev pub entry : Mem → ℕ → ℕ → ℕ
entry m ptb i = load64 m (ptb + 8 * i)

-- A valid entry that is no leaf points at a table.
unfoldable pub child : Mem → ℕ → ℕ → Option ℕ
child m ptb i =
    if pte_valid (entry m ptb i) && not (pte_leaf (entry m ptb i))
    then some (pte_next_ptb (entry m ptb i))
    else none

abbrev pub and_then : Option ℕ → (ℕ → Option ℕ) → Option ℕ
and_then none f = none
and_then (some a) f = f a

abbrev pub table_at : Mem → ℕ → WalkPath → Option ℕ
table_at m root top = some root
table_at m root (at p i) = and_then (table_at m root p) (λ t. child m t i)

-- The entry of level 0 at the three indices, if there is one and it is valid.
unfoldable pub leaf_at : Mem → ℕ → ℕ → Option ℕ
leaf_at m ptb i0 = if pte_valid (entry m ptb i0) then some (entry m ptb i0) else none

abbrev pub mapping : Mem → ℕ → ℕ → ℕ → ℕ → Option ℕ
mapping m root i2 i1 i0 = and_then (table_at m root (at (at top i2) i1)) (λ t. leaf_at m t i0)

-- The tables lie in distinct pages, none of them free, and no entry above level 0 is a leaf.
pub record IsTree (m : Mem) (root : ℕ) (free : List ℕ) : Type 0 where
  pub pages :
      (q : WalkPath) (a : ℕ) → Bounded q → table_at m root q ≡ some a → IsPage a × (a ∉ free)
  pub distinct :
      (q s : WalkPath) (a : ℕ)
      → Bounded q
      → Bounded s
      → table_at m root q ≡ some a
      → table_at m root s ≡ some a
      → q ≡ s
  pub no_leaf :
      (q : WalkPath) (a i : ℕ)
      → Bounded (at q i)
      → table_at m root q ≡ some a
      → pte_valid (entry m a i) ≡ true
      → pte_leaf (entry m a i) ≡ false

-- Fewer pages that are no tables.
pub IsTree-fewer :
    (m : Mem) (root : ℕ) (xs ys : List ℕ)
    → ((x : ℕ) → x ∉ xs → x ∉ ys)
    → IsTree m root xs
    → IsTree m root ys
IsTree-fewer m root xs ys fewer tree = record {
  pages = λ q a b e. ((tree.pages q a b e).0, fewer a (tree.pages q a b e).1);
  distinct = tree.distinct;
  no_leaf = tree.no_leaf;
}
