-- ===== src/Dtb/Tree.antt =====
-- Device trees as data, how a tree lies in the structure block of the blob, and the search that
-- `dtb_match_node_name_rec` promises.
use lab.Dtb.{
  fdt_begin_node, fdt_end_node, fdt_prop, fdt_nop, Node, node_at, behind_name, words, word_at,
  is_zero, dtb_read_struct_token,
}
use lab.Memory.{Mem}
use lab.Prelude.{
  ℕ, suc, ◌+◌, ◌*◌, ◌≡◌, Bool, Option, none, some, List, [], ◌∷◌, length, ◌==◌, if◌then◌else◌, ℤ,
}
use lab.Str.{byte_difference}
use lab.Str.Text.{Text}

-- What stands between the name of a node and its children: properties, by the length of their
-- value, and FDT_NOPs.
pub data Item : Type 0 where
  property : ℕ → Item
  no_op : Item

-- A node is its name, its properties and its children; FDT_NOPs may stand between children.
mutual
  pub data Tree : Type 0 where
    node : List ℕ → List Item → Forest → Tree

  pub data Forest : Type 0 where
    done : Forest
    gap : Forest → Forest
    more : Tree → Forest → Forest

-- Where an encoding ends.
abbrev pub items_end : ℕ → List Item → ℕ
items_end p [] = p
items_end p (property len ∷ is) = items_end (p + 12 + 4 * words 32 len) is
items_end p (no_op ∷ is) = items_end (p + 4) is

abbrev mutual
  pub tree_end : ℕ → Tree → ℕ
  tree_end p (node name is children) =
      forest_end (items_end (behind_name p (length name)) is) children + 4

  pub forest_end : ℕ → Forest → ℕ
  forest_end p done = p
  forest_end p (gap f) = forest_end (p + 4) f
  forest_end p (more t f) = forest_end (tree_end p t) f

-- The items stand at `p`.
abbrev pub ItemsAt : Mem → ℕ → List Item → Type 0
ItemsAt m p [] = Unit {0}
ItemsAt m p (property len ∷ is) =
    (dtb_read_struct_token m p ≡ fdt_prop)
    × (word_at m p 1 ≡ len)
    × ItemsAt m (p + 12 + 4 * words 32 len) is
ItemsAt m p (no_op ∷ is) = (dtb_read_struct_token m p ≡ fdt_nop) × ItemsAt m (p + 4) is

-- The FDT_NOPs in front of the children count as items of the node.
abbrev pub NoGap : Forest → Type 0
NoGap done = Unit {0}
NoGap (gap f) = ⊥
NoGap (more t f) = Unit {0}

-- The tree, and the children with the FDT_END_NODE behind them, stand at `p`.
abbrev mutual
  pub TreeAt : Mem → ℕ → Tree → Type 0
  TreeAt m p (node name is children) =
      (dtb_read_struct_token m p ≡ fdt_begin_node)
      × Text m (p + 4) name
      × ItemsAt m (behind_name p (length name)) is
      × NoGap children
      × ForestAt m (items_end (behind_name p (length name)) is) children

  pub ForestAt : Mem → ℕ → Forest → Type 0
  ForestAt m p done = dtb_read_struct_token m p ≡ fdt_end_node
  ForestAt m p (gap f) = (dtb_read_struct_token m p ≡ fdt_nop) × ForestAt m (p + 4) f
  ForestAt m p (more t f) = TreeAt m p t × ForestAt m (tree_end p t) f

-- What `strcmp` finds for the text `s` at `p` and whatever stands at `q`.
unfoldable pub compared : Mem → ℕ → ℕ → List ℕ → ℤ
compared m p q [] = byte_difference m p q
compared m p q (c ∷ s) =
    let rest = compared m (p + 1) (q + 1) s in
    if m p == m q then rest else byte_difference m (p + 1) (q + 1)

abbrev pub agrees : Mem → ℕ → ℕ → List ℕ → Bool
agrees m p name s = is_zero (compared m (p + 4) name s)

abbrev pub or_else : Option Node → Option Node → Option Node
or_else none second = second
or_else (some found) second = some found

-- The first node, parents before their children and children in their order, whose name agrees
-- with the one at `name`.
abbrev mutual
  pub find_node : Mem → ℕ → ℕ → Tree → Option Node
  find_node m name p (node s is children) =
      let below = find_child m name (items_end (behind_name p (length s)) is) children in
      if agrees m p name s then some (node_at p (length s)) else below

  pub find_child : Mem → ℕ → ℕ → Forest → Option Node
  find_child m name p done = none
  find_child m name p (gap f) = find_child m name (p + 4) f
  find_child m name p (more t f) =
      or_else (find_node m name p t) (find_child m name (tree_end p t) f)

-- Rounds that are enough.
abbrev mutual
  pub tree_size : Tree → ℕ
  tree_size (node s is children) = suc (length s + length is + forest_size children)

  pub forest_size : Forest → ℕ
  forest_size done = 0
  forest_size (gap f) = suc (forest_size f)
  forest_size (more t f) = suc (tree_size t + forest_size f)
