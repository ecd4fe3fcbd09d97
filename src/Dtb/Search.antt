-- ===== src/Dtb/Search.antt =====
-- `dtb_match_node_name_rec` on a blob that holds a tree: it ends, with the first node whose name
-- agrees, or behind the tree.
use lab.Dtb.{
  Token, fdt_unknown, fdt_begin_node, fdt_end_node, fdt_prop, fdt_nop, fdt_end, Node, no_node,
  SearchResult, node_at, behind_name, words, dtb_read_struct_token, skip_properties,
  dtb_match_node_name_rec, visit_children,
}
use lab.Dtb.Tree.{
  Item, property, no_op, Tree, node, Forest, done, gap, more, items_end, tree_end, forest_end,
  ItemsAt, NoGap, TreeAt, ForestAt, compared, agrees, or_else, find_node, find_child, tree_size,
  forest_size,
}
use lab.Memory.{Mem}
use lab.Prelude.{
  ℕ, zero, suc, ◌+◌, ◌*◌, ◌<◌, ◌≡◌, refl, Bool, true, false, Option, none, some, List, [], ◌∷◌,
  length, if◌then◌else◌, arith, inl, inr, eq_or_ne, eq→==, ne→==,
}
use lab.Str.{strcmp}
use lab.Str.Text.{Text, strlen_lem}

-- `strcmp` ends within one round more than its first text has characters, whatever the second.
pub strcmp_lem :
    (fuel : ℕ) (m : Mem) (p q : ℕ) (s : List ℕ)
    → Text m p s
    → length s < fuel
    → strcmp fuel m p q ≡ some (compared m p q s)
unfolding strcmp compared
strcmp_lem zero m p q s t lt = absurd (omega arith)
strcmp_lem (suc fuel) m p q [] t lt = rw (eq→== (m p) 0 t) refl
strcmp_lem (suc fuel) m p q (c ∷ s) t lt = elim (eq_or_ne (m p) (m q)) [
  | inl e ↦
      rw (ne→== (m p) 0 (rw t.0 t.1), eq→== (m p) (m q) e)
        (strcmp_lem fuel m (p + 1) (q + 1) s t.2 (omega arith))
  | inr ne ↦ rw (ne→== (m p) 0 (rw t.0 t.1), ne→== (m p) (m q) ne) refl
]

-- The tokens at which the loop over the properties stops.
abbrev pub Stops : Token → Type 0
Stops fdt_unknown = Unit {0}
Stops fdt_begin_node = Unit {0}
Stops fdt_end_node = Unit {0}
Stops fdt_prop = ⊥
Stops fdt_nop = ⊥
Stops fdt_end = Unit {0}

module _ (fuel : ℕ) (m : Mem) (p : ℕ) where
  skip-stop :
      (t : Token)
      → dtb_read_struct_token m p ≡ t
      → Stops t
      → skip_properties (suc fuel) m p ≡ some p
  unfolding skip_properties
  skip-stop fdt_unknown e s = rw (e, skip_properties) refl
  skip-stop fdt_begin_node e s = rw (e, skip_properties) refl
  skip-stop fdt_end_node e s = rw (e, skip_properties) refl
  skip-stop fdt_prop e s = absurd s
  skip-stop fdt_nop e s = absurd s
  skip-stop fdt_end e s = rw (e, skip_properties) refl

skip_properties_lem :
    (fuel : ℕ) (m : Mem) (p : ℕ) (is : List Item) (t : Token)
    → ItemsAt m p is
    → dtb_read_struct_token m (items_end p is) ≡ t
    → Stops t
    → length is < fuel
    → skip_properties fuel m p ≡ some (items_end p is)
unfolding skip_properties
skip_properties_lem zero m p is t at e stops lt = absurd (omega arith)
skip_properties_lem (suc fuel) m p [] t at e stops lt = skip-stop fuel m p t e stops
skip_properties_lem (suc fuel) m p (property len ∷ is) t at e stops lt =
    rw (at.0, skip_properties, at.1)
      (skip_properties_lem fuel m (p + 12 + 4 * words 32 len) is t at.2 e stops (omega arith))
skip_properties_lem (suc fuel) m p (no_op ∷ is) t at e stops lt =
    rw (at.0, skip_properties) (skip_properties_lem fuel m (p + 4) is t at.1 e stops (omega arith))

-- Behind the properties comes a child or the end of the node.
behind_items :
    (m : Mem) (p : ℕ) (f : Forest)
    → ForestAt m p f
    → NoGap f
    → (t : Token) × (dtb_read_struct_token m p ≡ t) × Stops t
behind_items m p done at ok = (fdt_end_node, at, tt)
behind_items m p (gap f) at ok = absurd ok
behind_items m p (more (node s is f) g) at ok = (fdt_begin_node, at.0.0, tt)

-- The result of a search that ends at `stop` where it finds no node.
abbrev pub outcome : ℕ → Option Node → SearchResult
outcome stop none = record { matched = false; node = no_node; ptr = stop }
outcome stop (some found) = record { matched = true; node = found; ptr = found.start + 4 }

-- A search that is correct with the fuel, for the root at hand and for its children.
abbrev NodeSearch : ℕ → Mem → ℕ → Type 0
NodeSearch fuel m name =
    (p : ℕ) (t : Tree)
    → TreeAt m p t
    → tree_size t < fuel
    → dtb_match_node_name_rec fuel m name p ≡ some (outcome (tree_end p t) (find_node m name p t))

abbrev ChildSearch : ℕ → Mem → ℕ → Type 0
ChildSearch fuel m name =
    (p before : ℕ) (f : Forest)
    → ForestAt m p f
    → forest_size f < fuel
    → visit_children fuel m name (outcome before none) p
      ≡ some (outcome (forest_end p f + 4) (find_child m name p f))

-- The node itself, by what `strcmp` finds.
module _ (fuel : ℕ) (m : Mem) (name p : ℕ) (s : List ℕ) (is : List Item) (f : Forest)
    (at : TreeAt m p (node s is f)) (enough : tree_size (node s is f) < suc fuel)
    (children : ChildSearch fuel m name) where
  abbrev start : ℕ
  start = behind_name p (length s)

  at-node :
      (same : Bool)
      → agrees m p name s ≡ same
      → dtb_match_node_name_rec (suc fuel) m name p
        ≡ some (
            outcome (forest_end (items_end start is) f + 4) (
              if same
              then some (node_at p (length s))
              else find_child m name (items_end start is) f))
  unfolding dtb_match_node_name_rec
  at-node true e =
      rw
        (
          at.0,
          dtb_match_node_name_rec,
          strlen_lem fuel m (p + 4) s at.1 (omega arith),
          strcmp_lem fuel m (p + 4) name s at.1 (omega arith),
          e,
        )
        refl
  at-node false e =
      let next = behind_items m (items_end start is) f at.4 at.3 in
      rw
        (
          at.0,
          dtb_match_node_name_rec,
          strlen_lem fuel m (p + 4) s at.1 (omega arith),
          strcmp_lem fuel m (p + 4) name s at.1 (omega arith),
          e,
          skip_properties_lem fuel m start is next.0 at.2 next.1 next.2 (omega arith),
        )
        (children (items_end start is) 0 f at.4 (omega arith))

NodeSearch-suc :
    (fuel : ℕ) (m : Mem) (name : ℕ) → ChildSearch fuel m name → NodeSearch (suc fuel) m name
NodeSearch-suc fuel m name children p (node s is f) at lt =
    at-node fuel m name p s is f at lt children (agrees m p name s) refl

-- What `visit_children` does with the result for a child.
module _ (fuel : ℕ) (m : Mem) (name p before : ℕ) (t : Tree) (f : Forest) where
  after-child :
      (r : Option Node)
      → dtb_read_struct_token m p ≡ fdt_begin_node
      → dtb_match_node_name_rec fuel m name p ≡ some (outcome (tree_end p t) r)
      → visit_children fuel m name (outcome (tree_end p t) none) (tree_end p t)
        ≡ some (outcome (forest_end (tree_end p t) f + 4) (find_child m name (tree_end p t) f))
      → visit_children (suc fuel) m name (outcome before none) p
        ≡ some (
            outcome
              (forest_end (tree_end p t) f + 4)
              (or_else r (find_child m name (tree_end p t) f)))
  unfolding visit_children
  after-child none begins child others = rw (begins, visit_children, child) others
  after-child (some found) begins child others = rw (begins, visit_children, child) refl

ChildSearch-suc :
    (fuel : ℕ) (m : Mem) (name : ℕ)
    → NodeSearch fuel m name
    → ChildSearch fuel m name
    → ChildSearch (suc fuel) m name
unfolding visit_children
ChildSearch-suc fuel m name nodes children p before done at lt = rw (at, visit_children) refl
ChildSearch-suc fuel m name nodes children p before (gap f) at lt =
    rw (at.0, visit_children) (children (p + 4) before f at.1 (omega arith))
ChildSearch-suc fuel m name nodes children p before (more (node s is g) f) at lt =
    let t = node s is g in
    after-child fuel m name p before t f (find_node m name p t) at.0.0
      (nodes p t at.0 (omega arith)) (children (tree_end p t) (tree_end p t) f at.1 (omega arith))

both : (fuel : ℕ) (m : Mem) (name : ℕ) → NodeSearch fuel m name × ChildSearch fuel m name
both zero m name = ((λ p t at lt. absurd (omega arith)), (λ p before f at lt. absurd (omega arith)))
both (suc fuel) m name =
    let smaller = both fuel m name in
    (NodeSearch-suc fuel m name smaller.1, ChildSearch-suc fuel m name smaller.0 smaller.1)

-- On a blob that holds a tree at `ptr`, and with more rounds than the tree's names, properties and
-- nodes together, `dtb_match_node_name_rec` ends. The result is the first node, parents before
-- their children, whose name agrees by `strcmp` with the name sought; where there is none it is no
-- match, and the pointer stands behind the tree.
pub dtb_match_node_name_rec_lem :
    (fuel : ℕ) (m : Mem) (name ptr : ℕ) (t : Tree)
    → TreeAt m ptr t
    → tree_size t < fuel
    → dtb_match_node_name_rec fuel m name ptr
      ≡ some (outcome (tree_end ptr t) (find_node m name ptr t))
dtb_match_node_name_rec_lem fuel m name ptr t at lt = (both fuel m name).0 ptr t at lt
