-- ===== src/Examples/Blob.antt =====
-- A device tree with a node "r", which has one property and the child "ux", and searches in it.
use lab.Dtb.{
  dtb_match_node_name_rec, dtb_node_match_property, dtb_read_struct_token, node_at, be_to_le,
  load32, token_of, header_get, fdt_begin_node,
}
use lab.Dtb.Search.{outcome, dtb_match_node_name_rec_lem}
use lab.Dtb.Slots.{filled, SlotsAt, find_property, dtb_node_match_property_lem}
use lab.Dtb.Tree.{Tree, node, done, gap, more, property, TreeAt, find_node, compared}
use lab.Examples.Text.{byte_at}
use lab.Memory.{Mem, byte_of}
use lab.Prelude.{ℕ, ◌≡◌, refl, some, List, [], ◌∷◌, arith}

-- The header's offset of the strings, at 12, is in the way of a tree at 0, so the tree starts at
-- 40. The strings are at 96, the names "ux" at 100, "u" at 104 and "p" at 96.
abbrev header : List ℕ → List ℕ
header rest =
    0 ∷ 0 ∷ 0 ∷ 0 ∷ 0 ∷ 0 ∷ 0 ∷ 0 ∷ 0 ∷ 0 ∷ 0 ∷ 40 ∷ 0 ∷ 0 ∷ 0 ∷ 96 ∷ 0 ∷ 0 ∷ 0 ∷ 0 ∷ 0 ∷ 0 ∷ 0 ∷ 0
    ∷ 0 ∷ 0 ∷ 0 ∷ 0 ∷ 0 ∷ 0 ∷ 0 ∷ 0 ∷ 0 ∷ 0 ∷ 0 ∷ 0 ∷ 0 ∷ 0 ∷ 0 ∷ 0 ∷ rest

abbrev structure : List ℕ
structure =
    0 ∷ 0 ∷ 0 ∷ 1 ∷ b'r' ∷ 0 ∷ 0 ∷ 0 ∷ 0 ∷ 0 ∷ 0 ∷ 3 ∷ 0 ∷ 0 ∷ 0 ∷ 2 ∷ 0 ∷ 0 ∷ 0 ∷ 0 ∷ 7 ∷ 7 ∷ 0 ∷ 0
    ∷ 0 ∷ 0 ∷ 0 ∷ 1 ∷ b'u' ∷ b'x' ∷ 0 ∷ 0 ∷ 0 ∷ 0 ∷ 0 ∷ 2 ∷ 0 ∷ 0 ∷ 0 ∷ 4 ∷ 0 ∷ 0 ∷ 0 ∷ 2 ∷ 0 ∷ 0
    ∷ 0 ∷ 9 ∷ 0 ∷ 0 ∷ 0 ∷ 0 ∷ 0 ∷ 0 ∷ 0 ∷ 0 ∷ b'p' ∷ 0 ∷ 0 ∷ 0 ∷ b'u' ∷ b'x' ∷ 0 ∷ 0 ∷ b'u' ∷ 0 ∷ []

abbrev pub blob : Mem
blob = byte_at (header structure)

abbrev pub tree : Tree
tree = node (b'r' ∷ []) (property 2 ∷ []) (more (node (b'u' ∷ b'x' ∷ []) [] done) (gap done))

pub tree_TreeAt : TreeAt blob 40 tree
unfolding dtb_read_struct_token be_to_le load32 byte_of token_of
tree_TreeAt = (
  refl,
  (refl, omega arith, refl),
  (refl, refl, tt),
  tt,
  ((refl, (refl, omega arith, (refl, omega arith, refl)), tt, tt, refl), (refl, refl)),
)

dtb_match_node_name_rec_example :
    dtb_match_node_name_rec 20 blob 100 40 ≡ some (outcome 84 (find_node blob 100 40 tree))
unfolding compared
dtb_match_node_name_rec_example =
    dtb_match_node_name_rec_lem 20 blob 100 40 tree tree_TreeAt (omega arith)

-- The search finds the child.
search_finds : find_node blob 100 40 tree ≡ some (node_at 64 2)
unfolding compared
search_finds = refl

-- The search for "u" ends at "r", which `strcmp` takes for equal.
search_mistakes : find_node blob 104 40 tree ≡ some (node_at 40 1)
unfolding compared
search_mistakes = refl

pub slots_SlotsAt : SlotsAt blob 0 48 (filled 2 (b'p' ∷ []) ∷ [])
unfolding dtb_read_struct_token be_to_le load32 byte_of token_of header_get
slots_SlotsAt = (refl, refl, (refl, omega arith, refl), (fdt_begin_node, refl, tt))

dtb_node_match_property_example :
    dtb_node_match_property 9 blob 0 (node_at 40 1) 96
    ≡ some (find_property blob 0 96 48 (filled 2 (b'p' ∷ []) ∷ []))
dtb_node_match_property_example =
    dtb_node_match_property_lem 9 blob 0 96 (node_at 40 1) (filled 2 (b'p' ∷ []) ∷ []) slots_SlotsAt
      (omega arith)
