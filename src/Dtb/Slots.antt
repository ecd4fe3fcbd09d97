-- ===== src/Dtb/Slots.antt =====
-- `dtb_node_match_property`: the first property of a node whose name agrees.
use lab.Dtb.{
  Token, fdt_unknown, fdt_begin_node, fdt_end_node, fdt_prop, fdt_nop, fdt_end, Node, Property,
  no_property, property_at, words, word_at, is_zero, dtb_read_struct_token, match_property_loop,
  dtb_node_match_property,
}
use lab.Dtb.Search.{Stops, strcmp_lem}
use lab.Dtb.Tree.{compared}
use lab.Memory.{Mem}
use lab.Prelude.{
  ℕ, zero, suc, ◌+◌, ◌*◌, ◌<◌, ◌≡◌, refl, Bool, true, false, some, List, [], ◌∷◌, length,
  if◌then◌else◌, arith,
}
use lab.Str.Text.{Text}

-- The properties of a node, by the length of the value and the name, and its FDT_NOPs.
pub data Slot : Type 0 where
  filled : ℕ → List ℕ → Slot
  blank : Slot

module _ (m : Mem) (dtb : ℕ) where
  abbrev pub SlotsAt : ℕ → List Slot → Type 0
  SlotsAt p [] = (t : Token) × (dtb_read_struct_token m p ≡ t) × Stops t
  SlotsAt p (filled len s ∷ slots) =
      (dtb_read_struct_token m p ≡ fdt_prop)
      × (word_at m p 1 ≡ len)
      × Text m ((property_at m dtb p).name) s
      × SlotsAt (p + 12 + 4 * words 64 len) slots
  SlotsAt p (blank ∷ slots) = (dtb_read_struct_token m p ≡ fdt_nop) × SlotsAt (p + 4) slots

  -- The first property whose name agrees with the one at `name`, or the empty one.
  abbrev pub find_property : ℕ → ℕ → List Slot → Property
  find_property name p [] = no_property
  find_property name p (filled len s ∷ slots) =
      let rest = find_property name (p + 12 + 4 * words 64 len) slots in
      if is_zero (compared m ((property_at m dtb p).name) name s) then property_at m dtb p else rest
  find_property name p (blank ∷ slots) = find_property name (p + 4) slots

abbrev pub slots_size : List Slot → ℕ
slots_size [] = 0
slots_size (filled len s ∷ slots) = suc (length s + slots_size slots)
slots_size (blank ∷ slots) = suc (slots_size slots)

module _ (fuel : ℕ) (m : Mem) (dtb p name : ℕ) where
  loop-stop :
      (t : Token)
      → dtb_read_struct_token m p ≡ t
      → Stops t
      → match_property_loop (suc fuel) m dtb p name ≡ some no_property
  unfolding match_property_loop
  loop-stop fdt_unknown e s = rw (e, match_property_loop) refl
  loop-stop fdt_begin_node e s = rw (e, match_property_loop) refl
  loop-stop fdt_end_node e s = rw (e, match_property_loop) refl
  loop-stop fdt_prop e s = absurd s
  loop-stop fdt_nop e s = absurd s
  loop-stop fdt_end e s = rw (e, match_property_loop) refl

  loop-filled :
      (same : Bool) (s : List ℕ) (rest : Property)
      → dtb_read_struct_token m p ≡ fdt_prop
      → Text m ((property_at m dtb p).name) s
      → length s < fuel
      → is_zero (compared m ((property_at m dtb p).name) name s) ≡ same
      → match_property_loop fuel m dtb (p + 12 + 4 * words 64 (word_at m p 1)) name ≡ some rest
      → match_property_loop (suc fuel) m dtb p name
        ≡ some (if same then property_at m dtb p else rest)
  unfolding match_property_loop
  loop-filled true s rest e t lt same later =
      rw (e, match_property_loop, strcmp_lem fuel m ((property_at m dtb p).name) name s t lt, same)
        refl
  loop-filled false s rest e t lt same later =
      rw (e, match_property_loop, strcmp_lem fuel m ((property_at m dtb p).name) name s t lt, same)
        later

match_property_loop_lem :
    (fuel : ℕ) (m : Mem) (dtb p name : ℕ) (slots : List Slot)
    → SlotsAt m dtb p slots
    → slots_size slots < fuel
    → match_property_loop fuel m dtb p name ≡ some (find_property m dtb name p slots)
unfolding match_property_loop
match_property_loop_lem zero m dtb p name slots at lt = absurd (omega arith)
match_property_loop_lem (suc fuel) m dtb p name [] at lt =
    loop-stop fuel m dtb p name at.0 at.1 at.2
match_property_loop_lem (suc fuel) m dtb p name (filled len s ∷ slots) at lt =
    let next = p + 12 + 4 * words 64 len in
    loop-filled fuel m dtb p name (is_zero (compared m ((property_at m dtb p).name) name s)) s
      (find_property m dtb name next slots) at.0 at.2 (omega arith) refl
      (rw at.1 (match_property_loop_lem fuel m dtb next name slots at.3 (omega arith)))
match_property_loop_lem (suc fuel) m dtb p name (blank ∷ slots) at lt =
    rw (at.0, match_property_loop)
      (match_property_loop_lem fuel m dtb (p + 4) name slots at.1 (omega arith))

-- On a node whose properties lie at its `prop_start`, and with more rounds than the properties and
-- their names together, `dtb_node_match_property` ends. The result is the first property whose name
-- agrees by `strcmp` with the name sought, or the property of zeros where there is none.
pub dtb_node_match_property_lem :
    (fuel : ℕ) (m : Mem) (dtb name : ℕ) (node : Node) (slots : List Slot)
    → SlotsAt m dtb node.prop_start slots
    → slots_size slots < fuel
    → dtb_node_match_property fuel m dtb node name
      ≡ some (find_property m dtb name node.prop_start slots)
unfolding dtb_node_match_property
dtb_node_match_property_lem fuel m dtb name node slots at lt =
    match_property_loop_lem fuel m dtb node.prop_start name slots at lt
