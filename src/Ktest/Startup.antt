-- ===== src/Ktest/Startup.antt =====
-- The machine-mode start of the test kernel, src/ktest/startup.c: the boot arguments are taken from
-- the device tree, then the registers are set. The addresses of the string constants and of
-- `kmain` are arguments; the log messages are left out. Memory can be read at every address, which
-- on the machine does not hold for the NULL `prop_start` of a node that was not found.
use lab.Dtb.{
  Node, Property, property_at, words, is_zero, dtb_structs, dtb_strings, dtb_match_node_name,
  dtb_node_match_property,
}
use lab.Dtb.Search.{dtb_match_node_name_rec_lem}
use lab.Dtb.Slots.{
  Slot, filled, blank, SlotsAt, slots_size, find_property, dtb_node_match_property_lem,
}
use lab.Dtb.Tree.{Tree, TreeAt, tree_size, find_node, compared}
use lab.Memory.{Mem}
use lab.Prelude.{
  ℕ, ◌+◌, ◌*◌, ◌<◌, ◌≡◌, refl, ◌≢◌, Bool, true, false, not, Option, none, some, List, [], ◌∷◌, ◌==◌,
  if◌then◌else◌, arith, ne→==,
}
use lab.Startup.{Csrs, mmode_startup, startup_mstatus}

-- The addresses of "chosen", "bootargs" and "".
pub record Constants : Type 0 where
  pub chosen : ℕ
  pub bootargs : ℕ
  pub empty : ℕ

-- `if (prop.name != NULL) ... else ...`
abbrev pub bootargs_of : Constants → Property → ℕ
bootargs_of c prop = if not (prop.name == 0) then prop.value else c.empty

-- The writes of the registers up to `mret`.
abbrev pub set_registers : ℕ → Csrs → Csrs
set_registers kmain c = record c {
  mstatus = startup_mstatus c.mstatus;
  satp = 0;
  medeleg = 0xffffffffffffffff;
  mideleg = 0xffffffffffffffff;
  pmpaddr0 = 0x3fffffffffffffff;
  pmpcfg0 = 0xf;
  mepc = kmain;
}

-- `bootargs` and the registers when `mret` is reached; `none` means that the fuel ran out.
unfoldable pub test_startup : ℕ → Mem → ℕ → Constants → ℕ → Csrs → Option (ℕ × Csrs)
test_startup fuel m kernel_dtb c kmain regs =
    elim (dtb_match_node_name fuel m kernel_dtb c.chosen) [
      | none ↦ none
      | some node ↦ elim (dtb_node_match_property fuel m kernel_dtb node c.bootargs) [
        | none ↦ none
        | some prop ↦ some (bootargs_of c prop, set_registers kmain regs)
      ]
    ]

-- The value of the first property whose name agrees with the one at `name`.
abbrev pub find_value : Mem → ℕ → ℕ → ℕ → List Slot → Option ℕ
find_value m dtb name p [] = none
find_value m dtb name p (filled len s ∷ slots) =
    let rest = find_value m dtb name (p + 12 + 4 * words 64 len) slots in
    if is_zero (compared m ((property_at m dtb p).name) name s) then some (p + 12) else rest
find_value m dtb name p (blank ∷ slots) = find_value m dtb name (p + 4) slots

abbrev pub value_or : ℕ → Option ℕ → ℕ
value_or default none = default
value_or default (some value) = value

-- The name of a property in the blob is not NULL, so that the test for NULL tells whether one was
-- found.
module _ (m : Mem) (dtb : ℕ) (c : Constants) (strings : dtb_strings m dtb ≢ 0) where
  bootargs_of-if :
      (p : ℕ) (same : Bool) (found : Property) (value : Option ℕ)
      → bootargs_of c found ≡ value_or c.empty value
      → bootargs_of c (if same then property_at m dtb p else found)
        ≡ value_or c.empty (if same then some (p + 12) else value)
  bootargs_of-if p true found value e =
      rw (ne→== ((property_at m dtb p).name) 0 (omega (arith, strings))) refl
  bootargs_of-if p false found value e = e

  bootargs_of-find_property :
      (p : ℕ) (slots : List Slot)
      → bootargs_of c (find_property m dtb c.bootargs p slots)
        ≡ value_or c.empty (find_value m dtb c.bootargs p slots)
  bootargs_of-find_property p [] = refl
  bootargs_of-find_property p (filled len s ∷ slots) =
      let next = p + 12 + 4 * words 64 len in
      bootargs_of-if p (is_zero (compared m ((property_at m dtb p).name) c.bootargs s))
        (find_property m dtb c.bootargs next slots) (find_value m dtb c.bootargs next slots)
        (bootargs_of-find_property next slots)
  bootargs_of-find_property p (blank ∷ slots) = bootargs_of-find_property (p + 4) slots

-- The search for a node that is in the tree.
dtb_match_node_name-found :
    (fuel : ℕ) (m : Mem) (dtb name : ℕ) (t : Tree) (node : Node)
    → TreeAt m (dtb_structs m dtb) t
    → tree_size t < fuel
    → find_node m name (dtb_structs m dtb) t ≡ some node
    → dtb_match_node_name fuel m dtb name ≡ some node
unfolding dtb_match_node_name
dtb_match_node_name-found fuel m dtb name t node at lt found =
    rw
      (
        dtb_match_node_name_rec_lem fuel m name (dtb_structs m dtb) t at lt,
        dtb_match_node_name,
        found,
      )
      refl

registers_lem : (kmain : ℕ) (regs : Csrs) → set_registers kmain regs ≡ mmode_startup kmain regs
unfolding mmode_startup
registers_lem kmain regs = refl

-- On a device tree in which a node's name agrees with "chosen", and with rounds enough for the
-- tree and for that node's properties, the start of the test kernel reaches `mret`. `bootargs` is
-- then the value of the node's first property whose name agrees with "bootargs", or the empty text
-- where it has none, and the registers are as the start of the kernel sets them.
pub test_startup_lem :
    (fuel : ℕ) (m : Mem) (dtb : ℕ) (c : Constants) (kmain : ℕ) (regs : Csrs) (t : Tree)
    (node : Node) (slots : List Slot)
    → dtb_strings m dtb ≢ 0
    → TreeAt m (dtb_structs m dtb) t
    → find_node m c.chosen (dtb_structs m dtb) t ≡ some node
    → SlotsAt m dtb node.prop_start slots
    → tree_size t < fuel
    → slots_size slots < fuel
    → test_startup fuel m dtb c kmain regs
      ≡ some (
        value_or c.empty (find_value m dtb c.bootargs node.prop_start slots),
        mmode_startup kmain regs,
      )
unfolding test_startup
test_startup_lem fuel m dtb c kmain regs t node slots strings at found slots_at lt lt' =
    rw
      (
        dtb_match_node_name-found fuel m dtb c.chosen t node at lt found,
        test_startup,
        dtb_node_match_property_lem fuel m dtb c.bootargs node slots slots_at lt',
        bootargs_of-find_property m dtb c strings node.prop_start slots,
        registers_lem kmain regs,
      )
      refl
