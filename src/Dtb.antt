-- ===== src/Dtb.antt =====
-- The device tree reader of src/dtb.c: tokens, the search for a node and the properties of a node.
-- The blob lies in memory, its words big-endian. A `u32 *` is its address, and moves by 4.
pub mod Tree
pub mod Search
pub mod Slots
pub mod Words
pub mod TokenNames
pub mod Dump
pub mod DumpText
use lab.Memory.{Mem, byte_of}
use lab.Prelude.{
  ℕ, zero, suc, ◌+◌, ◌-◌, ◌*◌, ◌/◌, ◌%◌, ◌^◌, Bool, true, false, Option, none, some, ◌==◌,
  if◌then◌else◌, ℤ, pos, negsuc,
}
use lab.Str.{strlen, strcmp}

-- `*(u32 *)p` on RV64, which is little-endian.
unfoldable pub load32 : Mem → ℕ → ℕ
load32 m a = m a + m (a + 1) * 2 ^ 8 + m (a + 2) * 2 ^ 16 + m (a + 3) * 2 ^ 24

-- The bytes of a word in the opposite order.
unfoldable pub be_to_le : ℕ → ℕ
unfolding byte_of
be_to_le be = byte_of be 3 + byte_of be 2 * 2 ^ 8 + byte_of be 1 * 2 ^ 16 + byte_of be 0 * 2 ^ 24

-- `struct dtb_header` by the offsets of its fields, each a u32.
pub data Field : Type 0 where
  magic : Field
  totalsize : Field
  off_dt_struct : Field
  off_dt_strings : Field
  off_mem_rsvmap : Field
  version : Field
  last_comp_version : Field
  boot_cpuid_phys : Field
  size_dt_strings : Field
  size_dt_struct : Field

abbrev pub offset_of : Field → ℕ
offset_of magic = 0
offset_of totalsize = 4
offset_of off_dt_struct = 8
offset_of off_dt_strings = 12
offset_of off_mem_rsvmap = 16
offset_of version = 20
offset_of last_comp_version = 24
offset_of boot_cpuid_phys = 28
offset_of size_dt_strings = 32
offset_of size_dt_struct = 36

unfoldable pub header_get : Mem → ℕ → Field → ℕ
unfolding be_to_le load32
header_get m dtb field = be_to_le (load32 m (dtb + offset_of field))

abbrev pub dtb_strings : Mem → ℕ → ℕ
dtb_strings m dtb = dtb + header_get m dtb off_dt_strings

abbrev pub dtb_structs : Mem → ℕ → ℕ
dtb_structs m dtb = dtb + header_get m dtb off_dt_struct

pub data Token : Type 0 where
  fdt_unknown : Token
  fdt_begin_node : Token
  fdt_end_node : Token
  fdt_prop : Token
  fdt_nop : Token
  fdt_end : Token

unfoldable pub token_of : ℕ → Token
token_of word =
    if word == 1
    then fdt_begin_node
    else if word == 2
    then fdt_end_node
    else if word == 3
    then fdt_prop
    else if word == 4
    then fdt_nop
    else if word == 5
    then fdt_end
    else fdt_unknown

unfoldable pub dtb_read_struct_token : Mem → ℕ → Token
unfolding be_to_le load32 token_of
dtb_read_struct_token m ptr = token_of (be_to_le (load32 m ptr))

-- `struct dtb_node`, where a pointer is its address and 0 is NULL.
pub record Node : Type 0 where
  pub name : ℕ
  pub start : ℕ
  pub end_ptr : ℕ
  pub prop_start : ℕ

abbrev pub no_node : Node
no_node = record { name = 0; start = 0; end_ptr = 0; prop_start = 0 }

pub record SearchResult : Type 0 where
  pub matched : Bool
  pub node : Node
  pub ptr : ℕ

pub record Property : Type 0 where
  pub name : ℕ
  pub len : ℕ
  pub value : ℕ

abbrev pub no_property : Property
no_property = record { name = 0; len = 0; value = 0 }

-- `DIV_ROUND_UP(num, 4)` in words of `bits` bits.
abbrev pub words : ℕ → ℕ → ℕ
words bits num = (num + 3) % 2 ^ bits / 4

abbrev pub is_zero : ℤ → Bool
is_zero (pos zero) = true
is_zero (pos (suc n)) = false
is_zero (negsuc n) = false

-- `be_to_le(*ptr)` at the `i`-th word from `ptr`.
abbrev pub word_at : Mem → ℕ → ℕ → ℕ
word_at m ptr i = be_to_le (load32 m (ptr + 4 * i))

-- The first loop of `dtb_match_node_name_rec`: properties and FDT_NOPs are passed over. `len` is
-- a u32, so its rounding wraps at 32 bits.
unfoldable pub skip_properties : ℕ → Mem → ℕ → Option ℕ
unfolding dtb_read_struct_token
skip_properties zero m ptr = none
skip_properties (suc fuel) m ptr = elim (dtb_read_struct_token m ptr) [
  | fdt_prop ↦ skip_properties fuel m (ptr + 12 + 4 * words 32 (word_at m ptr 1))
  | fdt_nop ↦ skip_properties fuel m (ptr + 4)
  | fdt_unknown ↦ some ptr
  | fdt_begin_node ↦ some ptr
  | fdt_end_node ↦ some ptr
  | fdt_end ↦ some ptr
]

-- `node.prop_start`: behind the name, its NUL and the padding.
abbrev pub behind_name : ℕ → ℕ → ℕ
behind_name ptr len = ptr + 4 + 4 * words 64 (len + 1)

abbrev pub node_at : ℕ → ℕ → Node
node_at ptr len = record {
  name = ptr + 4;
  start = ptr;
  end_ptr = 0;
  prop_start = behind_name ptr len;
}

unfoldable mutual
  -- `none` means that the fuel ran out.
  pub dtb_match_node_name_rec : ℕ → Mem → ℕ → ℕ → Option SearchResult
  dtb_match_node_name_rec zero m name ptr = none
  dtb_match_node_name_rec (suc fuel) m name ptr = elim (dtb_read_struct_token m ptr) [
    | fdt_begin_node ↦ elim (strlen fuel m (ptr + 4)) [
      | none ↦ none
      | some len ↦ elim (strcmp fuel m (ptr + 4) name) [
        | none ↦ none
        | some difference ↦ elim (is_zero difference) [
          | true ↦ some (record { matched = true; node = node_at ptr len; ptr = ptr + 4 })
          | false ↦ elim (skip_properties fuel m (behind_name ptr len)) [
            | none ↦ none
            | some ptr' ↦
                visit_children fuel m name (record { matched = false; node = no_node; ptr = 0 })
                  ptr'
          ]
        ]
      ]
    ]
    | fdt_unknown ↦ some (record { matched = false; node = no_node; ptr = ptr })
    | fdt_end_node ↦ some (record { matched = false; node = no_node; ptr = ptr })
    | fdt_prop ↦ some (record { matched = false; node = no_node; ptr = ptr })
    | fdt_nop ↦ some (record { matched = false; node = no_node; ptr = ptr })
    | fdt_end ↦ some (record { matched = false; node = no_node; ptr = ptr })
  ]

  -- The second loop, with what follows it; `result` is the local variable.
  pub visit_children : ℕ → Mem → ℕ → SearchResult → ℕ → Option SearchResult
  visit_children zero m name result ptr = none
  visit_children (suc fuel) m name result ptr = elim (dtb_read_struct_token m ptr) [
    | fdt_nop ↦ visit_children fuel m name result (ptr + 4)
    | fdt_begin_node ↦ elim (dtb_match_node_name_rec fuel m name ptr) [
      | none ↦ none
      | some result' ↦ elim (result'.matched) [
        | true ↦ some result'
        | false ↦ visit_children fuel m name result' (result'.ptr)
      ]
    ]
    | fdt_end_node ↦ some (record result { matched = false; ptr = ptr + 4 })
    | fdt_unknown ↦ some (record result { matched = false; ptr = ptr })
    | fdt_prop ↦ some (record result { matched = false; ptr = ptr })
    | fdt_end ↦ some (record result { matched = false; ptr = ptr })
  ]

unfoldable pub dtb_match_node_name : ℕ → Mem → ℕ → ℕ → Option Node
unfolding dtb_match_node_name_rec
dtb_match_node_name fuel m dtb name =
    elim (dtb_match_node_name_rec fuel m name (dtb_structs m dtb)) [
      | none ↦ none
      | some result ↦ some (if result.matched then result.node else no_node)
    ]

-- The property at `ptr`.
abbrev pub property_at : Mem → ℕ → ℕ → Property
property_at m dtb ptr = record {
  name = dtb_strings m dtb + word_at m ptr 2;
  len = word_at m ptr 1;
  value = ptr + 12;
}

-- The loop of `dtb_node_match_property`, from `node->prop_start`. `prop.len` is a `size_t`, so its
-- rounding wraps at 64 bits.
unfoldable pub match_property_loop : ℕ → Mem → ℕ → ℕ → ℕ → Option Property
match_property_loop zero m dtb ptr name = none
match_property_loop (suc fuel) m dtb ptr name = elim (dtb_read_struct_token m ptr) [
  | fdt_prop ↦ elim (strcmp fuel m ((property_at m dtb ptr).name) name) [
    | none ↦ none
    | some difference ↦ elim (is_zero difference) [
      | true ↦ some (property_at m dtb ptr)
      | false ↦ match_property_loop fuel m dtb (ptr + 12 + 4 * words 64 (word_at m ptr 1)) name
    ]
  ]
  | fdt_nop ↦ match_property_loop fuel m dtb (ptr + 4) name
  | fdt_unknown ↦ some no_property
  | fdt_begin_node ↦ some no_property
  | fdt_end_node ↦ some no_property
  | fdt_end ↦ some no_property
]

unfoldable pub dtb_node_match_property : ℕ → Mem → ℕ → Node → ℕ → Option Property
unfolding match_property_loop
dtb_node_match_property fuel m dtb node name = match_property_loop fuel m dtb node.prop_start name
