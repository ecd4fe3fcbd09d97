-- ===== src/Dtb/TokenNames.antt =====
-- `dtb_struct_token_str` of src/dtb.c.
use lab.Dtb.{Token, fdt_unknown, fdt_begin_node, fdt_end_node, fdt_prop, fdt_nop, fdt_end}
use lab.Prelude.{ℕ, List, [], ◌∷◌}

-- The text that the log shows for a token.
abbrev pub dtb_struct_token_str : Token → List ℕ
dtb_struct_token_str fdt_begin_node =
    b'F' ∷ b'D' ∷ b'T' ∷ b'_' ∷ b'B' ∷ b'E' ∷ b'G' ∷ b'I' ∷ b'N' ∷ b'_' ∷ b'N' ∷ b'O' ∷ b'D' ∷ b'E'
    ∷ []
dtb_struct_token_str fdt_end_node =
    b'F' ∷ b'D' ∷ b'T' ∷ b'_' ∷ b'E' ∷ b'N' ∷ b'D' ∷ b'_' ∷ b'N' ∷ b'O' ∷ b'D' ∷ b'E' ∷ []
dtb_struct_token_str fdt_prop = b'F' ∷ b'D' ∷ b'T' ∷ b'_' ∷ b'P' ∷ b'R' ∷ b'O' ∷ b'P' ∷ []
dtb_struct_token_str fdt_nop = b'F' ∷ b'D' ∷ b'T' ∷ b'_' ∷ b'N' ∷ b'O' ∷ b'P' ∷ []
dtb_struct_token_str fdt_end = b'F' ∷ b'D' ∷ b'T' ∷ b'_' ∷ b'E' ∷ b'N' ∷ b'D' ∷ []
dtb_struct_token_str fdt_unknown =
    b'F' ∷ b'D' ∷ b'T' ∷ b'_' ∷ b'U' ∷ b'N' ∷ b'K' ∷ b'N' ∷ b'O' ∷ b'W' ∷ b'N' ∷ []
