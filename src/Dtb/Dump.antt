-- ===== src/Dtb/Dump.antt =====
-- `dtb_dump_header` of src/dtb.c. `DTB_HEADER_GET` gives u32 values, which `vsnprintf` takes off the
-- argument list as u64 values: what it finds there is the calling convention's, a parameter.
use Prim.Native.Char.{code}
use Prim.Native.String.{String}
use lab.Dtb.{
  Field, magic, totalsize, off_dt_struct, off_dt_strings, off_mem_rsvmap, version,
  last_comp_version, boot_cpuid_phys, size_dt_strings, size_dt_struct, header_get,
}
use lab.Memory.{Mem}
use lab.Prelude.{ℕ, ◌+◌, ◌*◌, ◌^◌, List, [], ◌∷◌, ◌++◌, map}
use lab.Printf.{Printed, vprintk}
use lab.Printf.Items.{numeral}

abbrev pub log_trace : ℕ
log_trace = 5

abbrev pub codes : String → List ℕ
codes String.[] = []
codes (String.◌∷◌ c s) = code c ∷ codes s

-- The lines of the message, each up to its number.
abbrev pub labels : List String
labels =
    "dtb header at 0x" ∷ "magic: 0x" ∷ "totalsize: 0x" ∷ "off_dt_struct: 0x" ∷ "off_dt_strings: 0x"
    ∷ "off_mem_rsvmap: 0x" ∷ "version: 0x" ∷ "last_comp_version: 0x" ∷ "boot_cpuid_phys: 0x"
    ∷ "size_dt_strings: 0x" ∷ "size_dt_struct: 0x" ∷ []

-- The format: `%x` and a line feed behind each label.
abbrev pub dump_format : List String → List ℕ
dump_format [] = []
dump_format (label ∷ rest) = codes label ++ (b'%' ∷ b'x' ∷ 10 ∷ dump_format rest)

abbrev pub fields : List Field
fields =
    magic ∷ totalsize ∷ off_dt_struct ∷ off_dt_strings ∷ off_mem_rsvmap ∷ version
    ∷ last_comp_version ∷ boot_cpuid_phys ∷ size_dt_strings ∷ size_dt_struct ∷ []

-- `trace(…)` with the format at `fmt`; `vararg` is how a u32 argument is read as a u64.
unfoldable pub dtb_dump_header : (ℕ → ℕ) → ℕ → ℕ → ℕ → Mem → ℕ → ℕ → Printed
dtb_dump_header vararg fuel current_level g_buf m fmt dtb =
    vprintk fuel current_level g_buf m log_trace fmt
      (dtb ∷ map (λ field. vararg (header_get m dtb field)) fields)

-- The big-endian number in the four bytes of a field.
abbrev pub big_endian : Mem → ℕ → ℕ
big_endian m a = m a * 2 ^ 24 + m (a + 1) * 2 ^ 16 + m (a + 2) * 2 ^ 8 + m (a + 3)

-- Each label with its number in base 16, and a line feed.
abbrev pub shown : List String → List ℕ → List ℕ
shown [] numbers = []
shown (label ∷ rest) [] = []
shown (label ∷ rest) (n ∷ numbers) = codes label ++ (numeral 16 n ++ (10 ∷ shown rest numbers))
