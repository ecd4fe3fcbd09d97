-- ===== src/Examples/Dumped.antt =====
-- The dump of a header, with the sign extension that the RISC-V calling convention has for a u32.
use lab.Dtb.Dump.{labels, dump_format, fields, big_endian, shown, dtb_dump_header, log_trace}
use lab.Dtb.{offset_of}
use lab.Dtb.DumpText.{dtb_dump_header_lem}
use lab.Examples.Strings.{is_text-Text, byte_at-bytes}
use lab.Examples.Text.{byte_at}
use lab.Memory.{Mem}
use lab.Prelude.{
  ℕ, ◌+◌, ◌-◌, ◌%◌, ◌^◌, ◌<◌, ◌≡◌, refl, inl, List, [], ◌∷◌, ◌++◌, map, arith, ltb, if◌then◌else◌,
}
use lab.Printf.{printed}

-- A header at 0: magic, a total size of 72, the structure at 56 and the strings at 64, version 17.
abbrev header_bytes : List ℕ
header_bytes =
    0xd0 ∷ 0x0d ∷ 0xfe ∷ 0xed ∷ 0 ∷ 0 ∷ 0 ∷ 72 ∷ 0 ∷ 0 ∷ 0 ∷ 56 ∷ 0 ∷ 0 ∷ 0 ∷ 64 ∷ 0 ∷ 0 ∷ 0 ∷ 40
    ∷ 0 ∷ 0 ∷ 0 ∷ 17 ∷ 0 ∷ 0 ∷ 0 ∷ 16 ∷ 0 ∷ 0 ∷ 0 ∷ 0 ∷ 0 ∷ 0 ∷ 0 ∷ 8 ∷ 0 ∷ 0 ∷ 0 ∷ 8 ∷ []

-- The format stands behind it, at 40.
abbrev with_format : Mem
with_format = byte_at (header_bytes ++ dump_format labels)

abbrev sign_extended : ℕ → ℕ
sign_extended v = if ltb (v % 2 ^ 32) (2 ^ 31) then v % 2 ^ 32 else v % 2 ^ 32 + (2 ^ 64 - 2 ^ 32)

sign_extended-lt : (v : ℕ) → sign_extended v < 2 ^ 64
sign_extended-lt v = ground arith

dtb_dump_header_example :
    (m' : Mem) × (dtb_dump_header sign_extended 501 5 1000 with_format 40 0 ≡ (
      if ltb 5 log_trace
      then printed with_format []
      else printed m' (
          shown labels (
            0
            ∷ map (λ field. sign_extended (big_endian with_format (0 + offset_of field))) fields))))
dtb_dump_header_example =
    dtb_dump_header_lem sign_extended 501 5 1000 with_format 40 0 sign_extended-lt
      (byte_at-bytes (header_bytes ++ dump_format labels) refl) (omega arith)
      (is_text-Text with_format 40 (dump_format labels) refl) (inl (omega arith)) (omega arith)

-- The magic shows with its sign extended.
shows_magic : sign_extended (big_endian with_format 0) ≡ 0xffffffffd00dfeed
shows_magic = refl
