-- ===== src/Dtb/DumpText.antt =====
-- What `dtb_dump_header` sends to the device.
use Prim.Native.String.{String}
use lab.Dtb.{
  Field, magic, totalsize, off_dt_struct, off_dt_strings, off_mem_rsvmap, version,
  last_comp_version, boot_cpuid_phys, size_dt_strings, size_dt_struct, offset_of, header_get,
}
use lab.Dtb.Words.{be_to_le-load32}
use lab.Memory.{Mem, store8}
use lab.Prelude.{
  ℕ, ◌+◌, ◌*◌, ◌^◌, ◌≤◌, ◌<◌, ◌≡◌, refl, ◌≢◌, List, [], ◌∷◌, ◌++◌, map, length, length-append,
  arith, ap, sym, ◌∙◌, ltb, if◌then◌else◌,
}
use lab.Printf.{printed, vprintk, printk_buf_size}
use lab.Printf.Device.{vprintk_lem}
use lab.Printf.Emit.{emit}
use lab.Printf.Items.{
  Item, character, hexadecimal, numeral, numeral_lem, format_of, rendered, arguments, Away,
  AreItems,
}
use lab.Str.Text.{Text}
use lab.Dtb.Dump.{log_trace, codes, labels, dump_format, fields, dtb_dump_header, big_endian, shown}

-- The message as items.
abbrev items : List String → List ℕ → List Item
items [] numbers = []
items (label ∷ rest) [] = []
items (label ∷ rest) (n ∷ numbers) =
    map character (codes label) ++ (hexadecimal n ∷ character 10 ∷ items rest numbers)

-- A label in front of other items.
abbrev Plain : List ℕ → Type 0
Plain [] = Unit {0}
Plain (c ∷ cs) = ((c ≢ 0) × (c ≢ b'%') × (c < 256)) × Plain cs

AreItems-label :
    (m : Mem) (buf size : ℕ) (cs : List ℕ) (xs : List Item)
    → Plain cs
    → AreItems m buf size xs
    → AreItems m buf size (map character cs ++ xs)
AreItems-label m buf size [] xs plain are = are
AreItems-label m buf size (c ∷ cs) xs plain are =
    (plain.0, AreItems-label m buf size cs xs plain.1 are)

rendered-label :
    (cs : List ℕ) (xs : List Item) → rendered (map character cs ++ xs) ≡ cs ++ rendered xs
rendered-label [] xs = refl
rendered-label (c ∷ cs) xs = ap (λ (s : List ℕ). c ∷ s) (rendered-label cs xs)

format_of-label :
    (cs : List ℕ) (xs : List Item) → format_of (map character cs ++ xs) ≡ cs ++ format_of xs
format_of-label [] xs = refl
format_of-label (c ∷ cs) xs = ap (λ (s : List ℕ). c ∷ s) (format_of-label cs xs)

arguments-label : (cs : List ℕ) (xs : List Item) → arguments (map character cs ++ xs) ≡ arguments xs
arguments-label [] xs = refl
arguments-label (c ∷ cs) xs = arguments-label cs xs

-- As many numbers as labels, each a u64.
abbrev Numbers : List String → List ℕ → Type 0
Numbers [] [] = Unit {0}
Numbers [] (n ∷ numbers) = ⊥
Numbers (label ∷ rest) [] = ⊥
Numbers (label ∷ rest) (n ∷ numbers) = (n < 2 ^ 64) × Plain (codes label) × Numbers rest numbers

items-AreItems :
    (m : Mem) (buf size : ℕ) (ls : List String) (ns : List ℕ)
    → Numbers ls ns
    → AreItems m buf size (items ls ns)
items-AreItems m buf size [] [] h = tt
items-AreItems m buf size [] (n ∷ ns) h = absurd h
items-AreItems m buf size (l ∷ ls) [] h = absurd h
items-AreItems m buf size (l ∷ ls) (n ∷ ns) h =
    AreItems-label m buf size (codes l) (hexadecimal n ∷ character 10 ∷ items ls ns) h.1
      (h.0, ((omega arith, omega arith, omega arith), items-AreItems m buf size ls ns h.2))

rendered-items :
    (ls : List String) (ns : List ℕ) → Numbers ls ns → rendered (items ls ns) ≡ shown ls ns
rendered-items [] [] h = refl
rendered-items [] (n ∷ ns) h = absurd h
rendered-items (l ∷ ls) [] h = absurd h
rendered-items (l ∷ ls) (n ∷ ns) h =
    rendered-label (codes l) (hexadecimal n ∷ character 10 ∷ items ls ns)
    ∙ ap (λ (s : List ℕ). codes l ++ (numeral 16 n ++ (10 ∷ s))) (rendered-items ls ns h.2)

format_of-items :
    (ls : List String) (ns : List ℕ) → Numbers ls ns → format_of (items ls ns) ≡ dump_format ls
format_of-items [] [] h = refl
format_of-items [] (n ∷ ns) h = absurd h
format_of-items (l ∷ ls) [] h = absurd h
format_of-items (l ∷ ls) (n ∷ ns) h =
    format_of-label (codes l) (hexadecimal n ∷ character 10 ∷ items ls ns)
    ∙ ap (λ (s : List ℕ). codes l ++ (b'%' ∷ b'x' ∷ 10 ∷ s)) (format_of-items ls ns h.2)

arguments-items : (ls : List String) (ns : List ℕ) → Numbers ls ns → arguments (items ls ns) ≡ ns
arguments-items [] [] h = refl
arguments-items [] (n ∷ ns) h = absurd h
arguments-items (l ∷ ls) [] h = absurd h
arguments-items (l ∷ ls) (n ∷ ns) h =
    arguments-label (codes l) (hexadecimal n ∷ character 10 ∷ items ls ns)
    ∙ ap (λ (s : List ℕ). n ∷ s) (arguments-items ls ns h.2)

-- A line is at most 21 characters longer than its label.
length-shown :
    (ls : List String) (ns : List ℕ)
    → Numbers ls ns
    → length (shown ls ns) ≤ 19 * length ls + length (dump_format ls)
length-shown [] [] h = omega arith
length-shown [] (n ∷ ns) h = absurd h
length-shown (l ∷ ls) [] h = absurd h
length-shown (l ∷ ls) (n ∷ ns) h = omega (
  arith,
  length-shown ls ns h.2,
  (numeral_lem 16 n h.0 (omega arith) (omega arith)).short,
  length-append (codes l) (numeral 16 n ++ (10 ∷ shown ls ns)),
  length-append (numeral 16 n) (10 ∷ shown ls ns),
  length-append (codes l) (b'%' ∷ b'x' ∷ 10 ∷ dump_format ls),
)

module _ (vararg : ℕ → ℕ) (small : (v : ℕ) → vararg v < 2 ^ 64) (m : Mem) (dtb : ℕ)
    (bytes : (x : ℕ) → m x < 256) (fits : dtb < 2 ^ 64) where
  abbrev header_numbers : List ℕ
  header_numbers = dtb ∷ map (λ field. vararg (big_endian m (dtb + offset_of field))) fields

  header_numbers-Numbers : Numbers labels header_numbers
  header_numbers-Numbers =
      let n = λ (field : Field). small (big_endian m (dtb + offset_of field)) in
      (
        fits,
        omega arith,
        (
          n magic,
          omega arith,
          (
            n totalsize,
            omega arith,
            (
              n off_dt_struct,
              omega arith,
              (
                n off_dt_strings,
                omega arith,
                (
                  n off_mem_rsvmap,
                  omega arith,
                  (
                    n version,
                    omega arith,
                    (
                      n last_comp_version,
                      omega arith,
                      (
                        n boot_cpuid_phys,
                        omega arith,
                        (n size_dt_strings, omega arith, (n size_dt_struct, omega arith, tt)),
                      ),
                    ),
                  ),
                ),
              ),
            ),
          ),
        ),
      )

  field_read : (field : Field) → header_get m dtb field ≡ big_endian m (dtb + offset_of field)
  unfolding header_get
  field_read field =
      let a : ℕ = dtb + offset_of field in
      be_to_le-load32 m a (bytes a) (bytes (a + 1)) (bytes (a + 2)) (bytes (a + 3))

  numbers_read :
      (fs : List Field)
      → map (λ field. vararg (header_get m dtb field)) fs
        ≡ map (λ field. vararg (big_endian m (dtb + offset_of field))) fs
  numbers_read [] = refl
  numbers_read (f ∷ fs) =
      rw (field_read f)
        (ap (λ (ns : List ℕ). vararg (big_endian m (dtb + offset_of f)) ∷ ns) (numbers_read fs))

-- A message by its arguments, its text and its format.
vprintk-message :
    (fuel current_level g_buf : ℕ) (m : Mem) (level fmt : ℕ) (xs : List Item)
    (args text format : List ℕ)
    → arguments xs ≡ args
    → rendered xs ≡ text
    → format_of xs ≡ format
    → AreItems m g_buf printk_buf_size xs
    → Text m fmt format
    → Away fmt (length format) g_buf printk_buf_size
    → length text < printk_buf_size
    → 2 * length format < fuel
    → length text < fuel
    → (m' : Mem) × (vprintk fuel current_level g_buf m level fmt args
        ≡ (if ltb current_level level then printed m [] else printed m' text))
vprintk-message fuel current_level g_buf m level fmt xs args text format e0 e1 e2 are t away room
      enough enough' =
    let m' = store8 (emit m g_buf (rendered xs)) (g_buf + length (rendered xs)) 0 in
    (
      m',
      ap (λ (given : List ℕ). vprintk fuel current_level g_buf m level fmt given) (sym e0)
          ∙ (vprintk_lem fuel current_level g_buf m level fmt xs (rw e2 t) are (rw e2 away)
                (rw e1 room) (rw e2 enough) (rw e1 enough')
              ∙ ap (λ (s : List ℕ). if ltb current_level level then printed m [] else printed m' s)
                  e1),
    )

-- On memory of bytes, with the format of the message at `fmt` away from the buffer, and whatever u64
-- a u32 argument is read as: below the level of traces `dtb_dump_header` sends nothing. From it on it
-- ends, and sends eleven lines: each label with its number in base 16, the address of the header
-- first, and then the big-endian numbers in the ten fields of the header, in the order of the format.
pub dtb_dump_header_lem :
    (vararg : ℕ → ℕ) (fuel current_level g_buf : ℕ) (m : Mem) (fmt dtb : ℕ)
    → ((v : ℕ) → vararg v < 2 ^ 64)
    → ((x : ℕ) → m x < 256)
    → dtb < 2 ^ 64
    → Text m fmt (dump_format labels)
    → Away fmt (length (dump_format labels)) g_buf printk_buf_size
    → 500 < fuel
    → (m' : Mem) × (dtb_dump_header vararg fuel current_level g_buf m fmt dtb ≡ (
        if ltb current_level log_trace
        then printed m []
        else printed m' (
            shown labels
              (dtb ∷ map (λ field. vararg (big_endian m (dtb + offset_of field))) fields))))
unfolding dtb_dump_header
dtb_dump_header_lem vararg fuel current_level g_buf m fmt dtb small bytes fits t away enough =
    let ns = header_numbers vararg small m dtb bytes fits in
    let numbers = header_numbers-Numbers vararg small m dtb bytes fits in
    let bound = length-shown labels ns numbers in
    let room : length (shown labels ns) < 500 = omega (arith, bound) in
    vprintk-message fuel current_level g_buf m log_trace fmt (items labels ns)
      (dtb ∷ map (λ field. vararg (header_get m dtb field)) fields) (shown labels ns)
      (dump_format labels)
      (arguments-items labels ns numbers
        ∙ ap (λ (rest : List ℕ). dtb ∷ rest)
            (sym (numbers_read vararg small m dtb bytes fits fields)))
      (rendered-items labels ns numbers) (format_of-items labels ns numbers)
      (items-AreItems m g_buf printk_buf_size labels ns numbers) t away (omega (arith, room))
      (omega arith) (omega (arith, room))
