-- ===== src/Printf/Device.antt =====
-- `vprintk`: what reaches the serial device is the rendered message.
use lab.Memory.{Mem, store8}
use lab.Prelude.{
  ℕ, zero, suc, ◌+◌, ◌*◌, ◌<◌, ◌≡◌, refl, some, List, [], ◌∷◌, length, arith, if◌then◌else◌, ltb,
  eq→==, ne→==,
}
use lab.Printf.{print, printk_buf_size, printed, print_result, vprintk}
use lab.Printf.Emit.{emit, Chars-append, Text-written}
use lab.Printf.Items.{
  Item, character, decimal, hexadecimal, inserted, escaped, numeral_lem, text_of, format_of,
  rendered, arguments, Away, IsItem, AreItems,
}
use lab.Printf.Number.{Chars}
use lab.Printf.Render.{vsnprintf_lem}
use lab.Str.Text.{Text}

-- `print` sends a text without its NUL.
pub print_lem :
    (fuel : ℕ) (m : Mem) (p : ℕ) (s : List ℕ)
    → Text m p s
    → length s < fuel
    → print fuel m p ≡ some s
unfolding print
print_lem zero m p s t lt = absurd (omega arith)
print_lem (suc fuel) m p [] t lt = rw (eq→== (m p) 0 t) refl
print_lem (suc fuel) m p (c ∷ s) t lt =
    rw (ne→== (m p) 0 (rw t.0 t.1), print_lem fuel m (p + 1) s t.2 (omega arith), t.0) refl

text_of-Chars : (m : Mem) (buf size : ℕ) (x : Item) → IsItem m buf size x → Chars (text_of x)
text_of-Chars m buf size (character c) h = (h.0, h.2, tt)
text_of-Chars m buf size (decimal n) h = (numeral_lem 10 n h (omega arith) (omega arith)).chars
text_of-Chars m buf size (hexadecimal n) h = (numeral_lem 16 n h (omega arith) (omega arith)).chars
text_of-Chars m buf size (inserted p s) h = h.1
text_of-Chars m buf size (escaped c) h = (h.0, h.5, tt)

rendered-Chars :
    (m : Mem) (buf size : ℕ) (xs : List Item) → AreItems m buf size xs → Chars (rendered xs)
rendered-Chars m buf size [] h = tt
rendered-Chars m buf size (x ∷ xs) h =
    Chars-append (text_of x) (rendered xs) (text_of-Chars m buf size x h.0)
      (rendered-Chars m buf size xs h.1)

-- For a message of characters, numbers, inserted texts and escaped characters, whose rendered text is
-- shorter than the buffer and whose format and texts stand away from it, and with fuel of more than
-- twice the length of the format and more than that of the rendered text: if its level is above the
-- current level, nothing is sent and nothing changes. Otherwise it is sent whole: `vprintk` ends, the
-- buffer holds the rendered text, and the bytes that the device gets are this text.
pub vprintk_lem :
    (fuel current_level g_buf : ℕ) (m : Mem) (level fmt : ℕ) (xs : List Item)
    → Text m fmt (format_of xs)
    → AreItems m g_buf printk_buf_size xs
    → Away fmt (length (format_of xs)) g_buf printk_buf_size
    → length (rendered xs) < printk_buf_size
    → 2 * length (format_of xs) < fuel
    → length (rendered xs) < fuel
    → vprintk fuel current_level g_buf m level fmt (arguments xs) ≡ (
        if ltb current_level level
        then printed m []
        else printed
            (store8 (emit m g_buf (rendered xs)) (g_buf + length (rendered xs)) 0)
            (rendered xs))
unfolding vprintk print_result
vprintk_lem fuel current_level g_buf m level fmt xs t items away room enough enough' =
    rw
      (
        vsnprintf_lem fuel m g_buf printk_buf_size fmt xs t items away (omega arith) (omega arith)
            room enough,
        print_result,
        print_lem fuel (store8 (emit m g_buf (rendered xs)) (g_buf + length (rendered xs)) 0) g_buf
            (rendered xs)
            (Text-written m g_buf (g_buf + length (rendered xs)) (rendered xs)
              (rendered-Chars m g_buf printk_buf_size xs items) refl)
            enough',
      )
      refl
