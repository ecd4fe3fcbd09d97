-- ===== src/Examples/Format.antt =====
-- The formatter on small numbers and texts.
use lab.Examples.Text.{byte_at, small}
use lab.Memory.{Mem, store8}
use lab.Prelude.{◌+◌, ◌≡◌, refl, List, [], ◌∷◌, length, arith, inl}
use lab.Printf.{
  number, vsnprintf, vprintk, formatted, printed, digit, fill_digits, backwards, push_back,
}
use lab.Printf.Device.{vprintk_lem}
use lab.Printf.Emit.{emit}
use lab.Printf.Items.{Item, character, decimal, inserted, rendered, arguments, numeral}
use lab.Printf.Literal.{IsLiteral, vsnprintf-Literal}
use lab.Printf.Render.{vsnprintf_lem}
use lab.Printf.Write.{IsNumber, number_lem}

number_example : IsNumber small 100 48879 16 (number small 100 4096 48879 16)
number_example =
    number_lem small 100 4096 48879 16 (omega arith) (omega arith) (omega arith) (omega arith)
      (omega arith)

-- "ab" is copied to a buffer of two bytes, so its NUL stands behind the buffer.
vsnprintf-Literal_example : IsLiteral small 100 (b'a' ∷ b'b' ∷ []) (vsnprintf 3 small 100 2 1 [])
vsnprintf-Literal_example =
    vsnprintf-Literal 3 small 100 2 1 [] (b'a' ∷ b'b' ∷ []) (omega arith) (omega arith)
      (omega arith) (inl (omega arith)) (omega arith)

-- The format "n=%d %s" at 20, and the text "ab" of `small` at 1.
abbrev noted : Mem
noted = byte_at (
    0 ∷ b'a' ∷ b'b' ∷ 0 ∷ 0 ∷ 0 ∷ 0 ∷ 0 ∷ 0 ∷ 0 ∷ 0 ∷ 0 ∷ 0 ∷ 0 ∷ 0 ∷ 0 ∷ 0 ∷ 0 ∷ 0 ∷ 0 ∷ b'n'
    ∷ b'=' ∷ b'%' ∷ b'd' ∷ b' ' ∷ b'%' ∷ b's' ∷ 0 ∷ [])

abbrev message : List Item
message =
    character b'n'
    ∷ character b'='
    ∷ decimal 42
    ∷ character b' '
    ∷ inserted 1 (b'a' ∷ b'b' ∷ [])
    ∷ []

fits_buffer : length (rendered message) ≡ 7
unfolding numeral fill_digits digit backwards push_back
fits_buffer = refl

vsnprintf_example :
    vsnprintf 20 noted 100 16 20 (arguments message)
    ≡ formatted (store8 (emit noted 100 (rendered message)) (100 + length (rendered message)) 0)
vsnprintf_example =
    vsnprintf_lem 20 noted 100 16 20 message (omega arith) (omega arith) (omega arith) (omega arith)
      (omega arith) (omega (arith, fits_buffer)) (omega arith)

vprintk_example :
    vprintk 20 3 100 noted 1 20 (arguments message)
    ≡ printed
        (store8 (emit noted 100 (rendered message)) (100 + length (rendered message)) 0)
        (rendered message)
vprintk_example =
    vprintk_lem 20 3 100 noted 1 20 message (omega arith) (omega arith) (omega arith)
      (omega (arith, fits_buffer)) (omega arith) (omega (arith, fits_buffer))

-- "n=42 ab".
shows_text : rendered message ≡ (b'n' ∷ b'=' ∷ b'4' ∷ b'2' ∷ b' ' ∷ b'a' ∷ b'b' ∷ [])
unfolding numeral fill_digits digit backwards push_back
shows_text = refl
