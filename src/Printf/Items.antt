-- ===== src/Printf/Items.antt =====
-- A message as a list of items: the format it is printed with, the arguments, and the text that
-- `vsnprintf` promises.
use lab.Memory.{Mem}
use lab.Prelude.{
  ℕ, ◌+◌, ◌^◌, ◌≤◌, ◌<◌, ◌≡◌, refl, ◌≢◌, ◌⊎◌, inl, inr, none, some, List, [], ◌∷◌, ◌++◌, length,
  arith, ◌==◌, if◌then◌else◌, eq→==, ne→==, eq_or_ne, ap, ◌∙◌,
}
use lab.Printf.{number, fill_digits, backwards}
use lab.Printf.Emit.{emit, write_digits-emit}
use lab.Printf.Number.{
  Chars, fill_digits_lem, length-backwards, read, read-backwards, Chars-backwards,
}
use lab.Str.Text.{Text}

-- The numeral of a u64: the digits that `number` finds, from the left.
unfoldable pub numeral : ℕ → ℕ → List ℕ
numeral base n =
    if n == 0
    then b'0' ∷ []
    else (elim (fill_digits 65 n base) [ none ↦ [] | some tmp ↦ backwards tmp ])

-- It has at most twenty characters, and reads back as the number.
pub record IsNumeral (base n : ℕ) (s : List ℕ) : Type 0 where
  pub chars : Chars s
  pub short : length s ≤ 20
  pub reads_back : read base 0 s ≡ n

numeral-some :
    (base n : ℕ) (tmp : List ℕ)
    → n ≢ 0
    → fill_digits 65 n base ≡ some tmp
    → numeral base n ≡ backwards tmp
unfolding numeral
numeral-some base n tmp ne e = rw (ne→== n 0 ne, e) refl

pub numeral_lem :
    (base n : ℕ) → n < 2 ^ 64 → 10 ≤ base → base ≤ 16 → IsNumeral base n (numeral base n)
numeral_lem base n small lo hi = elim (eq_or_ne n 0) [
  | inl e ↦ zero_case e
  | inr ne ↦
      let filled = fill_digits_lem 65 20 n base (omega arith) (omega arith) lo hi in
      rw (numeral-some base n filled.0 ne filled.1) (record {
        chars = Chars-backwards filled.0 filled.4;
        short = omega (arith, length-backwards filled.0, filled.3);
        reads_back = read-backwards base filled.0 ∙ filled.2;
      })
]
  where
    zero_case : n ≡ 0 → IsNumeral base n (numeral base n)
    zero_case e =
        unfold numeral in
        rw (eq→== n 0 e) (record {
          chars = (omega arith, omega arith, tt);
          short = omega arith;
          reads_back = omega arith;
        })

-- With room for it, `number` writes the numeral and returns the pointer behind it.
pub number-numeral :
    (m : Mem) (str size n base : ℕ)
    → n < 2 ^ 64
    → 10 ≤ base
    → base ≤ 16
    → length (numeral base n) < size
    → size < 2 ^ 64
    → number m str size n base ≡ some (emit m str (numeral base n), str + length (numeral base n))
unfolding number numeral
number-numeral m str size n base small lo hi room fits = elim (eq_or_ne n 0) [
  | inl e ↦ rw (eq→== n 0 e) refl
  | inr ne ↦
      let filled = fill_digits_lem 65 20 n base (omega arith) (omega arith) lo hi in
      let e : numeral base n ≡ backwards filled.0 = numeral-some base n filled.0 ne filled.1 in
      rw (ne→== n 0 ne, filled.1)
        (ap (λ (r : Mem × ℕ). some r)
          (write_digits-emit m str size (backwards filled.0) (rw e at room) fits))
]

-- An item of a format with its argument: a character, `%d`, `%x`, `%s` with the pointer and the
-- text it points to, and `%c` for any other character `c`.
pub data Item : Type 0 where
  character : ℕ → Item
  decimal : ℕ → Item
  hexadecimal : ℕ → Item
  inserted : ℕ → List ℕ → Item
  escaped : ℕ → Item

abbrev pub code_of : Item → List ℕ
code_of (character c) = c ∷ []
code_of (decimal n) = b'%' ∷ b'd' ∷ []
code_of (hexadecimal n) = b'%' ∷ b'x' ∷ []
code_of (inserted p s) = b'%' ∷ b's' ∷ []
code_of (escaped c) = b'%' ∷ c ∷ []

abbrev pub text_of : Item → List ℕ
text_of (character c) = c ∷ []
text_of (decimal n) = numeral 10 n
text_of (hexadecimal n) = numeral 16 n
text_of (inserted p s) = s
text_of (escaped c) = c ∷ []

abbrev pub format_of : List Item → List ℕ
format_of [] = []
format_of (x ∷ xs) = code_of x ++ format_of xs

abbrev pub rendered : List Item → List ℕ
rendered [] = []
rendered (x ∷ xs) = text_of x ++ rendered xs

abbrev pub arguments : List Item → List ℕ
arguments [] = []
arguments (character c ∷ xs) = arguments xs
arguments (decimal n ∷ xs) = n ∷ arguments xs
arguments (hexadecimal n ∷ xs) = n ∷ arguments xs
arguments (inserted p s ∷ xs) = p ∷ arguments xs
arguments (escaped c ∷ xs) = arguments xs

-- The text at `p` does not overlap the buffer.
abbrev pub Away : ℕ → ℕ → ℕ → ℕ → Type 0
Away p len buf size = (p + len < buf) ⊎ (buf + size ≤ p)

-- What an item needs: characters that are bytes and no conversions, u64 numbers, and texts that
-- stand in memory away from the buffer.
abbrev pub IsItem : Mem → ℕ → ℕ → Item → Type 0
IsItem m buf size (character c) = (c ≢ 0) × (c ≢ b'%') × (c < 256)
IsItem m buf size (decimal n) = n < 2 ^ 64
IsItem m buf size (hexadecimal n) = n < 2 ^ 64
IsItem m buf size (inserted p s) = Text m p s × Chars s × Away p (length s) buf size
IsItem m buf size (escaped c) =
    (c ≢ 0) × (c ≢ b'%') × (c ≢ b'd') × (c ≢ b'x') × (c ≢ b's') × (c < 256)

abbrev pub AreItems : Mem → ℕ → ℕ → List Item → Type 0
AreItems m buf size [] = Unit {0}
AreItems m buf size (x ∷ xs) = IsItem m buf size x × AreItems m buf size xs
