-- ===== src/Printf/Write.antt =====
-- `number` writes the digits of a u64 from the left, and they read back as the number.
use lab.Memory.{Mem, store8}
use lab.Printf.{fill_digits, backwards, write_digits, number}
use lab.Printf.Number.{
  Chars, read, fill_digits_lem, Chars-backwards, length-backwards, read-backwards,
}
use lab.Prelude.{
  ℕ, ◌+◌, ◌-◌, ◌%◌, ◌^◌, ◌≤◌, ◌<◌, ◌≡◌, refl, ◌≢◌, Option, some, List, [], ◌∷◌, length, arith,
  eq→==, ne→==, ◌∙◌, eq_or_ne, inl, inr,
}

-- The bytes `cs` stand at `p`.
abbrev pub Holds : Mem → ℕ → List ℕ → Type 0
Holds m p [] = Unit {0}
Holds m p (c ∷ cs) = (m p ≡ c) × Holds m (p + 1) cs

-- The characters at `str`, the pointer behind them, and nothing written before `str`.
pub record IsWritten (m : Mem) (str : ℕ) (cs : List ℕ) (r : Mem × ℕ) : Type 0 where
  pub returned : r.1 ≡ str + length cs
  pub holds : Holds r.0 str cs
  pub before : (x : ℕ) → x < str → r.0 x ≡ m x

pub write_digits-cons :
    (m : Mem) (str size c : ℕ) (cs : List ℕ)
    → 1 < size
    → size < 2 ^ 64
    → write_digits m str size (c ∷ cs) ≡ write_digits (store8 m str c) (str + 1) (size - 1) cs
unfolding write_digits
write_digits-cons m str size c cs room fits =
    let less : (size + 2 ^ 64 - 1) % 2 ^ 64 ≡ size - 1 = omega arith in
    rw (less, ne→== (size - 1) 0 (omega arith)) refl

pub stored : (m : Mem) (a v : ℕ) → v < 256 → store8 m a v a ≡ v
unfolding store8
stored m a v small = ground arith

pub elsewhere : (m : Mem) (a v x : ℕ) → x < a → store8 m a v x ≡ m x
unfolding store8
elsewhere m a v x lt = ground arith

write_digits_lem :
    (m : Mem) (str size : ℕ) (cs : List ℕ)
    → length cs < size
    → size < 2 ^ 64
    → Chars cs
    → IsWritten m str cs (write_digits m str size cs)
write_digits_lem m str size [] room fits b =
    unfold write_digits in record { returned = omega arith; holds = tt; before = λ x lt. refl }
write_digits_lem m str size (c ∷ cs) room fits b =
    let rest =
      write_digits_lem (store8 m str c) (str + 1) (size - 1) cs (omega arith) (omega arith) b.2 in
    rw (write_digits-cons m str size c cs (omega arith) fits) (record {
      returned = omega (arith, rest.returned);
      holds = (rest.before str (omega arith) ∙ stored m str c b.1, rest.holds);
      before = λ x lt. rest.before x (omega arith) ∙ elsewhere m str c x lt;
    })

-- What `number` leaves: a text of at most twenty characters that reads back as the number.
pub record IsNumber (m : Mem) (str value base : ℕ) (r : Option (Mem × ℕ)) : Type 0 where
  pub after : Mem × ℕ
  pub returns : r ≡ some after
  pub text : List ℕ
  pub written : IsWritten m str text after
  pub digits : length text ≤ 20
  pub reads_back : read base 0 text ≡ value

module _ (m : Mem) (str size value base : ℕ) where
  number-zero : value ≡ 0 → number m str size value base ≡ some (store8 m str b'0', str + 1)
  unfolding number
  number-zero e = rw (eq→== value 0 e) refl

  number-digits :
      (tmp : List ℕ)
      → value ≢ 0
      → fill_digits 65 value base ≡ some tmp
      → number m str size value base ≡ some (write_digits m str size (backwards tmp))
  unfolding number
  number-digits tmp ne e = rw (ne→== value 0 ne, e) refl

-- For every u64, in a base from 10 to 16 and with more than 20 bytes of space, `number` writes at
-- most 20 characters, which fit `tmp`, and they read back as the number. The pointer that is
-- returned stands behind them, and nothing before the start is written.
pub number_lem :
    (m : Mem) (str size value base : ℕ)
    → value < 2 ^ 64
    → 10 ≤ base
    → base ≤ 16
    → 20 < size
    → size < 2 ^ 64
    → IsNumber m str value base (number m str size value base)
number_lem m str size value base small lo hi room fits = elim (eq_or_ne value 0) [
  | inl e ↦ record {
    after = (store8 m str b'0', str + 1);
    returns = number-zero m str size value base e;
    text = b'0' ∷ [];
    written = record {
      returned = refl;
      holds = (stored m str b'0' (omega arith), tt);
      before = λ x lt. elsewhere m str b'0' x lt;
    };
    digits = omega arith;
    reads_back = omega arith;
  }
  | inr ne ↦
      let filled = fill_digits_lem 65 20 value base (omega arith) (omega arith) lo hi in
      let len = length-backwards filled.0 in
      record {
        after = write_digits m str size (backwards filled.0);
        returns = number-digits m str size value base filled.0 ne filled.1;
        text = backwards filled.0;
        written =
            write_digits_lem m str size (backwards filled.0) (omega (arith, filled.3)) fits
              (Chars-backwards filled.0 filled.4);
        digits = omega (arith, filled.3);
        reads_back = read-backwards base filled.0 ∙ filled.2;
      }
]
