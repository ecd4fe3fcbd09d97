-- ===== src/Printf/Number.antt =====
-- `number`: the text of a u64, and what it reads back as.
use lab.Printf.{digit, fill_digits, push_back, backwards}
use lab.Prelude.{
  ℕ, zero, suc, ◌+◌, ◌-◌, ◌*◌, ◌/◌, ◌%◌, ◌^◌, ◌≤◌, ◌<◌, ◌≡◌, refl, ◌≢◌, Option, some, List, [], ◌∷◌,
  length, arith, if◌then◌else◌, ltb, eq→==, ne→==, ap, ◌∙◌, eq_or_ne, inl, inr,
}
use native.Mathlib.Nat.{div-add-mod', mod-lt, pow-suc, div-lt_iff_lt-mul}

-- The value of a digit's character.
abbrev pub digit_value : ℕ → ℕ
digit_value c = if ltb c b'a' then c - b'0' else c - b'a' + 10

-- The characters that `digit` gives.
abbrev IsDigit : ℕ → ℕ → Type 0
IsDigit base c = (digit_value c < base) × (c < 256)

digit_lem :
    (d base : ℕ)
    → d < base
    → base ≤ 16
    → (digit_value (digit d) ≡ d) × (digit d < 256) × (digit d ≢ 0)
unfolding digit
digit_lem d base lt le = ground arith

-- The number that a list of digits stands for, the last digit first.
abbrev pub value : ℕ → List ℕ → ℕ
value base [] = 0
value base (c ∷ cs) = value base cs * base + digit_value c

-- The number that a text stands for, read from the left.
abbrev pub read : ℕ → ℕ → List ℕ → ℕ
read base acc [] = acc
read base acc (c ∷ cs) = read base (acc * base + digit_value c) cs

-- The characters of a message: bytes that are not NUL.
abbrev pub Chars : List ℕ → Type 0
Chars [] = Unit {0}
Chars (c ∷ cs) = (c ≢ 0) × (c < 256) × Chars cs

abbrev pub Filled : ℕ → ℕ → ℕ → Option (List ℕ) → Type 0
Filled k n base r =
    (tmp : List ℕ) × (r ≡ some tmp) × (value base tmp ≡ n) × (length tmp ≤ k) × Chars tmp

module _ (fuel n base : ℕ) where
  fill-done : n ≡ 0 → fill_digits (suc fuel) n base ≡ some []
  unfolding fill_digits
  fill-done e = rw (eq→== n 0 e) refl

  fill-more :
      (tmp : List ℕ)
      → n ≢ 0
      → fill_digits fuel (n / base) base ≡ some tmp
      → fill_digits (suc fuel) n base ≡ some (digit (n % base) ∷ tmp)
  unfolding fill_digits
  fill-more tmp ne e = rw (ne→== n 0 ne, e) refl

-- A number below 10 ^ k has at most `k` digits in a base from 10 on.
pub fill_digits_lem :
    (fuel k n base : ℕ)
    → k < fuel
    → n < 10 ^ k
    → 10 ≤ base
    → base ≤ 16
    → Filled k n base (fill_digits fuel n base)
fill_digits_lem zero k n base lt small lo hi = absurd (omega arith)
fill_digits_lem (suc fuel) zero n base lt small lo hi =
    ([], fill-done fuel n base (omega arith), omega arith, omega arith, tt)
fill_digits_lem (suc fuel) (suc k) n base lt small lo hi = elim (eq_or_ne n 0) [
  | inl e ↦ ([], fill-done fuel n base e, omega arith, omega arith, tt)
  | inr ne ↦
      let shorter : n / base < 10 ^ k =
        (div-lt_iff_lt-mul (omega arith)).1 (grind (arith, pow-suc 10 k)) in
      let rest : Filled k (n / base) base (fill_digits fuel (n / base) base) =
        fill_digits_lem fuel k (n / base) base (omega arith) shorter lo hi in
      let d : (digit_value (digit (n % base)) ≡ n % base)
          × (digit (n % base) < 256)
          × (digit (n % base) ≢ 0) =
        digit_lem (n % base) base (mod-lt n (omega arith)) hi in
      (
        digit (n % base) ∷ rest.0,
        fill-more fuel n base rest.0 ne rest.1,
        omega (arith, d, ap (λ (t : ℕ). t * base) rest.2, div-add-mod' n base),
        omega (arith, rest.3),
        (d.2, d.1, rest.4),
      )
]

length-push_back : (xs : List ℕ) (c : ℕ) → length (push_back xs c) ≡ suc (length xs)
unfolding push_back
length-push_back [] c = refl
length-push_back (x ∷ xs) c = ap suc (length-push_back xs c)

pub length-backwards : (xs : List ℕ) → length (backwards xs) ≡ length xs
unfolding backwards
length-backwards [] = refl
length-backwards (x ∷ xs) = length-push_back (backwards xs) x ∙ ap suc (length-backwards xs)

Chars-push_back : (xs : List ℕ) (c : ℕ) → Chars xs → c ≢ 0 → c < 256 → Chars (push_back xs c)
unfolding push_back
Chars-push_back [] c b ne lt = (ne, lt, tt)
Chars-push_back (x ∷ xs) c b ne lt = (b.0, b.1, Chars-push_back xs c b.2 ne lt)

pub Chars-backwards : (xs : List ℕ) → Chars xs → Chars (backwards xs)
unfolding backwards
Chars-backwards [] b = tt
Chars-backwards (x ∷ xs) b = Chars-push_back (backwards xs) x (Chars-backwards xs b.2) b.0 b.1

read-push_back :
    (base acc : ℕ) (xs : List ℕ) (c : ℕ)
    → read base acc (push_back xs c) ≡ read base acc xs * base + digit_value c
unfolding push_back
read-push_back base acc [] c = refl
read-push_back base acc (x ∷ xs) c = read-push_back base (acc * base + digit_value x) xs c

pub read-backwards : (base : ℕ) (xs : List ℕ) → read base 0 (backwards xs) ≡ value base xs
unfolding backwards
read-backwards base [] = refl
read-backwards base (x ∷ xs) =
    read-push_back base 0 (backwards xs) x
    ∙ ap (λ (t : ℕ). t * base + digit_value x) (read-backwards base xs)
