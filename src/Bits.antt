-- ===== src/Bits.antt =====
-- `&` with masks and `|` of disjoint fields, as arithmetic, for every shift: what the macros of
-- include/arch/pgtable.h and include/arch/csr.h do with bits.
use Prim.Native.Nat.{digits, bit_and-bitwise, bit_or-bitwise}
use native.Mathlib.Nat.{pow-suc, one-le-pow}
use lab.Prelude.{
  ℕ, zero, suc, ◌+◌, ◌-◌, ◌*◌, ◌/◌, ◌%◌, ◌^◌, ◌≤◌, ◌<◌, ◌≡◌, refl, ap, min, max, bit_and, bit_or,
  arith,
}

-- The digit recursion does not depend on its fuel, once there is enough.
module _ (z : ℕ → ℕ) (f : ℕ → ℕ → ℕ) where
  digits_enough : (fuel gas x y : ℕ) → x ≤ gas → x ≤ fuel → digits z f gas x y ≡ digits z f fuel x y
  digits_enough zero zero x y few little = refl
  digits_enough fuel gas zero y few little = cases-zero fuel gas y
    where
      cases-zero : (fuel gas y : ℕ) → digits z f gas 0 y ≡ digits z f fuel 0 y
      cases-zero zero zero y = refl
      cases-zero zero (suc gas) y = refl
      cases-zero (suc fuel) zero y = refl
      cases-zero (suc fuel) (suc gas) y = refl
  digits_enough fuel zero (suc x) y few little = absurd (omega arith)
  digits_enough zero gas (suc x) y few little = absurd (omega arith)
  digits_enough (suc fuel) (suc gas) (suc x) y few little =
      omega (arith, digits_enough fuel gas (suc x / 2) (y / 2) (omega arith) (omega arith))

pub bit_and_step : (v w : ℕ) → bit_and v w ≡ bit_and (v / 2) (w / 2) * 2 + min (v % 2) (w % 2)
bit_and_step zero b = omega (arith, bit_and-bitwise 0 b, bit_and-bitwise 0 (b / 2))
bit_and_step (suc a) b = omega (
  arith,
  bit_and-bitwise (suc a) b,
  bit_and-bitwise (suc a / 2) (b / 2),
  digits_enough (λ _. 0) min a (suc a / 2) (suc a / 2) (b / 2) (omega arith) (omega arith),
)

pub bit_or_step : (a b : ℕ) → bit_or a b ≡ bit_or (a / 2) (b / 2) * 2 + max (a % 2) (b % 2)
bit_or_step zero b = omega (arith, bit_or-bitwise 0 b, bit_or-bitwise 0 (b / 2))
bit_or_step (suc a) b = omega (
  arith,
  bit_or-bitwise (suc a) b,
  bit_or-bitwise (suc a / 2) (b / 2),
  digits_enough (λ y. y) max a (suc a / 2) (suc a / 2) (b / 2) (omega arith) (omega arith),
)

-- No bit is shared with 0, by the steps above; `bound` limits their number.
no_shared_bit : (bound word : ℕ) → word < bound → bit_and word 0 ≡ 0
no_shared_bit zero word small = absurd (omega arith)
no_shared_bit (suc bound) zero small = refl
no_shared_bit (suc bound) (suc word) small =
    ground (arith, bit_and_step (suc word) 0, no_shared_bit bound (suc word / 2))

pub bit_and-zero : (word : ℕ) → bit_and word 0 ≡ 0
bit_and-zero word = no_shared_bit (suc word) word (omega arith)

kept_by_zero : (bound word : ℕ) → word < bound → bit_or word 0 ≡ word
kept_by_zero zero word small = absurd (omega arith)
kept_by_zero (suc bound) zero small = refl
kept_by_zero (suc bound) (suc word) small =
    ground (arith, bit_or_step (suc word) 0, kept_by_zero bound (suc word / 2))

pub bit_or-zero : (word : ℕ) → bit_or word 0 ≡ word
bit_or-zero word = kept_by_zero (suc word) word (omega arith)

-- `q * 2 ^ (k + 1)` is even, and half of it is `q * 2 ^ k`.
double_field : (q k : ℕ) → q * 2 ^ suc k ≡ 2 * (q * 2 ^ k)
double_field q k = omega (arith, ap (λ (t : ℕ). q * t) (pow-suc 2 k))

-- A mask whose `k` low bits are clear ignores the low field.
pub bit_and_high :
    (k q r mask : ℕ) → r < 2 ^ k → bit_and (q * 2 ^ k + r) (mask * 2 ^ k) ≡ bit_and q mask * 2 ^ k
bit_and_high zero q r mask fits =
    let e : q * 2 ^ 0 + r ≡ q = omega arith in
    let e' : mask * 2 ^ 0 ≡ mask = omega arith in rw (e, e') (omega arith)
bit_and_high (suc k) q r mask fits = ground (
  arith,
  bit_and_step (q * 2 ^ suc k + r) (mask * 2 ^ suc k),
  double_field q k,
  double_field mask k,
  double_field (bit_and q mask) k,
  pow-suc 2 k,
  bit_and_high k q (r / 2) mask (omega (arith, pow-suc 2 k)),
)

low_field :
    (width high low : ℕ) → low < 2 ^ width → bit_and (high * 2 ^ width + low) (2 ^ width - 1) ≡ low
low_field zero high low fits = rw bit_and-zero (omega arith)
low_field (suc width) high low fits = ground (
  arith,
  bit_and_step (high * 2 ^ suc width + low) (2 ^ suc width - 1),
  double_field high width,
  pow-suc 2 width,
  low_field width high (low / 2) (omega (arith, pow-suc 2 width)),
)

-- The mask of `k` low bits is the remainder by `2 ^ k`.
pub bit_and_low : (k a : ℕ) → bit_and a (2 ^ k - 1) ≡ a % 2 ^ k
bit_and_low k a = ground (arith, one-le-pow k 2, low_field k (a / 2 ^ k) (a % 2 ^ k))

-- `|` of a field at bit `k` and one below it is their sum.
pub bit_or_fields :
    (width high low : ℕ) → low < 2 ^ width → bit_or (high * 2 ^ width) low ≡ high * 2 ^ width + low
bit_or_fields zero high low fits = ground (arith, bit_or-zero high)
bit_or_fields (suc width) high low fits = ground (
  arith,
  bit_or_step (high * 2 ^ suc width) low,
  double_field high width,
  bit_or_fields width high (low / 2) (omega (arith, pow-suc 2 width)),
)

-- Setting the lowest bit.
pub bit_or-one : (a : ℕ) → bit_or a 1 ≡ a / 2 * 2 + 1
bit_or-one a = omega (arith, bit_or_step a 1, bit_or-zero (a / 2))

-- A mask at bit `k` of any number.
pub bit_and_shifted : (k a mask : ℕ) → bit_and a (mask * 2 ^ k) ≡ bit_and (a / 2 ^ k) mask * 2 ^ k
bit_and_shifted k a mask =
    ground (arith, one-le-pow k 2, bit_and_high k (a / 2 ^ k) (a % 2 ^ k) mask)

-- Testing bit `k`.
pub bit_and_bit : (k a : ℕ) → bit_and a (2 ^ k) ≡ a / 2 ^ k % 2 * 2 ^ k
bit_and_bit k a = ground (arith, bit_and_shifted k a 1, bit_and_low 1 (a / 2 ^ k))

-- Both masks and both fields, above and below bit `k`.
pub bit_and_split :
    (k x y v w : ℕ)
    → y < 2 ^ k
    → w < 2 ^ k
    → bit_and (x * 2 ^ k + y) (v * 2 ^ k + w) ≡ bit_and x v * 2 ^ k + bit_and y w
bit_and_split zero x y v w small small' =
    let e : y ≡ 0 = omega arith in
    let e' : w ≡ 0 = omega arith in
    let f : x * 2 ^ 0 + 0 ≡ x = omega arith in
    let f' : v * 2 ^ 0 + 0 ≡ v = omega arith in rw (e, e', f, f', bit_and-zero) (omega arith)
bit_and_split (suc k) x y v w small small' = ground (
  arith,
  bit_and_step (x * 2 ^ suc k + y) (v * 2 ^ suc k + w),
  bit_and_step y w,
  double_field x k,
  double_field v k,
  double_field (bit_and x v) k,
  pow-suc 2 k,
  bit_and_split k x (y / 2) v (w / 2) (omega (arith, pow-suc 2 k)) (omega (arith, pow-suc 2 k)),
)

pub bit_or_split :
    (k x y v w : ℕ)
    → y < 2 ^ k
    → w < 2 ^ k
    → bit_or (x * 2 ^ k + y) (v * 2 ^ k + w) ≡ bit_or x v * 2 ^ k + bit_or y w
bit_or_split zero x y v w small small' =
    let e : y ≡ 0 = omega arith in
    let e' : w ≡ 0 = omega arith in
    let f : x * 2 ^ 0 + 0 ≡ x = omega arith in
    let f' : v * 2 ^ 0 + 0 ≡ v = omega arith in rw (e, e', f, f', bit_or-zero) (omega arith)
bit_or_split (suc k) x y v w small small' = ground (
  arith,
  bit_or_step (x * 2 ^ suc k + y) (v * 2 ^ suc k + w),
  bit_or_step y w,
  double_field x k,
  double_field v k,
  double_field (bit_or x v) k,
  pow-suc 2 k,
  bit_or_split k x (y / 2) v (w / 2) (omega (arith, pow-suc 2 k)) (omega (arith, pow-suc 2 k)),
)
