-- ===== src/Memory/Store.antt =====
-- Loads and stores of bytes and of 64-bit words (`*p` at `u8 *`, `char *` and `u64 *`).
use lab.Prelude.{
  ℕ, ◌+◌, ◌-◌, ◌*◌, ◌/◌, ◌%◌, ◌^◌, ◌≤◌, ◌<◌, ◌≡◌, ◌⊎◌, arith, ltb, ◌==◌, if◌then◌else◌,
}

-- The byte at each address.
abbrev pub Mem : Type 0
Mem = ℕ → ℕ

unfoldable pub store8 : Mem → ℕ → ℕ → Mem
store8 m a v x = if x == a then v % 256 else m x

unfoldable pub load64 : Mem → ℕ → ℕ
load64 m a =
    m a
    + m (a + 1) * 2 ^ 8
    + m (a + 2) * 2 ^ 16
    + m (a + 3) * 2 ^ 24
    + m (a + 4) * 2 ^ 32
    + m (a + 5) * 2 ^ 40
    + m (a + 6) * 2 ^ 48
    + m (a + 7) * 2 ^ 56

-- The byte of a word at distance `i` from its address.
unfoldable pub byte_of : ℕ → ℕ → ℕ
byte_of v i = v / 2 ^ (8 * i) % 256

unfoldable pub store64 : Mem → ℕ → ℕ → Mem
unfolding byte_of
store64 m a v x = if ltb x a then m x else if ltb x (a + 8) then byte_of v (x - a) else m x

store64-inside : (m : Mem) (a v i : ℕ) → i < 8 → store64 m a v (a + i) ≡ byte_of v i
unfolding store64
store64-inside m a v i h = let e : a + i - a ≡ i = omega arith in rw e (ground arith)

pub store64-outside : (m : Mem) (a v x : ℕ) → (x < a) ⊎ (a + 8 ≤ x) → store64 m a v x ≡ m x
unfolding store64
store64-outside m a v x h = ground arith

split_byte : (v k : ℕ) → v / 2 ^ k ≡ v / 2 ^ k / 256 * 256 + v / 2 ^ k % 256
split_byte v k = omega arith

-- The bytes of a word make up the word.
byte_sum :
    (v : ℕ)
    → v < 2 ^ 64
    → byte_of v 0
        + byte_of v 1 * 2 ^ 8
        + byte_of v 2 * 2 ^ 16
        + byte_of v 3 * 2 ^ 24
        + byte_of v 4 * 2 ^ 32
        + byte_of v 5 * 2 ^ 40
        + byte_of v 6 * 2 ^ 48
        + byte_of v 7 * 2 ^ 56
      ≡ v
unfolding byte_of
byte_sum v h = omega arith

-- A word that is stored is read back.
pub load64-store64_self : (m : Mem) (a v : ℕ) → v < 2 ^ 64 → load64 (store64 m a v) a ≡ v
unfolding load64
load64-store64_self m a v h = omega (
  arith,
  byte_sum v h,
  (let e : a + 0 ≡ a = omega arith in rw e at (store64-inside m a v 0 (omega arith))),
  store64-inside m a v 1 (omega arith),
  store64-inside m a v 2 (omega arith),
  store64-inside m a v 3 (omega arith),
  store64-inside m a v 4 (omega arith),
  store64-inside m a v 5 (omega arith),
  store64-inside m a v 6 (omega arith),
  store64-inside m a v 7 (omega arith),
)

-- A load depends on its eight bytes only.
pub load64-frame :
    (m n : Mem) (a : ℕ) → ((x : ℕ) → a ≤ x → x < a + 8 → n x ≡ m x) → load64 n a ≡ load64 m a
unfolding load64
load64-frame m n a same = omega (
  arith,
  same a (omega arith) (omega arith),
  same (a + 1) (omega arith) (omega arith),
  same (a + 2) (omega arith) (omega arith),
  same (a + 3) (omega arith) (omega arith),
  same (a + 4) (omega arith) (omega arith),
  same (a + 5) (omega arith) (omega arith),
  same (a + 6) (omega arith) (omega arith),
  same (a + 7) (omega arith) (omega arith),
)

pub load64-store64_apart :
    (m : Mem) (a b v : ℕ) → (b + 8 ≤ a) ⊎ (a + 8 ≤ b) → load64 (store64 m a v) b ≡ load64 m b
load64-store64_apart m a b v apart =
    load64-frame m (store64 m a v) b λ x p q. store64-outside m a v x (omega arith)
