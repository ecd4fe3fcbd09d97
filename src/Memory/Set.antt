-- ===== src/Memory/Set.antt =====
-- `memset` and `memset64` of src/string.c.
use lab.Memory.Store.{Mem, store8, store64, load64, store64-outside}
use lab.Prelude.{ℕ, zero, suc, ◌+◌, ◌*◌, ◌%◌, ◌≤◌, ◌<◌, ◌≡◌, refl, ◌⊎◌, ◌∙◌, arith}

-- `while (count--) *ptr++ = (uint8_t) val;`, where `val` is the bit pattern of the `int`.
unfoldable pub memset : Mem → ℕ → ℕ → ℕ → Mem
memset m dest val zero = m
memset m dest val (suc count) = memset (store8 m dest val) (dest + 1) val count

-- `while (count--) *dest++ = val;`, over words of eight bytes.
unfoldable pub memset64 : Mem → ℕ → ℕ → ℕ → Mem
memset64 m dest val zero = m
memset64 m dest val (suc count) = memset64 (store64 m dest val) (dest + 8) val count

pub memset-outside :
    (m : Mem) (dest val count x : ℕ)
    → (x < dest) ⊎ (dest + count ≤ x)
    → memset m dest val count x ≡ m x
unfolding memset store8
memset-outside m dest val zero x out = refl
memset-outside m dest val (suc count) x out =
    memset-outside (store8 m dest val) (dest + 1) val count x (omega arith) ∙ ground arith

pub memset-inside :
    (m : Mem) (dest val count x : ℕ)
    → dest ≤ x
    → x < dest + count
    → memset m dest val count x ≡ val % 256
unfolding memset store8
memset-inside m dest val zero x lo hi = absurd (omega arith)
memset-inside m dest val (suc count) x lo hi = ground (
  arith,
  memset-inside (store8 m dest val) (dest + 1) val count x,
  memset-outside (store8 m dest val) (dest + 1) val count x,
)

pub memset64-outside :
    (m : Mem) (dest val count x : ℕ)
    → (x < dest) ⊎ (dest + 8 * count ≤ x)
    → memset64 m dest val count x ≡ m x
unfolding memset64
memset64-outside m dest val zero x out = refl
memset64-outside m dest val (suc count) x out =
    memset64-outside (store64 m dest val) (dest + 8) val count x (omega arith)
    ∙ store64-outside m dest val x (omega arith)

-- A word of a region that has been set to zero.
pub load64-zero : (m : Mem) (a : ℕ) → ((x : ℕ) → a ≤ x → x < a + 8 → m x ≡ 0) → load64 m a ≡ 0
unfolding load64
load64-zero m a zeros = omega (
  arith,
  zeros a (omega arith) (omega arith),
  zeros (a + 1) (omega arith) (omega arith),
  zeros (a + 2) (omega arith) (omega arith),
  zeros (a + 3) (omega arith) (omega arith),
  zeros (a + 4) (omega arith) (omega arith),
  zeros (a + 5) (omega arith) (omega arith),
  zeros (a + 6) (omega arith) (omega arith),
  zeros (a + 7) (omega arith) (omega arith),
)
