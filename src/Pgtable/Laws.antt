-- ===== src/Pgtable/Laws.antt =====
-- What the helpers of include/arch/pgtable.h compute, as arithmetic: page rounding, the three
-- indices of an address, and the fields of a page table entry.
use lab.Bits.{bit_and_low, bit_and_bit, bit_and_shifted}
use lab.Pgtable.{
  is_aligned, ppn_down, ppn_up, va_get_index, pte_get_ppn, pte_from_ppn, pte_valid, pte_readable,
  pte_writable, pte_executable, pte_leaf,
}
use lab.Prelude.{
  ℕ, ◌+◌, ◌-◌, ◌*◌, ◌/◌, ◌%◌, ◌^◌, ◌≤◌, ◌<◌, ◌≡◌, ◌↔◌, ◌⊎◌, true, not, arith, ◌==◌, ◌||◌,
}

-- An address is aligned exactly when it is a multiple of the page size.
pub is_aligned_iff : (a : ℕ) → (is_aligned a ≡ true) ↔ (a % 4096 ≡ 0)
unfolding is_aligned
is_aligned_iff a = ground (arith, bit_and_low 12 a)

-- Rounding down and up to a page: the nearest page boundaries on both sides of an address, for
-- every address whose page is not the last of the 64-bit space.
pub ppn_rounding :
    (a : ℕ)
    → a + 4095 < 2 ^ 64
    → (ppn_down a * 4096 ≤ a)
      × (a < ppn_down a * 4096 + 4096)
      × (a ≤ ppn_up a * 4096)
      × (ppn_up a * 4096 < a + 4096)
unfolding ppn_down ppn_up
ppn_rounding a h = omega arith

-- For an address whose page is not the last of the 64-bit space, `PPN_UP` and `PPN_DOWN` agree
-- exactly if it is aligned.
pub ppn_up-eq-ppn_down_iff :
    (a : ℕ) → a + 4095 < 2 ^ 64 → (ppn_up a ≡ ppn_down a) ↔ (is_aligned a ≡ true)
unfolding ppn_down ppn_up
ppn_up-eq-ppn_down_iff a h = ground (arith, is_aligned_iff a)

pub va_get_index_two : (va : ℕ) → va_get_index va 2 ≡ va / 2 ^ 30 % 512
unfolding va_get_index
va_get_index_two va = bit_and_low 9 (va / 2 ^ 30)

pub va_get_index_one : (va : ℕ) → va_get_index va 1 ≡ va / 2 ^ 21 % 512
unfolding va_get_index
va_get_index_one va = bit_and_low 9 (va / 2 ^ 21)

pub va_get_index_zero : (va : ℕ) → va_get_index va 0 ≡ va / 2 ^ 12 % 512
unfolding va_get_index
va_get_index_zero va = bit_and_low 9 (va / 2 ^ 12)

-- Every index fits the 512 entries of a table.
pub va_get_index-lt : (va level : ℕ) → va_get_index va level < 512
unfolding va_get_index
va_get_index-lt va level =
    ground
      (arith, bit_and_low 9 (va / 2 ^ 30), bit_and_low 9 (va / 2 ^ 21), bit_and_low 9 (va / 2 ^ 12))

-- The bits 63 to 38 of an address are all equal.
abbrev pub IsCanonical : ℕ → Type 0
IsCanonical va = (va < 2 ^ 38) ⊎ ((2 ^ 64 - 2 ^ 38 ≤ va) × (va < 2 ^ 64))

-- The three indices of `va_get_index` and the page offset determine a canonical virtual address.
pub va_get_index_injective :
    (va wa : ℕ)
    → IsCanonical va
    → IsCanonical wa
    → va_get_index va 2 ≡ va_get_index wa 2
    → va_get_index va 1 ≡ va_get_index wa 1
    → va_get_index va 0 ≡ va_get_index wa 0
    → va % 4096 ≡ wa % 4096
    → va ≡ wa
va_get_index_injective va wa c d e2 e1 e0 e = omega (
  arith,
  va_get_index_two va,
  va_get_index_one va,
  va_get_index_zero va,
  va_get_index_two wa,
  va_get_index_one wa,
  va_get_index_zero wa,
)

pub pte_get_ppn_lem : (pte : ℕ) → pte_get_ppn pte ≡ pte / 2 ^ 10 % 2 ^ 44
unfolding pte_get_ppn
pte_get_ppn_lem pte = bit_and_low 44 (pte / 2 ^ 10)

pub pte_from_ppn_lem : (ppn : ℕ) → pte_from_ppn ppn ≡ ppn % 2 ^ 44 * 2 ^ 10
unfolding pte_from_ppn
pte_from_ppn_lem ppn = omega (arith, bit_and_low 44 ppn)

pub pte_valid_lem : (pte : ℕ) → pte_valid pte ≡ (pte % 2 == 1)
unfolding pte_valid
pte_valid_lem pte = ground (arith, bit_and_bit 0 pte)

pub pte_readable_lem : (pte : ℕ) → pte_readable pte ≡ (pte / 2 % 2 == 1)
unfolding pte_readable
pte_readable_lem pte = ground (arith, bit_and_bit 1 pte)

pub pte_writable_lem : (pte : ℕ) → pte_writable pte ≡ (pte / 4 % 2 == 1)
unfolding pte_writable
pte_writable_lem pte = ground (arith, bit_and_bit 2 pte)

pub pte_executable_lem : (pte : ℕ) → pte_executable pte ≡ (pte / 8 % 2 == 1)
unfolding pte_executable
pte_executable_lem pte = ground (arith, bit_and_bit 3 pte)

pub pte_leaf_lem : (pte : ℕ) → pte_leaf pte ≡ not (pte / 2 % 8 == 0)
unfolding pte_leaf
pte_leaf_lem pte = ground (arith, bit_and_shifted 1 pte 7, bit_and_low 3 (pte / 2))

-- An entry is a leaf exactly when it is readable, writable or executable.
pub pte_leaf_iff :
    (pte : ℕ) → pte_leaf pte ≡ (pte_readable pte || pte_writable pte || pte_executable pte)
pte_leaf_iff pte =
    ground
      (arith, pte_leaf_lem pte, pte_readable_lem pte, pte_writable_lem pte, pte_executable_lem pte)
