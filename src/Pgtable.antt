-- ===== src/Pgtable.antt =====
-- The macros and inline functions of include/arch/pgtable.h, over u64 values as natural numbers.
-- A left shift and a sum wrap at 2 ^ 64; a pointer to a page table is its address.
pub mod Laws
use lab.Prelude.{ℕ, ◌+◌, ◌-◌, ◌*◌, ◌/◌, ◌%◌, ◌^◌, Bool, not, bit_and, bit_or, ◌==◌, if◌then◌else◌}

infixl 66 ◌<<<◌ ◌>>>◌
abbrev pub ◌<<<◌ : ℕ → ℕ → ℕ
x <<< k = x * 2 ^ k % 2 ^ 64

abbrev pub ◌>>>◌ : ℕ → ℕ → ℕ
x >>> k = x / 2 ^ k

abbrev pub page_shift : ℕ
page_shift = 12

abbrev pub page_size : ℕ
page_size = 4096

unfoldable pub is_aligned : ℕ → Bool
is_aligned addr = bit_and addr (page_size - 1) == 0

unfoldable pub ppn_down : ℕ → ℕ
ppn_down addr = addr >>> page_shift

-- `addr + PAGE_SIZE - 1` wraps.
unfoldable pub ppn_up : ℕ → ℕ
ppn_up addr = (addr + page_size - 1) % 2 ^ 64 >>> page_shift

unfoldable pub va_get_index : ℕ → ℕ → ℕ
va_get_index va level =
    if level == 2
    then bit_and (va >>> 30) 0x1ff
    else if level == 1
    then bit_and (va >>> 21) 0x1ff
    else if level == 0
    then bit_and (va >>> 12) 0x1ff
    else 0

abbrev pub pte_shift : ℕ
pte_shift = 10

abbrev pub pte_ppn_mask : ℕ
pte_ppn_mask = 2 ^ 44 - 1

unfoldable pub phys_to_ppn : ℕ → ℕ
phys_to_ppn phys = phys >>> page_shift

unfoldable pub ppn_to_phys : ℕ → ℕ
ppn_to_phys ppn = ppn <<< page_shift

unfoldable pub pte_get_ppn : ℕ → ℕ
pte_get_ppn pte = bit_and (pte >>> pte_shift) pte_ppn_mask

unfoldable pub pte_from_ppn : ℕ → ℕ
pte_from_ppn ppn = bit_and ppn pte_ppn_mask <<< pte_shift

unfoldable pub pte_next_ptb : ℕ → ℕ
unfolding ppn_to_phys pte_get_ppn
pte_next_ptb pte = ppn_to_phys (pte_get_ppn pte)

-- The address of `ptb->entries[index]`.
unfoldable pub ptb_get_ptep : ℕ → ℕ → ℕ
ptb_get_ptep ptb index = ptb + 8 * index

abbrev pub pte_bit_valid : ℕ
pte_bit_valid = 1

abbrev pub pte_bit_read : ℕ
pte_bit_read = 2

abbrev pub pte_bit_write : ℕ
pte_bit_write = 4

abbrev pub pte_bit_exec : ℕ
pte_bit_exec = 8

unfoldable pub pte_valid : ℕ → Bool
pte_valid pte = not (bit_and pte pte_bit_valid == 0)

unfoldable pub pte_readable : ℕ → Bool
pte_readable pte = not (bit_and pte pte_bit_read == 0)

unfoldable pub pte_writable : ℕ → Bool
pte_writable pte = not (bit_and pte pte_bit_write == 0)

unfoldable pub pte_executable : ℕ → Bool
pte_executable pte = not (bit_and pte pte_bit_exec == 0)

unfoldable pub pte_leaf : ℕ → Bool
pte_leaf pte = not (bit_and pte (bit_or (bit_or pte_bit_read pte_bit_write) pte_bit_exec) == 0)
