-- ===== src/Mm/Entry.antt =====
-- The two entries that `vm_map_page` of src/mm.c writes, field by field.
use lab.Bits.{bit_or_fields, bit_or-one}
use lab.Mm.{next_entry, leaf_entry}
use lab.Pgtable.{
  phys_to_ppn, ppn_to_phys, pte_from_ppn, pte_next_ptb, pte_valid, pte_readable, pte_writable,
  pte_executable, pte_leaf,
}
use lab.Pgtable.Laws.{
  pte_from_ppn_lem, pte_get_ppn_lem, pte_valid_lem, pte_leaf_lem, pte_readable_lem,
  pte_writable_lem, pte_executable_lem,
}
use lab.Prelude.{ℕ, ◌+◌, ◌*◌, ◌/◌, ◌%◌, ◌^◌, ◌<◌, ◌≡◌, true, false, bit_or, arith}

next_entry_lem : (pa : ℕ) → next_entry pa ≡ pa / 4096 % 2 ^ 44 * 2 ^ 10 + 1
unfolding next_entry phys_to_ppn
next_entry_lem pa =
    omega (arith, bit_or-one (pte_from_ppn (pa / 4096)), pte_from_ppn_lem (pa / 4096))

pub next_entry-lt : (pa : ℕ) → next_entry pa < 2 ^ 64
next_entry-lt pa = omega (arith, next_entry_lem pa)

-- The entry for a new table, at an aligned address below 2 ^ 56, is valid and no leaf, and
-- following it leads back to the table.
pub pte_next_ptb-next_entry :
    (pa : ℕ)
    → pa % 4096 ≡ 0
    → pa < 2 ^ 56
    → (pte_valid (next_entry pa) ≡ true)
      × (pte_leaf (next_entry pa) ≡ false)
      × (pte_next_ptb (next_entry pa) ≡ pa)
unfolding pte_next_ptb ppn_to_phys
pte_next_ptb-next_entry pa al fits = (
  ground (arith, next_entry_lem pa, pte_valid_lem (next_entry pa)),
  ground (arith, next_entry_lem pa, pte_leaf_lem (next_entry pa)),
  omega (arith, next_entry_lem pa, pte_get_ppn_lem (next_entry pa)),
)

pub leaf_entry_lem :
    (pa perm : ℕ)
    → perm < 2 ^ 10
    → leaf_entry pa perm ≡ pa / 4096 % 2 ^ 44 * 2 ^ 10 + perm / 2 * 2 + 1
unfolding leaf_entry phys_to_ppn
leaf_entry_lem pa perm h = ground (
  arith,
  bit_or-one (bit_or (pte_from_ppn (pa / 4096)) perm),
  pte_from_ppn_lem (pa / 4096),
  bit_or_fields 10 (pa / 4096 % 2 ^ 44) perm h,
)

pub leaf_entry-lt : (pa perm : ℕ) → perm < 2 ^ 10 → leaf_entry pa perm < 2 ^ 64
leaf_entry-lt pa perm h = omega (arith, leaf_entry_lem pa perm h)

-- An entry built for an aligned page below 2 ^ 56, with permission bits below bit 10, is valid,
-- leads to the page, and has exactly the permissions that were asked for.
pub leaf_entry_fields :
    (pa perm : ℕ)
    → pa % 4096 ≡ 0
    → pa < 2 ^ 56
    → perm < 2 ^ 10
    → (pte_valid (leaf_entry pa perm) ≡ true)
      × (pte_next_ptb (leaf_entry pa perm) ≡ pa)
      × (pte_readable (leaf_entry pa perm) ≡ pte_readable perm)
      × (pte_writable (leaf_entry pa perm) ≡ pte_writable perm)
      × (pte_executable (leaf_entry pa perm) ≡ pte_executable perm)
unfolding pte_next_ptb ppn_to_phys
leaf_entry_fields pa perm al fits small =
    let e = leaf_entry_lem pa perm small in
    let q = leaf_entry pa perm in
    (
      ground (arith, e, pte_valid_lem q),
      omega (arith, e, pte_get_ppn_lem q),
      ground (arith, e, pte_readable_lem q, pte_readable_lem perm),
      ground (arith, e, pte_writable_lem q, pte_writable_lem perm),
      ground (arith, e, pte_executable_lem q, pte_executable_lem perm),
    )

pub leaf_entry-valid : (pa perm : ℕ) → perm < 2 ^ 10 → pte_valid (leaf_entry pa perm) ≡ true
leaf_entry-valid pa perm small =
    ground (arith, leaf_entry_lem pa perm small, pte_valid_lem (leaf_entry pa perm))

-- The hardware's view of the entry: a leaf exactly if some permission was asked for.
pub leaf_entry-leaf : (pa perm : ℕ) → perm < 2 ^ 10 → pte_leaf (leaf_entry pa perm) ≡ pte_leaf perm
leaf_entry-leaf pa perm small =
    ground
      (arith, leaf_entry_lem pa perm small, pte_leaf_lem (leaf_entry pa perm), pte_leaf_lem perm)

pub leaf_entry-next :
    (pa perm : ℕ)
    → pa % 4096 ≡ 0
    → pa < 2 ^ 56
    → perm < 2 ^ 10
    → pte_next_ptb (leaf_entry pa perm) ≡ pa
leaf_entry-next pa perm al fits small = (leaf_entry_fields pa perm al fits small).1
