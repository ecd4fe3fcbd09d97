-- ===== src/Mm/Access.antt =====
-- What the hardware makes of an entry of level 0 on an access in supervisor mode (Sv39 of the RISC-V
-- privileged architecture).
use lab.Mm.{leaf_entry}
use lab.Mm.Entry.{leaf_entry_lem}
use lab.Pgtable.{pte_readable, pte_writable, pte_executable}
use lab.Pgtable.Laws.{pte_readable_lem, pte_writable_lem, pte_executable_lem}
use lab.Prelude.{ℕ, ◌/◌, ◌%◌, ◌^◌, ◌<◌, ◌≡◌, Bool, not, ◌&&◌, ◌||◌, ltb, ◌==◌, arith}

pub data AccessKind : Type 0 where
  load : AccessKind
  store : AccessKind
  fetch : AccessKind

-- Bit 4: a page of user mode.
unfoldable pub pte_user : ℕ → Bool
pte_user pte = pte / 16 % 2 == 1

-- W without R is reserved.
abbrev pub reserved_bits : ℕ → Bool
reserved_bits pte = pte_writable pte && not (pte_readable pte)

abbrev pub has_bit : AccessKind → ℕ → Bool
has_bit load pte = pte_readable pte
has_bit store pte = pte_writable pte
has_bit fetch pte = pte_executable pte

-- The access is permitted, whatever SUM and MXR of sstatus are. The bits from 54 on are clear.
unfoldable pub permits : AccessKind → ℕ → Bool
unfolding pte_user
permits kind pte =
    ltb pte (2 ^ 54) && not (pte_user pte) && not (reserved_bits pte) && has_bit kind pte

-- The access is a page fault, whatever SUM and MXR of sstatus are: MXR lets a page be read that can
-- be executed.
unfoldable pub forbids : AccessKind → ℕ → Bool
forbids load pte = reserved_bits pte || not (pte_readable pte || pte_executable pte)
forbids store pte = reserved_bits pte || not (pte_writable pte)
forbids fetch pte = reserved_bits pte || not (pte_executable pte)

-- What the bits of an entry from 1 to 4 say.
pub permits-same :
    (kind : AccessKind) (e e' : ℕ)
    → e' < 2 ^ 54
    → e < 2 ^ 54
    → e' / 2 % 16 ≡ e / 2 % 16
    → permits kind e' ≡ permits kind e
unfolding permits pte_user
permits-same load e e' small small' same =
    ground (arith, pte_readable_lem e, pte_readable_lem e', pte_writable_lem e, pte_writable_lem e')
permits-same store e e' small small' same =
    ground (arith, pte_readable_lem e, pte_readable_lem e', pte_writable_lem e, pte_writable_lem e')
permits-same fetch e e' small small' same = ground (
  arith,
  pte_readable_lem e,
  pte_readable_lem e',
  pte_writable_lem e,
  pte_writable_lem e',
  pte_executable_lem e,
  pte_executable_lem e',
)

pub forbids-same :
    (kind : AccessKind) (e e' : ℕ) → e' / 2 % 16 ≡ e / 2 % 16 → forbids kind e' ≡ forbids kind e
unfolding forbids
forbids-same load e e' same = ground (
  arith,
  pte_readable_lem e,
  pte_readable_lem e',
  pte_writable_lem e,
  pte_writable_lem e',
  pte_executable_lem e,
  pte_executable_lem e',
)
forbids-same store e e' same =
    ground (arith, pte_readable_lem e, pte_readable_lem e', pte_writable_lem e, pte_writable_lem e')
forbids-same fetch e e' same = ground (
  arith,
  pte_readable_lem e,
  pte_readable_lem e',
  pte_writable_lem e,
  pte_writable_lem e',
  pte_executable_lem e,
  pte_executable_lem e',
)

pub leaf_entry-small : (pa perm : ℕ) → pa < 2 ^ 56 → perm < 2 ^ 10 → leaf_entry pa perm < 2 ^ 54
leaf_entry-small pa perm fits small = omega (arith, leaf_entry_lem pa perm small)

-- The entry that `vm_map_page` writes is permitted what its permissions say.
pub leaf_entry-permits :
    (kind : AccessKind) (pa perm : ℕ)
    → pa < 2 ^ 56
    → perm < 2 ^ 10
    → permits kind (leaf_entry pa perm) ≡ permits kind perm
leaf_entry-permits kind pa perm fits small =
    let e = leaf_entry_lem pa perm small in
    permits-same kind perm (leaf_entry pa perm) (omega (arith, e)) (omega arith) (ground (arith, e))

pub leaf_entry-forbids :
    (kind : AccessKind) (pa perm : ℕ)
    → perm < 2 ^ 10
    → forbids kind (leaf_entry pa perm) ≡ forbids kind perm
leaf_entry-forbids kind pa perm small =
    let e = leaf_entry_lem pa perm small in
    forbids-same kind perm (leaf_entry pa perm) (ground (arith, e))
