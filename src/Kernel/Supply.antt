-- ===== src/Kernel/Supply.antt =====
-- The free pages that the loops of `mm_init` need where the allocator's list is only known in front.
use lab.Alloc.{Heap}
use lab.Kernel.Step.{Stepped}
use lab.Memory.{Mem}
use lab.Mm.Ensure.{Supplied}
use lab.Mm.Present.{HasLow}
use lab.Pgtable.{va_get_index}
use lab.Pgtable.Laws.{va_get_index_two, va_get_index_one}
use lab.Prelude.{
  ℕ, ◌+◌, ◌-◌, ◌*◌, ◌/◌, ◌^◌, ◌≤◌, ◌<◌, ◌≡◌, ◌⊎◌, inl, inr, List, length, arith, eq_or_ne,
}

-- The regions of 2 MiB, each with a table of level 0, from that of `p` to that of `limit`.
abbrev pub tables : ℕ → ℕ → ℕ
tables p limit = limit / 2 ^ 21 + 1 - p / 2 ^ 21

-- Pages of one region have the same table.
pub HasLow-next :
    (root p x : ℕ) (m : Mem) → p / 2 ^ 21 ≡ x / 2 ^ 21 → HasLow root m p → HasLow root m x
HasLow-next root p x m e there =
    let two : va_get_index x 2 ≡ va_get_index p 2 =
      omega (arith, va_get_index_two p, va_get_index_two x) in
    let one : va_get_index x 1 ≡ va_get_index p 1 =
      omega (arith, va_get_index_one p, va_get_index_one x) in
    (there.0, rw (two, one) there.1)

-- Where the list does not end with NULL, there are two pages for each region of 2 MiB that the
-- range touches, but none for the first if it has its table.
abbrev pub RangeSupplied : ℕ → ℕ → ℕ → ℕ → Heap → List ℕ → Type 0
RangeSupplied tail root p limit h free =
    (tail ≡ 0)
    ⊎ ((2 * tables p limit + 2 ≤ length free)
        ⊎ (HasLow root h.mem p × (2 * tables (p + 2 ^ 21) limit + 2 ≤ length free)))

pub Supplied-first :
    (tail root p limit : ℕ) (h : Heap) (free : List ℕ)
    → RangeSupplied tail root p limit h free
    → Supplied tail 2 free
Supplied-first tail root p limit h free (inl null) = inl null
Supplied-first tail root p limit h free (inr (inl many)) = inr (omega arith)
Supplied-first tail root p limit h free (inr (inr (there, many))) = inr (omega arith)

-- For the next page: its table is there, or its region is the next one.
pub RangeSupplied-next :
    (tail : ℕ) (reserved : List ℕ) (root p limit perm : ℕ) (h h1 : Heap) (free : List ℕ)
    (step : Stepped tail reserved root p perm h free h1)
    → p < limit
    → RangeSupplied tail root p limit h free
    → RangeSupplied tail root (p + 4096) limit h1 step.rest
RangeSupplied-next tail reserved root p limit perm h h1 free step lt (inl null) = inl null
RangeSupplied-next tail reserved root p limit perm h h1 free step lt (inr (inl many)) =
    elim (eq_or_ne (p / 2 ^ 21) ((p + 4096) / 2 ^ 21)) [
      | inl same ↦ inr (
          inr (
            HasLow-next root p (p + 4096) h1.mem same (step.leads (omega arith)),
            omega (arith, step.used),
          ))
      | inr next ↦ inr (inl (omega (arith, step.used)))
    ]
RangeSupplied-next tail reserved root p limit perm h h1 free step lt (inr (inr (there, many))) =
    elim (eq_or_ne (p / 2 ^ 21) ((p + 4096) / 2 ^ 21)) [
      | inl same ↦ inr (
          inr (
            HasLow-next root p (p + 4096) h1.mem same (step.leads (omega arith)),
            omega (arith, step.spares there),
          ))
      | inr next ↦ inr (inl (omega (arith, step.spares there)))
    ]

pub Supplied-less :
    (tail n k : ℕ) (free : List ℕ) → k ≤ n → Supplied tail n free → Supplied tail k free
Supplied-less tail n k free le (inl null) = inl null
Supplied-less tail n k free le (inr many) = inr (omega arith)

-- A range is mapped where there are pages for its tables, and `n` pages and two are left behind it.
pub RangeSupplied-first :
    (tail root p limit n : ℕ) (h : Heap) (free : List ℕ)
    → Supplied tail (2 * tables p limit + n + 2) free
    → RangeSupplied tail root p limit h free
RangeSupplied-first tail root p limit n h free (inl null) = inl null
RangeSupplied-first tail root p limit n h free (inr many) = inr (inl (omega arith))

pub Supplied-after_step :
    (tail : ℕ) (reserved : List ℕ) (root p perm n : ℕ) (h h' : Heap) (free : List ℕ)
    (step : Stepped tail reserved root p perm h free h')
    → Supplied tail (n + 2) free
    → Supplied tail n step.rest
Supplied-after_step tail reserved root p perm n h h' free step (inl null) = inl null
Supplied-after_step tail reserved root p perm n h h' free step (inr many) =
    inr (omega (arith, step.used))
