-- ===== src/Kernel/Space.antt =====
-- The kernel's address space as a table of permissions, and how each mapping extends it.
use lab.Alloc.{Heap}
use lab.Kernel.{map_region, rounds}
use lab.Kernel.Step.{Stepped}
use lab.Kernel.Region.{MapsRange, map_pages_lem}
use lab.Kernel.Supply.{RangeSupplied}
use lab.Mm.{leaf_entry}
use lab.Mm.SetLeaf.{page_mapping}
use lab.Mm.Ensure.{IsVmTo}
use lab.Pgtable.{ppn_up, ppn_down, ◌<<<◌}
use lab.Pgtable.Laws.{IsCanonical}
use lab.Prelude.{
  ℕ, ◌+◌, ◌%◌, ◌^◌, ◌≤◌, ◌<◌, ◌≡◌, refl, ◌⊎◌, inl, inr, Bool, true, false, ◌&&◌, Option, none, some,
  List, length, if◌then◌else◌, arith, leb, ltb, Bool-cases, Option-cases, ◌∙◌, eq_or_ne,
}

-- The permissions of each page, `none` where it is not mapped.
abbrev pub Table : Type 0
Table = ℕ → Option ℕ

abbrev pub entry_for : ℕ → Option ℕ → Option ℕ
entry_for x none = none
entry_for x (some perm) = some (leaf_entry x perm)

-- Every page is mapped to itself with the permissions of the table, or not mapped.
abbrev pub HasTable : ℕ → Heap → Table → Type 0
HasTable root h table =
    (x : ℕ) → IsCanonical x → x % 4096 ≡ 0 → page_mapping h.mem root x ≡ entry_for x (table x)

abbrev pub within : ℕ → ℕ → ℕ → Bool
within p limit x = leb p x && ltb x limit

-- Pages of a new range get its permissions, unless they had some.
abbrev pub or_else : Option ℕ → Option ℕ → Option ℕ
or_else none b = b
or_else (some a) b = some a

abbrev pub extend : Table → ℕ → ℕ → ℕ → Table
extend table p limit perm x = or_else (table x) (if within p limit x then some perm else none)

within-true : (p limit x : ℕ) → within p limit x ≡ true → (p ≤ x) × (x < limit)
within-true p limit x h = ground arith

within-false : (p limit x : ℕ) → within p limit x ≡ false → (x < p) ⊎ (limit ≤ x)
within-false p limit x h = ground arith

module _ (tail : ℕ) (reserved : List ℕ) (root p limit perm : ℕ) (table : Table) (h : Heap)
    (free : List ℕ) (r : Option Heap) (had : HasTable root h table)
    (m : MapsRange tail reserved root p limit perm h free r) (room : 2 ≤ length m.rest) where
  pub HasTable-range : HasTable root m.after (extend table p limit perm)
  HasTable-range x c al = elim (Option-cases (table x)) [
    | inr (q, e) ↦
        let old : page_mapping h.mem root x ≡ some (leaf_entry x q) = had x c al ∙ rw e refl in
        rw e (m.kept x (leaf_entry x q) c al old)
    | inl e ↦
        let old : page_mapping h.mem root x ≡ none = had x c al ∙ rw e refl in
        elim (Bool-cases (within p limit x)) [
          | inl inside ↦
              let range = within-true p limit x inside in
              rw (e, inside) (m.inside x range.0 range.1 al old room)
          | inr outside ↦ rw (e, outside) (m.outside x c (within-false p limit x outside) ∙ old)
        ]
  ]

module _ (tail : ℕ) (reserved : List ℕ) (root p perm : ℕ) (table : Table) (h h' : Heap)
    (free : List ℕ) (had : HasTable root h table)
    (step : Stepped tail reserved root p perm h free h') (room : 2 ≤ length free)
    (pal : p % 4096 ≡ 0) where
  single-unmapped :
      (x : ℕ)
      → IsCanonical x
      → x % 4096 ≡ 0
      → page_mapping h.mem root x ≡ none
      → page_mapping h'.mem root x ≡ entry_for x (if within p (p + 4096) x then some perm else none)
  single-unmapped x c al old = elim (Bool-cases (within p (p + 4096) x)) [
    | inl inside ↦
        let range = within-true p (p + 4096) x inside in
        let same : x ≡ p = omega arith in rw inside (rw same (step.fresh (rw same at old) room))
    | inr outside ↦
        let apart = within-false p (p + 4096) x outside in
        rw outside (step.others x c (omega arith) ∙ old)
  ]

  single-mapped :
      (x e : ℕ)
      → IsCanonical x
      → x % 4096 ≡ 0
      → page_mapping h.mem root x ≡ some e
      → page_mapping h'.mem root x ≡ some e
  single-mapped x e c al old = elim (eq_or_ne x p) [
    | inl same ↦ rw same (step.kept e (rw same at old))
    | inr ne ↦ step.others x c (omega arith) ∙ old
  ]

  pub HasTable-single : HasTable root h' (extend table p (p + 4096) perm)
  HasTable-single x c al = elim (Option-cases (table x)) [
    | inr (q, e) ↦ rw e (single-mapped x (leaf_entry x q) c al (had x c al ∙ rw e refl))
    | inl e ↦ rw e (single-unmapped x c al (had x c al ∙ rw e refl))
  ]

-- A section, from the page of its start up to the page after its end.
abbrev pub first_page : ℕ → ℕ
first_page start = ppn_down start <<< 12

abbrev pub end_page : ℕ → ℕ
end_page end = ppn_up end <<< 12

pub end_page-bounds :
    (end : ℕ)
    → end ≤ 2 ^ 38
    → (end_page end % 4096 ≡ 0) × (end ≤ end_page end) × (end_page end < end + 4096)
unfolding ppn_up
end_page-bounds end h = omega arith

pub map_region_lem :
    (tail : ℕ) (reserved : List ℕ) (root start end perm : ℕ) (h : Heap) (free : List ℕ)
    → IsVmTo tail reserved root h free
    → RangeSupplied tail root (first_page start) (end_page end) h free
    → end ≤ 2 ^ 38
    → perm < 2 ^ 10
    → MapsRange tail reserved root
        (first_page start)
        (end_page end)
        perm
        h
        free
        (map_region root start end perm h)
unfolding map_region
map_region_lem tail reserved root start end perm h free is supply small perm_small =
    let b = end_page-bounds end small in
    map_pages_lem tail reserved (rounds (end_page end)) root perm (first_page start) (end_page end)
      h free is supply (omega arith) b.0 (omega arith) perm_small (omega arith)
