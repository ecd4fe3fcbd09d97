-- ===== src/Kernel/Region.antt =====
-- The identity mapping of a region, page by page.
use lab.Alloc.{Heap}
use lab.Kernel.{map_pages}
use lab.Mm.{leaf_entry, vm_map_page}
use lab.Mm.Present.{HasLow}
use lab.Mm.SetLeaf.{page_mapping}
use lab.Mm.Ensure.{IsVmTo}
use lab.Pgtable.Laws.{IsCanonical}
use lab.Prelude.{
  ℕ, zero, suc, ◌+◌, ◌-◌, ◌*◌, ◌/◌, ◌%◌, ◌^◌, ◌≤◌, ◌<◌, ◌≡◌, refl, ◌⊎◌, inl, inr, Option, none,
  some, List, length, arith, ltb, lt→ltb, ltb-false, ◌∙◌, eq_or_ne, Bool-cases, ltb→lt,
  ltb-false→le,
}
use lab.Kernel.Step.{Stepped, step_lem}
use lab.Kernel.Supply.{tables, HasLow-next, RangeSupplied, Supplied-first, RangeSupplied-next}

-- What the loop from `p` up to `limit` leaves. A page of the range that was not mapped is mapped
-- to itself, unless the free pages ran out; no other page changes, and none that was mapped.
pub record MapsRange (tail : ℕ) (reserved : List ℕ) (root p limit perm : ℕ) (h : Heap)
    (free : List ℕ) (r : Option Heap) : Type 0 where
  pub after : Heap
  pub returns : r ≡ some after
  pub rest : List ℕ
  pub is_vm : IsVmTo tail reserved root after rest
  pub shrinks : length rest ≤ length free
  pub outside :
      (x : ℕ)
      → IsCanonical x
      → (x < p) ⊎ (limit ≤ x)
      → page_mapping after.mem root x ≡ page_mapping h.mem root x
  pub inside :
      (x : ℕ)
      → p ≤ x
      → x < limit
      → x % 4096 ≡ 0
      → page_mapping h.mem root x ≡ none
      → 2 ≤ length rest
      → page_mapping after.mem root x ≡ some (leaf_entry x perm)
  pub kept :
      (x e : ℕ)
      → IsCanonical x
      → x % 4096 ≡ 0
      → page_mapping h.mem root x ≡ some e
      → page_mapping after.mem root x ≡ some e
  -- Two pages for each region of 2 MiB that the range touches, where there are so many.
  pub used : 2 * tables p limit + 2 ≤ length free → length free ≤ length rest + 2 * tables p limit
  pub used_there :
      HasLow root h.mem p
      → 2 * tables (p + 2 ^ 21) limit + 2 ≤ length free
      → length free ≤ length rest + 2 * tables (p + 2 ^ 21) limit

module _ (fuel root perm p limit : ℕ) (h : Heap) where
  map_pages-more :
      p < limit
      → map_pages (suc fuel) root perm p limit h
        ≡ map_pages fuel root perm (p + 4096) limit (vm_map_page root p p perm h).1
  unfolding map_pages
  map_pages-more lt = rw (lt→ltb p limit lt) refl

  map_pages-done : limit ≤ p → map_pages (suc fuel) root perm p limit h ≡ some h
  unfolding map_pages
  map_pages-done le = rw (ltb-false p limit le) refl

Stepped-kept :
    (tail : ℕ) (reserved : List ℕ) (root p perm : ℕ) (h h1 : Heap) (free : List ℕ) (x e : ℕ)
    → Stepped tail reserved root p perm h free h1
    → IsCanonical x
    → x % 4096 ≡ 0
    → p % 4096 ≡ 0
    → page_mapping h.mem root x ≡ some e
    → page_mapping h1.mem root x ≡ some e
Stepped-kept tail reserved root p perm h h1 free x e step c alx al old = elim (eq_or_ne p x) [
  | inl same ↦ rw (← same) (step.kept e (rw (← same) at old))
  | inr ne ↦ step.others x c (omega arith) ∙ old
]

module _ (tail : ℕ) (reserved : List ℕ) (root p limit perm : ℕ) (h h1 : Heap) (free : List ℕ)
    (r : Option Heap) (step : Stepped tail reserved root p perm h free h1) (lt : p < limit)
    (small : limit ≤ 2 ^ 38) (al : p % 4096 ≡ 0) (al' : limit % 4096 ≡ 0)
    (m : MapsRange tail reserved root (p + 4096) limit perm h1 step.rest r) where
  inside-first :
      page_mapping h.mem root p ≡ none
      → 2 ≤ length m.rest
      → page_mapping m.after.mem root p ≡ some (leaf_entry p perm)
  inside-first unused room =
      m.kept p (leaf_entry p perm) (inl (omega arith)) al
        (step.fresh unused (omega (arith, m.shrinks, step.shrinks)))

  inside-step :
      (x : ℕ)
      → p ≤ x
      → x < limit
      → x % 4096 ≡ 0
      → page_mapping h.mem root x ≡ none
      → 2 ≤ length m.rest
      → page_mapping m.after.mem root x ≡ some (leaf_entry x perm)
  inside-step x lo hi alx unused room = elim (eq_or_ne p x) [
    | inl same ↦ rw (← same) (inside-first (rw (← same) at unused) room)
    | inr ne ↦
        m.inside x (omega arith) hi alx (step.others x (inl (omega arith)) (omega arith) ∙ unused)
          room
  ]

  -- The table of the next page is there, or its region is the next one.
  from_next :
      2 ≤ length free
      → 2 * tables (p + 2 ^ 21) limit + 2 ≤ length step.rest
      → length step.rest ≤ length m.rest + 2 * tables (p + 2 ^ 21) limit
  from_next room enough = elim (eq_or_ne (p / 2 ^ 21) ((p + 4096) / 2 ^ 21)) [
    | inl same ↦ omega (
      arith,
      m.used_there (HasLow-next root p (p + 4096) h1.mem same (step.leads room)) (omega arith),
    )
    | inr next ↦ omega (arith, m.used (omega arith))
  ]

  used-step :
      2 * tables p limit + 2 ≤ length free → length free ≤ length m.rest + 2 * tables p limit
  used-step enough = omega (arith, step.used, from_next (omega arith) (omega (arith, step.used)))

  used_there-step :
      HasLow root h.mem p
      → 2 * tables (p + 2 ^ 21) limit + 2 ≤ length free
      → length free ≤ length m.rest + 2 * tables (p + 2 ^ 21) limit
  used_there-step there enough =
      omega (arith, step.spares there, from_next (omega arith) (omega (arith, step.spares there)))

  MapsRange-step : MapsRange tail reserved root p limit perm h free r
  MapsRange-step = record {
    after = m.after;
    returns = m.returns;
    rest = m.rest;
    is_vm = m.is_vm;
    shrinks = omega (arith, m.shrinks, step.shrinks);
    outside = λ x c out. m.outside x c (omega arith) ∙ step.others x c (omega arith);
    inside = inside-step;
    kept = λ x e c alx old.
        m.kept x e c alx (Stepped-kept tail reserved root p perm h h1 free x e step c alx al old);
    used = used-step;
    used_there = used_there-step;
  }

-- The loop ends, for a limit that is a multiple of the page size and at most 2 ^ 38, with a round for
-- each page, and with the pages that the tables need in front of a list that does not end with NULL.
-- It maps each page of the range to itself, as long as free pages remain.
pub map_pages_lem :
    (tail : ℕ) (reserved : List ℕ) (fuel root perm p limit : ℕ) (h : Heap) (free : List ℕ)
    → IsVmTo tail reserved root h free
    → RangeSupplied tail root p limit h free
    → p % 4096 ≡ 0
    → limit % 4096 ≡ 0
    → limit ≤ 2 ^ 38
    → perm < 2 ^ 10
    → (limit - p) / 4096 < fuel
    → MapsRange tail reserved root p limit perm h free (map_pages fuel root perm p limit h)
map_pages_lem tail reserved zero root perm p limit h free is supply al al' top small enough =
    absurd (omega arith)
map_pages_lem tail reserved (suc fuel) root perm p limit h free is supply al al' top small enough =
    elim (Bool-cases (ltb p limit)) [
      | inl more ↦
          let lt = ltb→lt p limit more in
          let room = Supplied-first tail root p limit h free supply in
          let step =
            step_lem tail reserved root p perm h free is (inl (omega arith)) al room (omega arith)
              small in
          rw (map_pages-more fuel root perm p limit h lt) (
            MapsRange-step tail reserved root p limit perm h (vm_map_page root p p perm h).1 free
              (map_pages fuel root perm (p + 4096) limit (vm_map_page root p p perm h).1) step lt
              top al al'
              (map_pages_lem tail reserved fuel root perm (p + 4096) limit
                (vm_map_page root p p perm h).1 step.rest step.is_vm
                (RangeSupplied-next tail reserved root p limit perm h
                  (vm_map_page root p p perm h).1 free step lt supply)
                (omega arith) al' top small (omega arith)))
      | inr done ↦
          let le = ltb-false→le p limit done in
          rw (map_pages-done fuel root perm p limit h le) (record {
            after = h;
            returns = refl;
            rest = free;
            is_vm = is;
            shrinks = omega arith;
            outside = λ x c out. refl;
            inside = λ x lo hi alx unused room. absurd (omega arith);
            kept = λ x e c alx old. old;
            used = λ _. omega arith;
            used_there = λ _ _. omega arith;
          })
    ]
