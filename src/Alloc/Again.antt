-- ===== src/Alloc/Again.antt =====
-- `alloc_init` on a list of any content, and what a second call of it leaves.
use lab.Alloc.{Heap, success, alloc_get_page, alloc_init_loop, alloc_init, init_fuel, physstop}
use lab.Alloc.Init.{SameBelow, loop-more, loop-done, alloc_init-of_loop}
use lab.Alloc.Laws.{free_page-result, get_page-result, ready_heap}
use lab.Memory.{Mem, load64, store64, load64-store64_self, load64-frame, store64-outside}
use lab.Pgtable.{ppn_up, ◌<<<◌}
use lab.Prelude.{
  ℕ, zero, suc, ◌+◌, ◌-◌, ◌*◌, ◌/◌, ◌%◌, ◌^◌, ◌≤◌, ◌<◌, ◌≡◌, refl, ◌≢◌, ◌∙◌, inl, inr, true, Option,
  some, arith, ◌==◌, if◌then◌else◌, ltb, eq_or_ne, eq→==, ne→==, ap, sym,
}

-- The page that the first word of the page at `x` leads to: the one below, and from the lowest
-- page to `old`.
abbrev pub below : ℕ → ℕ → ℕ → ℕ
below cur old x = if x == cur then old else x - 4096

-- The pages from `cur` up to `PHYSTOP` are linked downwards, with `old` behind the lowest.
abbrev Linked : ℕ → ℕ → Mem → Type 0
Linked cur old m = (x : ℕ) → x % 4096 ≡ 0 → cur ≤ x → x < physstop → load64 m x ≡ below cur old x

abbrev Pushed : ℕ → ℕ → Heap → Option Heap → Type 0
Pushed n cur h r =
    (h' : Heap) × (r ≡ some h')
    × (h'.is_initialized ≡ true)
    × (h'.freelist_head ≡ (if n == 0 then h.freelist_head else physstop - 4096))
    × Linked cur h.freelist_head h'.mem
    × SameBelow cur h.mem h'.mem

-- The lowest page is linked first, and the rounds behind it do not write to it.
Linked-step :
    (cur old : ℕ) (m m' : Mem)
    → cur % 4096 ≡ 0
    → old < 2 ^ 64
    → Linked (cur + 4096) cur m'
    → SameBelow (cur + 4096) (store64 m cur old) m'
    → cur + 4096 ≤ physstop
    → Linked cur old m'
Linked-step cur old m m' al small linked same fits x al' lo hi = elim (eq_or_ne x cur) [
  | inl e ↦
      let kept : load64 m' cur ≡ load64 (store64 m cur old) cur =
        load64-frame (store64 m cur old) m' cur (λ a p q. same a (omega arith)) in
      rw (e, eq→== cur cur refl) (kept ∙ load64-store64_self m cur old small)
  | inr ne ↦ rw (ne→== x cur ne) (linked x al' (omega arith) hi ∙ ground arith)
]

Pushed-loop :
    (fuel n cur : ℕ) (h : Heap)
    → n < fuel
    → cur + 4096 * n ≡ physstop
    → 0 < cur
    → cur % 4096 ≡ 0
    → h.is_initialized ≡ true
    → h.freelist_head < 2 ^ 64
    → Pushed n cur h (alloc_init_loop fuel cur h)
Pushed-loop zero n cur h enough ends pos al ready small = absurd (omega arith)
Pushed-loop (suc fuel) zero cur h enough ends pos al ready small =
    rw (loop-done fuel cur h (omega arith))
      (h, refl, ready, refl, λ x al' lo hi. absurd (omega arith), λ x out. refl)
Pushed-loop (suc fuel) (suc n) cur h enough ends pos al ready small =
    let h1 : Heap = record h { mem = store64 h.mem cur h.freelist_head; freelist_head = cur } in
    let freed = free_page-result h cur ready (pos, al, omega arith) in
    let rest =
      Pushed-loop fuel n (cur + 4096) h1 (omega arith) (omega arith) (omega arith) (omega arith)
        ready (omega arith) in
    rw (loop-more fuel cur h (omega arith), freed)
      (
        rest.0,
        rest.1,
        rest.2,
        rest.3 ∙ ground arith,
        Linked-step cur h.freelist_head h.mem rest.0.mem al small rest.4 rest.5 (omega arith),
        λ x out. rest.5 x (omega arith) ∙ store64-outside h.mem cur h.freelist_head x (omega arith),
      )

-- The first page from an address on.
abbrev pub first_page_from : ℕ → ℕ
first_page_from start = ppn_up start <<< 12

-- What `alloc_init` leaves, whatever the list was: it starts at the highest page and leads down.
pub record IsLinked (start old : ℕ) (h : Heap) : Type 0 where
  pub ready : h.is_initialized ≡ true
  pub highest : h.freelist_head ≡ physstop - 4096
  pub linked :
      (x : ℕ)
      → x % 4096 ≡ 0
      → start ≤ x
      → x < physstop
      → load64 h.mem x ≡ (if ltb x (start + 4096) then old else x - 4096)

rounded :
    (start : ℕ)
    → start ≤ physstop
    → (start ≤ first_page_from start)
      × (first_page_from start < start + 4096)
      × (first_page_from start % 4096 ≡ 0)
unfolding ppn_up
rounded start fits = omega arith

pub alloc_init-IsLinked :
    (start : ℕ) (h : Heap)
    → 0 < start
    → start + 4096 ≤ physstop
    → h.freelist_head < 2 ^ 64
    → (h' : Heap) × (alloc_init start h ≡ some (success, h')) × IsLinked start h.freelist_head h'
alloc_init-IsLinked start h pos fits small =
    let cur : ℕ = first_page_from start in
    let r = rounded start (omega arith) in
    let n : ℕ = (physstop - cur) / 4096 in
    let pushed =
      Pushed-loop init_fuel n cur (record h { is_initialized = true }) (omega (arith, r))
        (omega (arith, r)) (omega (arith, r)) r.2 refl small in
    (
      pushed.0,
      alloc_init-of_loop start h pushed.0 pushed.1,
      record {
        ready = pushed.2;
        highest = pushed.3 ∙ rw (ne→== n 0 (omega (arith, r))) refl;
        linked = λ x al lo hi. pushed.4 x al (omega (arith, r)) hi ∙ ground (arith, r);
      },
    )

-- `n` calls of `alloc_get_page`, one after the other.
abbrev pub gets : ℕ → Heap → Heap
gets zero h = h
gets (suc n) h = (alloc_get_page (gets n h)).1

-- A list that leads back to its start.
module _ (start : ℕ) (h : Heap) (pos : 0 < start) (fits : start + 4096 ≤ physstop)
    (ring : IsLinked start (physstop - 4096) h) where
  whole : ready_heap h.mem (physstop - 4096) ≡ h
  whole = λ i. record {
    mem = h.mem;
    freelist_head = sym ring.highest i;
    is_initialized = sym ring.ready i;
  }

  -- One call, with a page of the ring in front.
  get_one :
      (p : ℕ)
      → p % 4096 ≡ 0
      → start ≤ p
      → p < physstop
      → alloc_get_page (ready_heap h.mem p)
        ≡ (p, ready_heap h.mem (if ltb p (start + 4096) then physstop - 4096 else p - 4096))
  get_one p al lo hi =
      get_page-result (ready_heap h.mem p) p refl refl (omega arith)
      ∙ ap (λ (q : ℕ). (p, ready_heap h.mem q)) (ring.linked p al lo hi)

  -- One call more.
  gets_one :
      (k p : ℕ)
      → gets k h ≡ ready_heap h.mem p
      → p % 4096 ≡ 0
      → start ≤ p
      → p < physstop
      → gets (suc k) h
        ≡ ready_heap h.mem (if ltb p (start + 4096) then physstop - 4096 else p - 4096)
  gets_one k p e al lo hi =
      ap (λ (g : Heap). (alloc_get_page g).1) e ∙ ap (λ (r : ℕ × Heap). r.1) (get_one p al lo hi)

  gets-ready_heap :
      (k : ℕ)
      → 4096 * k + start + 4096 ≤ physstop
      → gets k h ≡ ready_heap h.mem (physstop - 4096 - 4096 * k)
  gets-ready_heap zero room = sym whole ∙ ap (λ (q : ℕ). ready_heap h.mem q) (omega arith)
  gets-ready_heap (suc k) room =
      let p : ℕ = physstop - 4096 - 4096 * k in
      gets_one k p (gets-ready_heap k (omega arith)) (omega arith) (omega arith) (omega arith)
      ∙ ap (λ (q : ℕ). ready_heap h.mem q) (ground arith)

  gets-all : (n : ℕ) → n ≡ (physstop - start) / 4096 → gets n h ≡ h
  gets-all zero e = absurd (omega arith)
  gets-all (suc k) e =
      let p : ℕ = physstop - 4096 - 4096 * k in
      gets_one k p (gets-ready_heap k (omega arith)) (omega arith) (omega arith) (omega arith)
      ∙ ap (λ (q : ℕ). ready_heap h.mem q) (ground arith)
      ∙ whole

  Somewhere : ℕ → Type 0
  Somewhere k =
      (p : ℕ) × (gets k h ≡ ready_heap h.mem p) × (p % 4096 ≡ 0) × (start ≤ p) × (p < physstop)

  somewhere : (k : ℕ) → Somewhere k
  unfolding Somewhere
  somewhere zero = (physstop - 4096, sym whole, omega arith, omega arith, omega arith)
  somewhere (suc k) =
      let (p, e, al, lo, hi) = somewhere k in
      (
        if ltb p (start + 4096) then physstop - 4096 else p - 4096,
        gets_one k p e al lo hi,
        ground arith,
        ground arith,
        ground arith,
      )

  gets-nonzero : (k : ℕ) → (alloc_get_page (gets k h)).0 ≢ 0
  unfolding Somewhere
  gets-nonzero k = let (p, e, al, lo, hi) = somewhere k in rw (e, get_one p al lo hi) (omega arith)

-- After a second call of `alloc_init`, from the same start with at least one page, the list leads
-- back to its own start: when every page has been handed out once, the allocator is as it was
-- before, so that the same pages are handed out again, and it never reports that no page is left.
pub alloc_init-again :
    (start : ℕ) (h h1 : Heap)
    → 0 < start
    → start + 4096 ≤ physstop
    → h.freelist_head < 2 ^ 64
    → alloc_init start h ≡ some (success, h1)
    → (h2 : Heap) × (alloc_init start h1 ≡ some (success, h2))
      × (gets ((physstop - start) / 4096) h2 ≡ h2)
      × ((k : ℕ) → (alloc_get_page (gets k h2)).0 ≢ 0)
alloc_init-again start h h1 pos fits small ran =
    let first = alloc_init-IsLinked start h pos fits small in
    let same : h1 ≡ first.0 = cc (ran, first.1) in
    let head : h1.freelist_head ≡ physstop - 4096 = rw same first.2.highest in
    let second = alloc_init-IsLinked start h1 pos fits (omega (arith, head)) in
    let ring : IsLinked start (physstop - 4096) second.0 = rw head at second.2 in
    (
      second.0,
      second.1,
      gets-all start second.0 pos fits ring ((physstop - start) / 4096) refl,
      gets-nonzero start second.0 pos fits ring,
    )
