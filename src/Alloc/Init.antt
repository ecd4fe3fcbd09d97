-- ===== src/Alloc/Init.antt =====
-- `alloc_init`: the loop ends, and the list then holds every whole page up to `PHYSTOP`.
use lab.Alloc.{Heap, success, alloc_free_page, alloc_init_loop, alloc_init, init_fuel, physstop}
use lab.Alloc.Laws.{IsHeap, alloc_free_page_lem}
use lab.Memory.{Mem}
use lab.Pgtable.{ppn_up, ◌<<<◌}
use lab.Prelude.{
  ℕ, zero, suc, ◌+◌, ◌-◌, ◌*◌, ◌/◌, ◌%◌, ◌≤◌, ◌<◌, ◌≡◌, refl, ◌∙◌, ◌⊎◌, ◌↔◌, Bool, true, ◌&&◌, ◌||◌,
  List, [], ◌∷◌, Option, some, arith, ◌==◌, ltb, leb, has, ◌∈◌, ◌∉◌, length, lt→ltb, ltb-false,
}

-- The list after the `n` pages from `cur` on have been pushed, one by one.
abbrev pub push_pages : ℕ → ℕ → List ℕ → List ℕ
push_pages zero cur xs = xs
push_pages (suc n) cur xs = push_pages n (cur + 4096) (cur ∷ xs)

abbrev in_range : ℕ → ℕ → ℕ → Bool
in_range n cur x = (x % 4096 == 0) && (leb cur x && ltb x (cur + 4096 * n))

has-push_pages :
    (n cur x : ℕ) (xs : List ℕ)
    → cur % 4096 ≡ 0
    → has x (push_pages n cur xs) ≡ (has x xs || in_range n cur x)
has-push_pages zero cur x xs al = ground arith
has-push_pages (suc n) cur x xs al =
    has-push_pages n (cur + 4096) x (cur ∷ xs) (omega arith) ∙ ground arith

length-push_pages : (n cur : ℕ) (xs : List ℕ) → length (push_pages n cur xs) ≡ n + length xs
length-push_pages zero cur xs = omega arith
length-push_pages (suc n) cur xs = omega (arith, length-push_pages n (cur + 4096) (cur ∷ xs))

mem-push_pages :
    (n cur start x : ℕ)
    → start ≤ cur
    → cur < start + 4096
    → cur % 4096 ≡ 0
    → cur + 4096 * n ≡ physstop
    → (x ∈ push_pages n cur []) ↔ ((x % 4096 ≡ 0) × (start ≤ x) × (x < physstop))
mem-push_pages n cur start x lo hi al ends = ground (arith, has-push_pages n cur x [] al)

-- `n` is `m` but for addresses from `lo` up to `PHYSTOP`.
abbrev pub SameBelow : ℕ → Mem → Mem → Type 0
SameBelow lo m n = (x : ℕ) → (x < lo) ⊎ (physstop ≤ x) → n x ≡ m x

abbrev Initialised : ℕ → ℕ → Heap → List ℕ → Option Heap → Type 0
Initialised n cur h xs r =
    (h' : Heap) × (r ≡ some h') × IsHeap h' (push_pages n cur xs) × SameBelow cur h.mem h'.mem

module _ (fuel cur : ℕ) (h : Heap) where
  pub loop-more :
      cur < physstop
      → alloc_init_loop (suc fuel) cur h
        ≡ alloc_init_loop fuel (cur + 4096) (alloc_free_page cur h).1
  unfolding alloc_init_loop
  loop-more lt = rw (lt→ltb cur physstop lt) refl

  pub loop-done : physstop ≤ cur → alloc_init_loop (suc fuel) cur h ≡ some h
  unfolding alloc_init_loop
  loop-done le = rw (ltb-false cur physstop le) refl

-- The loop frees the `n` pages that are left, none of which is in the list yet.
alloc_init_loop_lem :
    (fuel n cur : ℕ) (h : Heap) (xs : List ℕ)
    → n < fuel
    → cur + 4096 * n ≡ physstop
    → 0 < cur
    → cur % 4096 ≡ 0
    → IsHeap h xs
    → ((x : ℕ) → cur ≤ x → x < physstop → x ∉ xs)
    → Initialised n cur h xs (alloc_init_loop fuel cur h)
alloc_init_loop_lem zero n cur h xs enough ends pos al is new = absurd (omega arith)
alloc_init_loop_lem (suc fuel) zero cur h xs enough ends pos al is new =
    rw (loop-done fuel cur h (omega arith)) (h, refl, is, λ x out. refl)
alloc_init_loop_lem (suc fuel) (suc n) cur h xs enough ends pos al is new =
    let step =
      alloc_free_page_lem h xs cur is (pos, al, omega arith)
        (new cur (omega arith) (omega arith)) in
    let rest =
      alloc_init_loop_lem fuel n (cur + 4096) (alloc_free_page cur h).1 (cur ∷ xs) (omega arith)
        (omega arith) (omega arith) (omega arith) step.1 (λ x lo hi. ground (arith, new x)) in
    rw (loop-more fuel cur h (omega arith))
      (rest.0, rest.1, rest.2, λ x out. rest.3 x (omega arith) ∙ step.2 x (omega arith))

pub alloc_init-of_loop :
    (start : ℕ) (h h' : Heap)
    → alloc_init_loop init_fuel (ppn_up start <<< 12) (record h { is_initialized = true }) ≡ some h'
    → alloc_init start h ≡ some (success, h')
unfolding alloc_init
alloc_init-of_loop start h h' e = rw (e, alloc_init) refl

-- What `alloc_init` leaves: the free pages are exactly the page-aligned addresses from `start` up
-- to `PHYSTOP`, and no other byte of the memory has changed.
pub record IsFilled (start : ℕ) (m : Mem) (h : Heap) (pages : List ℕ) : Type 0 where
  pub is_heap : IsHeap h pages
  pub exactly : (x : ℕ) → (x ∈ pages) ↔ ((x % 4096 ≡ 0) × (start ≤ x) × (x < physstop))
  pub count : length pages ≡ (physstop - start) / 4096
  pub kept : (x : ℕ) → (x < start) ⊎ (physstop ≤ x) → h.mem x ≡ m x

-- On an empty list, and from a start between 1 and `PHYSTOP`, `alloc_init` ends with success. The
-- free pages are then exactly the aligned addresses from the start up to `PHYSTOP`, each once,
-- and only their memory has been written.
pub alloc_init_lem :
    (start : ℕ) (h : Heap)
    → 0 < start
    → start ≤ physstop
    → h.freelist_head ≡ 0
    → (h' : Heap) × (pages : List ℕ) × (alloc_init start h ≡ some (success, h'))
      × IsFilled start h.mem h' pages
alloc_init_lem start h pos fits empty = (
  rest.0,
  push_pages n cur [],
  ran,
  record {
    is_heap = rest.2;
    exactly = λ x. mem-push_pages n cur start x rounded.0 rounded.1 rounded.2 ends;
    count = omega (arith, length-push_pages n cur [], rounded, ends);
    kept = λ x out. rest.3 x (omega (arith, rounded));
  },
)
  where
    cur : ℕ
    cur = ppn_up start <<< 12

    rounded : (start ≤ cur) × (cur < start + 4096) × (cur % 4096 ≡ 0)
    rounded = unfold ppn_up in omega arith

    n : ℕ
    n = (physstop - cur) / 4096

    ends : cur + 4096 * n ≡ physstop
    ends = omega (arith, rounded)

    h0 : Heap
    h0 = record h { is_initialized = true }

    rest : Initialised n cur h0 [] (alloc_init_loop init_fuel cur h0)
    rest =
        alloc_init_loop_lem init_fuel n cur h0 [] (omega (arith, rounded)) (omega (arith, rounded))
          (omega (arith, rounded)) (omega (arith, rounded)) (record { ready = refl; chain = empty })
          (λ x lo hi. refl)

    ran : alloc_init start h ≡ some (success, rest.0)
    ran = alloc_init-of_loop start h rest.0 rest.1
