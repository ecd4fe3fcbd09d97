-- ===== src/Alloc/Laws.antt =====
-- What the operations of src/alloc.c do to the list of free pages.
use lab.Alloc.{Heap, success, failure, alloc_free_page, alloc_get_page, alloc_zero_page}
use lab.Alloc.Chain.{
  IsPage, Chain, SameOutsidePage, Chain-cons, Chain-head-lt, Chain-other_page,
  store64-first-SameOutsidePage,
}
use lab.Memory.{Mem, load64, store64, memset, load64-store64_self, memset-inside, memset-outside}
use lab.Pgtable.{is_aligned}
use lab.Pgtable.Laws.{is_aligned_iff}
use lab.Prelude.{
  ℕ, ◌+◌, ◌%◌, ◌^◌, ◌≤◌, ◌<◌, ◌≡◌, refl, ◌≢◌, true, false, List, [], ◌∷◌, arith, ◌∉◌, ne→==, eq→==,
}

-- The allocator is ready, and the pages that it hands out next are `xs`, in this order; behind them
-- its list goes on at `end`.
pub record IsHeapTo (end : ℕ) (h : Heap) (xs : List ℕ) : Type 0 where
  pub ready : h.is_initialized ≡ true
  pub chain : Chain end h.mem h.freelist_head xs

-- The allocator is ready and its free pages are `xs`, in the order in which they are handed out.
abbrev pub IsHeap : Heap → List ℕ → Type 0
IsHeap h xs = IsHeapTo 0 h xs

-- While the allocator is not initialised no page is handed out or taken, and nothing changes.
pub alloc_uninitialised :
    (h : Heap) (pa : ℕ)
    → h.is_initialized ≡ false
    → (alloc_get_page h ≡ (0, h))
      × (alloc_zero_page h ≡ (0, h))
      × (alloc_free_page pa h ≡ (failure, h))
unfolding alloc_get_page alloc_zero_page alloc_free_page
alloc_uninitialised h pa off = (simp off refl, simp off refl, simp off refl)

-- An address that is not page-aligned is refused, and nothing changes.
pub alloc_free_page-misaligned :
    (h : Heap) (pa : ℕ) → pa % 4096 ≢ 0 → alloc_free_page pa h ≡ (failure, h)
unfolding alloc_free_page
alloc_free_page-misaligned h pa bad = ground (arith, is_aligned_iff pa)

-- What `alloc_get_page` returns on a ready allocator with the free pages `xs`.
abbrev pub GetSpec : Heap → List ℕ → ℕ × Heap → Type 0
GetSpec h [] r = r ≡ (0, h)
GetSpec h (p ∷ xs) r = (r.0 ≡ p) × (r.0 ≢ 0) × IsHeap r.1 xs × (p ∉ xs) × (r.1.mem ≡ h.mem)

-- A ready allocator, field by field.
abbrev pub ready_heap : Mem → ℕ → Heap
ready_heap m p = record { mem = m; freelist_head = p; is_initialized = true }

pub get_page-result :
    (h : Heap) (p : ℕ)
    → h.is_initialized ≡ true
    → h.freelist_head ≡ p
    → p ≢ 0
    → alloc_get_page h ≡ (p, ready_heap h.mem (load64 h.mem p))
unfolding alloc_get_page
get_page-result h p ready e ne = ground arith

-- The page in front is handed out, wherever the list goes on behind `xs`.
pub get_page_to :
    (end : ℕ) (h : Heap) (p : ℕ) (xs : List ℕ)
    → IsHeapTo end h (p ∷ xs)
    → let r = alloc_get_page h in
      (r.0 ≡ p) × (r.0 ≢ 0) × IsHeapTo end r.1 xs × (p ∉ xs) × (r.1.mem ≡ h.mem)
get_page_to end h p xs is =
    let c = is.chain in
    rw (get_page-result h p is.ready c.0 (omega arith))
      (refl, omega arith, record { ready = refl; chain = c.3 }, c.2, refl)

-- On an intact allocator `alloc_get_page` hands out the first free page, which is not 0 and leaves
-- the list; the memory is as before. With no free page left the result is 0 and nothing changes.
pub alloc_get_page_lem : (h : Heap) (xs : List ℕ) → IsHeap h xs → GetSpec h xs (alloc_get_page h)
alloc_get_page_lem h [] is =
    unfold alloc_get_page in simp (is.ready, eq→== h.freelist_head 0 is.chain) refl
alloc_get_page_lem h (p ∷ xs) is = get_page_to 0 h p xs is

module _ (h : Heap) (pa : ℕ) (ready : h.is_initialized ≡ true) (page : IsPage pa) where
  aligned : is_aligned pa ≡ true
  aligned = (is_aligned_iff pa).1 page.1

  -- A page that is freed goes to the front of the list.
  pub free_page-result :
      alloc_free_page pa h
      ≡ (success, record h { mem = store64 h.mem pa h.freelist_head; freelist_head = pa })
  unfolding alloc_free_page
  free_page-result = simp (ready, aligned) refl

  -- On an initialised allocator whose list head fits a u64, the page that was freed last is handed
  -- out next, and the list head is what it was before.
  pub alloc_get_page-alloc_free_page :
      h.freelist_head < 2 ^ 64
      → alloc_get_page (alloc_free_page pa h).1
        ≡ (pa, record h { mem = store64 h.mem pa h.freelist_head })
  unfolding alloc_get_page
  alloc_get_page-alloc_free_page small =
      rw
        (
          free_page-result,
          ready,
          ne→== pa 0 (omega arith),
          load64-store64_self h.mem pa h.freelist_head small,
        )
        refl

-- A page that is freed is in front of the list, wherever that leads to.
pub free_page_to :
    (end : ℕ) (h : Heap) (xs : List ℕ) (pa : ℕ)
    → end < 2 ^ 64
    → IsHeapTo end h xs
    → IsPage pa
    → pa ∉ xs
    → ((alloc_free_page pa h).0 ≡ success)
      × IsHeapTo end (alloc_free_page pa h).1 (pa ∷ xs)
      × SameOutsidePage pa h.mem (alloc_free_page pa h).1.mem
free_page_to end h xs pa small is page out = rw (free_page-result h pa is.ready page) (
  refl,
  record {
    ready = is.ready;
    chain =
        Chain-cons end pa h.freelist_head h.mem xs page out
          (Chain-head-lt end h.mem h.freelist_head xs small is.chain) is.chain;
  },
  store64-first-SameOutsidePage pa h.freelist_head h.mem,
)

-- On an intact allocator, freeing a page that is not in the list succeeds, puts it in front, keeps
-- the list intact, and writes only to that page.
pub alloc_free_page_lem :
    (h : Heap) (xs : List ℕ) (pa : ℕ)
    → IsHeap h xs
    → IsPage pa
    → pa ∉ xs
    → ((alloc_free_page pa h).0 ≡ success)
      × IsHeap (alloc_free_page pa h).1 (pa ∷ xs)
      × SameOutsidePage pa h.mem (alloc_free_page pa h).1.mem
alloc_free_page_lem h xs pa is page out = free_page_to 0 h xs pa (omega arith) is page out

pub zero_page-result :
    (h : Heap) (p : ℕ)
    → h.is_initialized ≡ true
    → h.freelist_head ≡ p
    → p ≢ 0
    → alloc_zero_page h ≡ (p, ready_heap (memset h.mem p 0 4096) (load64 h.mem p))
unfolding alloc_zero_page
zero_page-result h p ready e ne = simp (get_page-result h p ready e ne, ne→== p 0 ne) refl

pub zero_page-empty : (h : Heap) → IsHeap h [] → alloc_zero_page h ≡ (0, h)
unfolding alloc_zero_page
zero_page-empty h is = rw (alloc_get_page_lem h [] is) refl

-- On an intact allocator with a free page left, `alloc_zero_page` returns the page at the front of
-- the list, keeps the rest of the list intact, leaves the page filled with zeros, and writes to no
-- other page.
pub alloc_zero_page_lem :
    {end : ℕ} (h : Heap) (p : ℕ) (xs : List ℕ)
    → IsHeapTo end h (p ∷ xs)
    → ((alloc_zero_page h).0 ≡ p)
      × IsHeapTo end (alloc_zero_page h).1 xs
      × SameOutsidePage p h.mem (alloc_zero_page h).1.mem
      × ((x : ℕ) → p ≤ x → x < p + 4096 → (alloc_zero_page h).1.mem x ≡ 0)
alloc_zero_page_lem h p xs is =
    let c = is.chain in
    let same : SameOutsidePage p h.mem (memset h.mem p 0 4096) = memset-outside h.mem p 0 4096 in
    rw (zero_page-result h p is.ready c.0 (omega arith)) (
      refl,
      record {
        ready = refl;
        chain = Chain-other_page _ p h.mem _ (load64 h.mem p) xs same c.1.1 c.2 c.3;
      },
      same,
      memset-inside h.mem p 0 4096,
    )

-- A page that is freed twice is handed out twice: on an initialised allocator both of the next two
-- calls of `alloc_get_page` return it.
pub alloc_get_page-freed_twice :
    (h : Heap) (pa : ℕ)
    → h.is_initialized ≡ true
    → IsPage pa
    → let r = alloc_get_page (alloc_free_page pa (alloc_free_page pa h).1).1 in
      (r.0 ≡ pa) × ((alloc_get_page r.1).0 ≡ pa)
alloc_get_page-freed_twice h pa ready page =
    let h1 : Heap = record h { mem = store64 h.mem pa h.freelist_head; freelist_head = pa } in
    rw
      (
        free_page-result h pa ready page,
        alloc_get_page-alloc_free_page h1 pa ready page (omega arith),
        get_page-result (record h1 { mem = store64 h1.mem pa pa }) pa ready refl (omega arith),
      )
      (refl, refl)
