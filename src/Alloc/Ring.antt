-- ===== src/Alloc/Ring.antt =====
-- The list that `alloc_init` leaves, as the pages that it hands out: from the highest page down, and
-- behind the lowest one it goes on where it started before.
use lab.Alloc.{Heap, physstop}
use lab.Alloc.Again.{IsLinked, first_page_from}
use lab.Alloc.Chain.{Chain}
use lab.Alloc.Laws.{IsHeapTo, ready_heap}
use lab.Memory.{load64, store64, load64-store64_self, load64-store64_apart}
use lab.Pgtable.{ppn_up}
use lab.Prelude.{
  ℕ, zero, suc, ◌+◌, ◌-◌, ◌*◌, ◌/◌, ◌%◌, ◌^◌, ◌≤◌, ◌<◌, ◌≡◌, refl, inl, inr, List, [], ◌∷◌, ◌∉◌,
  ◌∈◌, length, arith, eq_or_ne, ◌∙◌,
}

-- `n` pages from `cur` on, the highest first.
abbrev pub pages_down : ℕ → ℕ → List ℕ
pages_down cur zero = []
pages_down cur (suc n) = (cur + 4096 * n) ∷ pages_down cur n

length-pages_down : (cur n : ℕ) → length (pages_down cur n) ≡ n
length-pages_down cur zero = refl
length-pages_down cur (suc n) = omega (arith, length-pages_down cur n)

pub above-pages_down : (cur n x : ℕ) → cur + 4096 * n ≤ x → x ∉ pages_down cur n
above-pages_down cur zero x le = refl
above-pages_down cur (suc n) x le = ground (arith, above-pages_down cur n x (omega arith))

pub pages_down-bounds : (cur n x : ℕ) → x ∈ pages_down cur n → (cur ≤ x) × (x < cur + 4096 * n)
pages_down-bounds cur zero x held = absurd (cc held)
pages_down-bounds cur (suc n) x held = elim (eq_or_ne x (cur + 4096 * n)) [
  | inl same ↦ omega (arith, same)
  | inr ne ↦ let rest = pages_down-bounds cur n x (ground (arith, held)) in omega (arith, rest)
]

-- Where the list is with `n` pages left.
abbrev position : ℕ → ℕ → ℕ → ℕ
position cur old zero = old
position cur old (suc n) = cur + 4096 * n

module _ (start old cur : ℕ) (h : Heap) (linked : IsLinked start old h) (al : cur % 4096 ≡ 0)
    (pos : 0 < start) (lo : start ≤ cur) (hi : cur < start + 4096) where
  next-position :
      (n : ℕ) → cur + 4096 * n < physstop → load64 h.mem (cur + 4096 * n) ≡ position cur old n
  next-position zero lt =
      linked.linked (cur + 4096 * 0) (omega arith) (omega arith) lt ∙ ground arith
  next-position (suc n) lt =
      linked.linked (cur + 4096 * suc n) (omega arith) (omega arith) lt ∙ ground arith

  pages_down-Chain :
      (n : ℕ) → cur + 4096 * n ≤ physstop → Chain old h.mem (position cur old n) (pages_down cur n)
  pages_down-Chain zero le = refl
  pages_down-Chain (suc n) le = (
    refl,
    (omega arith, omega arith, omega arith),
    above-pages_down cur n (cur + 4096 * n) (omega arith),
    rw (next-position n (omega arith)) (pages_down-Chain n (omega arith)),
  )

-- The pages that such a list hands out.
abbrev pub all_pages : ℕ → List ℕ
all_pages start = pages_down (first_page_from start) ((physstop - first_page_from start) / 4096)

pub length-all_pages :
    (start : ℕ) → start ≤ physstop → length (all_pages start) ≡ (physstop - start) / 4096
unfolding ppn_up
length-all_pages start fits =
    length-pages_down (first_page_from start) ((physstop - first_page_from start) / 4096)
    ∙ omega arith

pub IsLinked-IsHeapTo :
    (start old : ℕ) (h : Heap)
    → 0 < start
    → start + 4096 ≤ physstop
    → IsLinked start old h
    → IsHeapTo old h (all_pages start)
unfolding ppn_up
IsLinked-IsHeapTo start old h pos fits linked =
    let cur : ℕ = first_page_from start in
    from_pages cur ((physstop - cur) / 4096) (omega arith) (omega arith) (omega arith) (omega arith)
  where
    from_pages :
        (cur n : ℕ)
        → cur % 4096 ≡ 0
        → start ≤ cur
        → cur < start + 4096
        → cur + 4096 * n ≡ physstop
        → IsHeapTo old h (pages_down cur n)
    from_pages cur zero al lo hi ends = absurd (omega arith)
    from_pages cur (suc n) al lo hi ends =
        let top : h.freelist_head ≡ cur + 4096 * n = linked.highest ∙ omega arith in
        record {
          ready = linked.ready;
          chain =
              rw top (pages_down-Chain start old cur h linked al pos lo hi (suc n) (omega arith));
        }

-- The highest page is taken and given back.
pub IsLinked-given_back :
    (start old : ℕ) (h : Heap)
    → start + 4096 ≤ physstop
    → old < 2 ^ 64
    → IsLinked start old h
    → IsLinked start old (
        ready_heap
          (store64 h.mem (physstop - 4096) (load64 h.mem (physstop - 4096)))
          (physstop - 4096))
IsLinked-given_back start old h fits small linked = record {
  ready = refl;
  highest = refl;
  linked = λ x al lo hi. elim (eq_or_ne x (physstop - 4096)) [
    | inl same ↦
        let link = linked.linked (physstop - 4096) (omega arith) (omega arith) (omega arith) in
        let fit : load64 h.mem (physstop - 4096) < 2 ^ 64 = rw link (ground arith) in
        rw same
          (load64-store64_self h.mem (physstop - 4096) (load64 h.mem (physstop - 4096)) fit ∙ link)
    | inr ne ↦
        load64-store64_apart h.mem (physstop - 4096) x (load64 h.mem (physstop - 4096))
          (omega arith)
        ∙ linked.linked x al lo hi
  ];
}

pub all_pages-bounds :
    (start x : ℕ)
    → start + 4096 ≤ physstop
    → x ∈ all_pages start
    → (first_page_from start ≤ x) × (x < physstop)
unfolding ppn_up
all_pages-bounds start x fits held =
    let b =
      pages_down-bounds (first_page_from start) ((physstop - first_page_from start) / 4096) x
        held in
    omega (arith, b)
