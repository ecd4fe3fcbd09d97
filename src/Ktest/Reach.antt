-- ===== src/Ktest/Reach.antt =====
-- Where the kernel reaches the pages that it works on: with paging off, or where the tables map them
-- to themselves.
use lab.Alloc.Chain.{IsPage}
use lab.Ktest.World.{World, root_of, reaches, reached}
use lab.Memory.{Mem}
use lab.Mm.Access.{load, store, permits}
use lab.Mm.SetLeaf.{page_mapping}
use lab.Mm.Touches.{AllOwn}
use lab.Pgtable.{pte_next_ptb}
use lab.Pgtable.Laws.{IsCanonical}
use lab.Prelude.{
  ℕ, ◌/◌, ◌%◌, ◌^◌, ◌<◌, ◌≡◌, refl, ◌≢◌, ◌⊎◌, inl, inr, true, none, some, List, [], ◌∷◌, ◌∉◌, arith,
  ◌∙◌, eq→==, eq_or_ne, ap, sym,
}

-- The page is mapped to itself for loads and stores.
abbrev pub IsOwn : ℕ → Mem → ℕ → Type 0
IsOwn root m x =
    (x < 2 ^ 38)
    × (pte : ℕ) × (page_mapping m root x ≡ some pte)
    × (permits load pte ≡ true)
    × (permits store pte ≡ true)
    × (pte_next_ptb pte ≡ x)

abbrev pub OwnPages : List ℕ → ℕ → Mem → Type 0
OwnPages reserved root m = (x : ℕ) → IsPage x → x ∉ reserved → IsOwn root m x

-- Paging is off, or the kernel's tables are in use and map every page that is not reserved to itself.
abbrev pub Reaching : List ℕ → World → Type 0
Reaching reserved w =
    (w.satp ≡ 0)
    ⊎ ((root_of w.satp ≡ w.kernel_root_ptb) × OwnPages reserved w.kernel_root_ptb w.heap.mem)

reaches-own :
    (w : World) (x : ℕ)
    → root_of w.satp ≡ w.kernel_root_ptb
    → IsOwn w.kernel_root_ptb w.heap.mem x
    → reaches w x ≡ true
unfolding reaches
reaches-own w x at_root (low, pte, there, loads, stores, next) =
    rw (at_root, there, loads, stores, eq→== (pte_next_ptb pte) x next) (ground arith)

reaches-unpaged : (w : World) (x : ℕ) → w.satp ≡ 0 → reaches w x ≡ true
unfolding reaches
reaches-unpaged w x off = rw (eq→== w.satp 0 off) refl

pub reached-unpaged : (w : World) (xs : List ℕ) → w.satp ≡ 0 → reached w xs ≡ true
reached-unpaged w [] off = refl
reached-unpaged w (x ∷ xs) off = rw (reaches-unpaged w x off, reached-unpaged w xs off) refl

pub Reaching-reached :
    (reserved : List ℕ) (w : World) (xs : List ℕ)
    → Reaching reserved w
    → AllOwn reserved xs
    → reached w xs ≡ true
Reaching-reached reserved w [] reach own = refl
Reaching-reached reserved w (x ∷ xs) (inl off) own = reached-unpaged w (x ∷ xs) off
Reaching-reached reserved w (x ∷ xs) (inr (at_root, pages)) own =
    rw
      (
        reaches-own w x at_root (pages x own.0.0 own.0.1),
        Reaching-reached reserved w xs (inr (at_root, pages)) own.1,
      )
      refl

-- Where a page that was not mapped is, and the others are mapped as before.
pub Reaching-kept :
    (reserved : List ℕ) (w w' : World) (va : ℕ)
    → w'.satp ≡ w.satp
    → w'.kernel_root_ptb ≡ w.kernel_root_ptb
    → va % 4096 ≡ 0
    → page_mapping w.heap.mem w.kernel_root_ptb va ≡ none
    → ((x : ℕ)
        → IsCanonical x
        → va / 4096 ≢ x / 4096
        → page_mapping w'.heap.mem w.kernel_root_ptb x
          ≡ page_mapping w.heap.mem w.kernel_root_ptb x)
    → Reaching reserved w
    → Reaching reserved w'
Reaching-kept reserved w w' va satp root al unused others (inl off) = inl (satp ∙ off)
Reaching-kept reserved w w' va satp root al unused others (inr (at_root, pages)) = inr (
  ap root_of satp ∙ at_root ∙ sym root,
  λ x page out.
      let (low, pte, there, loads, stores, next) = pages x page out in
      elim (eq_or_ne va x) [
        | inl same ↦ absurd (cc (rw same at unused, there))
        | inr ne ↦ (
          low,
          pte,
          rw root (others x (inl low) (omega (arith, page.1)) ∙ there),
          loads,
          stores,
          next,
        )
      ],
)

-- On the same tables.
pub Reaching-same :
    (reserved : List ℕ) (w w' : World)
    → w'.satp ≡ w.satp
    → w'.kernel_root_ptb ≡ w.kernel_root_ptb
    → w'.heap.mem ≡ w.heap.mem
    → Reaching reserved w
    → Reaching reserved w'
Reaching-same reserved w w' satp root mem (inl off) = inl (satp ∙ off)
Reaching-same reserved w w' satp root mem (inr (at_root, pages)) =
    inr (ap root_of satp ∙ at_root ∙ sym root, λ x page out. rw (root, mem) (pages x page out))
