-- ===== src/Mm/Ensure.antt =====
-- `ensure_table` (a step of the loop of `vm_map_page`) on an intact tree: the table of the next
-- level is there, or linked from a free page.
use lab.Alloc.{Heap}
use lab.Alloc.Chain.{
  IsPage, SameOutsidePage, Chain-other_page, store64-SameOutsidePage, load64-other_page,
}
use lab.Alloc.Laws.{IsHeap, IsHeapTo, zero_page-result, zero_page-empty, ready_heap}
use lab.Memory.{
  Mem, load64, store64, memset, memset-inside, memset-outside, load64-zero, load64-store64_self,
  load64-store64_apart,
}
use lab.Mm.{next_entry, ensure_table}
use lab.Mm.Entry.{next_entry-lt, pte_next_ptb-next_entry}
use lab.Mm.Install.{Installed, IsTree-installed, table_at-new, mapping-installed}
use lab.Mm.Tree.{WalkPath, at, Bounded, entry, child, table_at, mapping, IsTree, IsTree-fewer}
use lab.Pgtable.{pte_valid, pte_leaf, pte_next_ptb}
use lab.Prelude.{
  ℕ, suc, ◌+◌, ◌*◌, ◌%◌, ◌≤◌, ◌<◌, ◌≡◌, refl, ◌≢◌, inl, inr, ◌⊎◌, Bool, true, false, some, List, [],
  ◌∷◌, length, arith, Bool-cases, ◌∙◌, ne→==, eq→==, ◌++◌, ◌∈◌, ◌∉◌, ◌==◌, append-not_in,
  not_in-append,
}

-- The page tables are intact, and share no page with the pages `free` that the allocator hands out
-- next, behind which its list goes on at `end`. The pages `reserved`, which the kernel uses
-- otherwise, are neither in `free` nor tables.
pub record IsVmTo (end : ℕ) (reserved : List ℕ) (root : ℕ) (h : Heap) (free : List ℕ) : Type 0 where
  pub heap : IsHeapTo end h free
  pub tree : IsTree h.mem root (reserved ++ free)
  pub apart : (x : ℕ) → x ∈ free → x ∉ reserved

-- The same with `free` as all free pages.
abbrev pub IsVmWith : List ℕ → ℕ → Heap → List ℕ → Type 0
IsVmWith reserved root h free = IsVmTo 0 reserved root h free

-- A call that takes at most `n` pages meets the end of the list only where it is NULL.
abbrev pub Supplied : ℕ → ℕ → List ℕ → Type 0
Supplied end n free = (end ≡ 0) ⊎ (n ≤ length free)

abbrev pub IsVm : ℕ → Heap → List ℕ → Type 0
IsVm root h free = IsVmWith [] root h free

-- The same pages are mapped, by the same entries.
abbrev pub SameMapping : ℕ → Mem → Mem → Type 0
SameMapping root m n =
    (i2 i1 i0 : ℕ)
    → i2 < 512
    → i1 < 512
    → i0 < 512
    → mapping n root i2 i1 i0 ≡ mapping m root i2 i1 i0

-- Clearing a page and linking it at an entry of another.
Installed-link :
    (m : Mem) (t i a : ℕ)
    → IsPage a
    → t % 4096 ≡ 0
    → t ≢ a
    → i < 512
    → Installed m (store64 (memset m a 0 4096) (t + 8 * i) (next_entry a)) t i a
Installed-link m t i a page al ne lt = record {
  cleared = λ j ltj.
      load64-store64_apart z (t + 8 * i) (a + 8 * j) v (omega (arith, page.1))
      ∙ load64-zero z (a + 8 * j)
          (λ x lo hi. memset-inside m a 0 4096 x (omega arith) (omega arith));
  linked = load64-store64_self z (t + 8 * i) v (next_entry-lt a);
  beside = λ j ltj nej.
      load64-store64_apart z (t + 8 * i) (t + 8 * j) v (omega arith)
      ∙ load64-other_page a t j m z same page.1 al ne ltj;
  elsewhere = λ b j alb nea net ltj.
      load64-store64_apart z (t + 8 * i) (b + 8 * j) v (omega arith)
      ∙ load64-other_page a b j m z same page.1 alb nea ltj;
}
  where
    z : Mem
    z = memset m a 0 4096

    v : ℕ
    v = next_entry a

    same : SameOutsidePage a m z
    same = memset-outside m a 0 4096

-- The order of pages does not matter, and a list with one page more holds what it held.
pub cons_first : (a : ℕ) (xs ys : List ℕ) (x : ℕ) → x ∉ xs ++ a ∷ ys → x ∉ a ∷ (xs ++ ys)
cons_first a xs ys x out =
    let both = append-not_in x xs (a ∷ ys) out in
    let rest = append-not_in x (a ∷ []) ys both.1 in
    not_in-append x (a ∷ []) (xs ++ ys) rest.0 (not_in-append x xs ys both.0 rest.1)

pub first_in : (a : ℕ) (xs : List ℕ) → a ∈ a ∷ xs
first_in a xs = rw (eq→== a a refl) refl

pub later_in : (x a : ℕ) (xs : List ℕ) → x ∈ xs → x ∈ a ∷ xs
later_in x a xs e = elim (Bool-cases (x == a)) [
  | inl same ↦ rw same refl
  | inr other ↦ rw (other, e) refl
]

module _ (end : ℕ) (reserved : List ℕ) where
  -- What `ensure_table` leaves behind at entry `i` of the table `t` that stands at the path `p`.
  abbrev pub EnsureSpec : ℕ → Heap → List ℕ → WalkPath → ℕ → ℕ → Bool × Heap → Type 0
  EnsureSpec root h free p t i (true, h') =
      (a : ℕ) × (free' : List ℕ) × IsVmTo end reserved root h' free'
      × (table_at h'.mem root (at p i) ≡ some a)
      × (pte_leaf (entry h'.mem t i) ≡ false)
      × (pte_next_ptb (entry h'.mem t i) ≡ a)
      × SameMapping root h.mem h'.mem
      × (length free ≤ suc (length free'))
      × (length free' ≤ length free)
  EnsureSpec root h free p t i (false, h') = (h' ≡ h) × (free ≡ [])

  module _ (root : ℕ) (p : WalkPath) (t i : ℕ) (bounded : Bounded (at p i)) where
    ensure_table-present :
        (h : Heap) (free : List ℕ)
        → IsVmTo end reserved root h free
        → table_at h.mem root p ≡ some t
        → pte_valid (entry h.mem t i) ≡ true
        → EnsureSpec root h free p t i (ensure_table (t + 8 * i) h)
    unfolding ensure_table child
    ensure_table-present h free is parent valid =
        let leaf = is.tree.no_leaf p t i bounded parent valid in
        rw valid (
          pte_next_ptb (entry h.mem t i),
          free,
          is,
          rw (parent, valid, leaf) refl,
          leaf,
          refl,
          λ i2 i1 i0 lt2 lt1 lt0. refl,
          omega arith,
          omega arith,
        )

    -- The memory with the new table linked.
    abbrev link_table : Heap → ℕ → Mem
    link_table h a = store64 (memset h.mem a 0 4096) (t + 8 * i) (next_entry a)

    link_table-EnsureSpec :
        (h : Heap) (a : ℕ) (free : List ℕ)
        → IsVmTo end reserved root h (a ∷ free)
        → table_at h.mem root p ≡ some t
        → pte_valid (entry h.mem t i) ≡ false
        → EnsureSpec root h (a ∷ free) p t i (true, ready_heap (link_table h a) (load64 h.mem a))
    link_table-EnsureSpec h a free is parent invalid =
        let c = is.heap.chain in
        let page = c.1 in
        let table = is.tree.pages p t bounded.0 parent in
        let out = append-not_in t reserved (a ∷ free) table.1 in
        let ne : t ≢ a = ground (arith, out.1) in
        let before =
          IsTree-fewer h.mem root (reserved ++ a ∷ free) (a ∷ (reserved ++ free))
            (cons_first a reserved free) is.tree in
        let new = not_in-append a reserved free (is.apart a (first_in a free)) c.2 in
        let done = Installed-link h.mem t i a page table.0.1 ne bounded.1 in
        let next = pte_next_ptb-next_entry a page.1 page.2 in
        let z = memset h.mem a 0 4096 in
        let cleared =
          Chain-other_page end a h.mem z (load64 h.mem a) free (memset-outside h.mem a 0 4096)
            page.1 c.2 c.3 in
        (
          a,
          free,
          record {
            heap = record {
              ready = refl;
              chain =
                  Chain-other_page end t z (link_table h a) (load64 h.mem a) free
                    (store64-SameOutsidePage t i (next_entry a) z bounded.1) table.0.1
                    (ground (arith, out.1)) cleared;
            };
            tree =
                IsTree-installed h.mem (link_table h a) root t i a p (reserved ++ free) before
                  bounded parent invalid page new done;
            apart = λ x e. is.apart x (later_in x a free e);
          },
          table_at-new h.mem (link_table h a) root t i a p (reserved ++ free) before bounded parent
              invalid page new done,
          rw done.linked next.1,
          rw done.linked next.2,
          mapping-installed h.mem (link_table h a) root t i a p (reserved ++ free) before bounded
              parent invalid page new done,
          omega arith,
          omega arith,
        )

    ensure_table-absent :
        (h : Heap) (free : List ℕ)
        → IsVmTo end reserved root h free
        → Supplied end 1 free
        → table_at h.mem root p ≡ some t
        → pte_valid (entry h.mem t i) ≡ false
        → EnsureSpec root h free p t i (ensure_table (t + 8 * i) h)
    unfolding ensure_table
    ensure_table-absent h [] is (inr more) parent invalid = absurd (omega arith)
    ensure_table-absent h [] is (inl null) parent invalid =
        let none_free : IsHeap h [] = record {
          ready = is.heap.ready;
          chain = is.heap.chain ∙ null;
        } in
        rw (invalid, zero_page-empty h none_free) (refl, refl)
    ensure_table-absent h (a ∷ free) is room parent invalid =
        let c = is.heap.chain in
        rw (invalid, zero_page-result h a is.heap.ready c.0 (omega arith), ne→== a 0 (omega arith))
          (link_table-EnsureSpec h a free is parent invalid)

    pub ensure_table_lem :
        (h : Heap) (free : List ℕ)
        → IsVmTo end reserved root h free
        → Supplied end 1 free
        → table_at h.mem root p ≡ some t
        → EnsureSpec root h free p t i (ensure_table (t + 8 * i) h)
    ensure_table_lem h free is room parent = elim (Bool-cases (pte_valid (entry h.mem t i))) [
      | inl valid ↦ ensure_table-present h free is parent valid
      | inr invalid ↦ ensure_table-absent h free is room parent invalid
    ]
