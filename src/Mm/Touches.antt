-- ===== src/Mm/Touches.antt =====
-- The pages that the allocator and `vm_map_page` read and write, and that they are those which are
-- not reserved: where paging is on, these are the accesses that the kernel makes.
use lab.Alloc.{Heap}
use lab.Alloc.Chain.{IsPage}
use lab.Memory.{load64}
use lab.Mm.{ensure_table, mask_63_38}
use lab.Mm.Ensure.{IsVmTo, Supplied, EnsureSpec, ensure_table_lem, first_in}
use lab.Mm.Present.{HasLow, child-some}
use lab.Mm.SetLeaf.{low_path, low_path-Bounded}
use lab.Mm.Tree.{WalkPath, top, at, depth, Bounded, child, table_at}
use lab.Mm.Walk.{Supplied-one, Supplied-rest}
use lab.Pgtable.{is_aligned, va_get_index, ptb_get_ptep, pte_valid, pte_leaf, pte_next_ptb}
use lab.Pgtable.Laws.{va_get_index-lt}
use lab.Prelude.{
  ℕ, zero, suc, ◌+◌, ◌*◌, ◌≤◌, ◌≡◌, refl, inl, inr, Bool, true, false, not, ◌&&◌, ◌||◌, some, List,
  [], ◌∷◌, ◌++◌, ◌∉◌, ◌==◌, if◌then◌else◌, length, arith, bit_and, Bool-cases, Option-cases,
  append-not_in, ◌∙◌, ap,
}

-- `alloc_get_page` and `alloc_zero_page`, and `alloc_free_page`.
unfoldable pub get_touches : Heap → List ℕ
get_touches h = if h.is_initialized && not (h.freelist_head == 0) then h.freelist_head ∷ [] else []

unfoldable pub free_touches : ℕ → Heap → List ℕ
free_touches pa h = if h.is_initialized && is_aligned pa then pa ∷ [] else []

-- The loop over the levels, and the table of level 0 at its end.
unfoldable pub walk_touches : ℕ → ℕ → ℕ → Heap → List ℕ
walk_touches va zero ptb h = ptb ∷ []
walk_touches va (suc level) ptb h =
    let ptep = ptb_get_ptep ptb (va_get_index va (suc level)) in
    let (linked, h') = ensure_table ptep h in
    ptb
    ∷ ((if pte_valid (load64 h.mem ptep) then [] else get_touches h)
        ++ (elim (not linked || pte_leaf (load64 h'.mem ptep)) [
          | true ↦ []
          | false ↦ walk_touches va level (pte_next_ptb (load64 h'.mem ptep)) h'
        ]))

unfoldable pub map_touches : ℕ → ℕ → ℕ → Heap → List ℕ
map_touches kernel_root_ptb va pa h =
    let top_bits = bit_and va mask_63_38 in
    if (not (is_aligned va) || not (is_aligned pa))
      || (not (top_bits == 0) && not (top_bits == mask_63_38))
    then []
    else walk_touches va 2 kernel_root_ptb h

-- Pages that are not reserved.
abbrev pub AllOwn : List ℕ → List ℕ → Type 0
AllOwn reserved [] = Unit {0}
AllOwn reserved (x ∷ xs) = (IsPage x × x ∉ reserved) × AllOwn reserved xs

AllOwn-append :
    (reserved xs ys : List ℕ) → AllOwn reserved xs → AllOwn reserved ys → AllOwn reserved (xs ++ ys)
AllOwn-append reserved [] ys a b = b
AllOwn-append reserved (x ∷ xs) ys a b = (a.0, AllOwn-append reserved xs ys a.1 b)

module _ (end : ℕ) (reserved : List ℕ) where
  -- Of an intact kernel with a page left.
  get_touches-own :
      (root p : ℕ) (h : Heap) (free : List ℕ)
      → IsVmTo end reserved root h (p ∷ free)
      → AllOwn reserved (get_touches h)
  unfolding get_touches
  get_touches-own root p h free is =
      let c = is.heap.chain in
      elim (Bool-cases (h.is_initialized && not (h.freelist_head == 0))) [
        | inr off ↦ rw off tt
        | inl on ↦ rw (on, c.0) ((c.1, is.apart p (first_in p free)), tt)
      ]

  pub get_touches-AllOwn :
      (root : ℕ) (h : Heap) (free : List ℕ)
      → IsVmTo end reserved root h free
      → Supplied end 1 free
      → AllOwn reserved (get_touches h)
  unfolding get_touches
  get_touches-AllOwn root h [] is (inr more) = absurd (omega arith)
  get_touches-AllOwn root h [] is (inl null) =
      let none_free : h.freelist_head ≡ 0 = is.heap.chain ∙ null in
      elim (Bool-cases (h.is_initialized && not (h.freelist_head == 0))) [
        | inr off ↦ rw off tt
        | inl on ↦ absurd (ground (arith, none_free, on))
      ]
  get_touches-AllOwn root h (p ∷ free) is room = get_touches-own root p h free is

  table-own :
      (root t : ℕ) (p : WalkPath) (h : Heap) (free : List ℕ)
      → Bounded p
      → IsVmTo end reserved root h free
      → table_at h.mem root p ≡ some t
      → IsPage t × t ∉ reserved
  table-own root t p h free bp is there =
      let page = is.tree.pages p t bp there in (page.0, (append-not_in t reserved free page.1).0)

  pub walk_touches-AllOwn :
      (root va level t : ℕ) (p : WalkPath) (h : Heap) (free : List ℕ)
      → depth p + level ≡ 2
      → Bounded p
      → IsVmTo end reserved root h free
      → Supplied end level free
      → table_at h.mem root p ≡ some t
      → AllOwn reserved (walk_touches va level t h)
  unfolding walk_touches ptb_get_ptep
  walk_touches-AllOwn root va zero t p h free deep bp is room parent =
      (table-own root t p h free bp is parent, tt)
  walk_touches-AllOwn root va (suc level) t p h free deep bp is room parent = (
    table-own root t p h free bp is parent,
    AllOwn-append reserved (if pte_valid (load64 h.mem (t + 8 * i)) then [] else get_touches h) _
        taken
        (go (ensure_table (t + 8 * i) h)
          (ensure_table_lem end reserved root p t i bounded h free is
            (Supplied-one end reserved level free room) parent)
          (λ a h' free' is' le.
            walk_touches-AllOwn root va level a (at p i) h' free' (omega arith) bounded is'
              (Supplied-rest end reserved level free free' le room))),
  )
    where
      i : ℕ
      i = va_get_index va (suc level)

      bounded : Bounded (at p i)
      bounded = (bp, va_get_index-lt va (suc level), omega arith)

      taken : AllOwn reserved (if pte_valid (load64 h.mem (t + 8 * i)) then [] else get_touches h)
      taken = elim (Bool-cases (pte_valid (load64 h.mem (t + 8 * i)))) [
        | inl valid ↦ rw valid tt
        | inr invalid ↦
            rw invalid
              (get_touches-AllOwn root h free is (Supplied-one end reserved level free room))
      ]

      go :
          (r : Bool × Heap)
          → EnsureSpec end reserved root h free p t i r
          → ((a : ℕ) (h' : Heap) (free' : List ℕ)
              → IsVmTo end reserved root h' free'
              → length free ≤ suc (length free')
              → table_at h'.mem root (at p i) ≡ some a
              → AllOwn reserved (walk_touches va level a h'))
          → AllOwn reserved (elim (not r.0 || pte_leaf (load64 r.1.mem (t + 8 * i))) [
            | true ↦ []
            | false ↦ walk_touches va level (pte_next_ptb (load64 r.1.mem (t + 8 * i))) r.1
          ])
      go (false, h') spec below = tt
      go (true, h') (a, free', is', e', noleaf, next, same, le, sh) below =
          rw (noleaf, next) (below a h' free' is' le e')

  -- What `vm_map_page` reads and writes, on an intact kernel with two pages left.
  pub map_touches-AllOwn :
      (root va pa : ℕ) (h : Heap) (free : List ℕ)
      → IsVmTo end reserved root h free
      → Supplied end 2 free
      → AllOwn reserved (map_touches root va pa h)
  unfolding map_touches
  map_touches-AllOwn root va pa h free is room =
      let top_bits = bit_and va mask_63_38 in
      elim (Bool-cases (
        (not (is_aligned va) || not (is_aligned pa))
        || (not (top_bits == 0) && not (top_bits == mask_63_38)))) [
          | inl bad ↦ rw bad tt
          | inr good ↦
              rw good (walk_touches-AllOwn root va 2 root top h free (omega arith) tt is room refl)
        ]

-- Where the tables for the address are there, no page is taken.
ensure_table-valid :
    (ptep : ℕ) (h : Heap) → pte_valid (load64 h.mem ptep) ≡ true → ensure_table ptep h ≡ (true, h)
unfolding ensure_table
ensure_table-valid ptep h valid = rw valid refl

walk_touches-linked :
    (va level t a : ℕ) (h : Heap)
    → child h.mem t (va_get_index va (suc level)) ≡ some a
    → walk_touches va (suc level) t h ≡ t ∷ walk_touches va level a h
unfolding walk_touches ptb_get_ptep
walk_touches-linked va level t a h e =
    let i : ℕ = va_get_index va (suc level) in
    let c = child-some h.mem t i a e in
    let ptep = t + 8 * i in
    let body = λ (r : Bool × Heap).
      t
      ∷ ((if pte_valid (load64 h.mem ptep) then [] else get_touches h)
          ++ (elim (not r.0 || pte_leaf (load64 r.1.mem ptep)) as (λ b. List ℕ) [
            | true ↦ []
            | false ↦ walk_touches va level (pte_next_ptb (load64 r.1.mem ptep)) r.1
          ])) in
    ap body (ensure_table-valid ptep h c.0)
    ∙ rw (c.0, c.1) (ap (λ (b : ℕ). t ∷ walk_touches va level b h) c.2)

walk_touches-three :
    (va root b t : ℕ) (h : Heap)
    → child h.mem root (va_get_index va 2) ≡ some b
    → child h.mem b (va_get_index va 1) ≡ some t
    → walk_touches va 2 root h ≡ root ∷ b ∷ walk_touches va 0 t h
walk_touches-three va root b t h e e' =
    walk_touches-linked va 1 root b h e
    ∙ ap (λ (xs : List ℕ). root ∷ xs) (walk_touches-linked va 0 b t h e')

walk_touches-last : (va t : ℕ) (h : Heap) → walk_touches va 0 t h ≡ t ∷ []
unfolding walk_touches
walk_touches-last va t h = refl

pub map_touches-present :
    (end : ℕ) (reserved : List ℕ) (root va pa : ℕ) (h : Heap) (free : List ℕ)
    → IsVmTo end reserved root h free
    → HasLow root h.mem va
    → AllOwn reserved (map_touches root va pa h)
unfolding map_touches
map_touches-present end reserved root va pa h free is (t, low) =
    let top_bits = bit_and va mask_63_38 in
    elim (Bool-cases (
      (not (is_aligned va) || not (is_aligned pa))
      || (not (top_bits == 0) && not (top_bits == mask_63_38)))) [
        | inl bad ↦ rw bad tt
        | inr good ↦ elim (Option-cases (child h.mem root (va_get_index va 2))) [
          | inl nowhere ↦ absurd (cc (rw nowhere at low))
          | inr (b, e) ↦
              let second : table_at h.mem root (at top (va_get_index va 2)) ≡ some b = e in
              rw (good, walk_touches-three va root b t h e (rw e at low), walk_touches-last va t h)
                (
                  table-own end reserved root root top h free tt is refl,
                  (
                    table-own end reserved root b (at top (va_get_index va 2)) h free
                        (tt, va_get_index-lt va 2, omega arith) is second,
                    (
                      table-own end reserved root t (low_path va) h free (low_path-Bounded va) is
                          low,
                      tt,
                    ),
                  ),
                )
        ]
      ]

pub free_touches-AllOwn :
    (reserved : List ℕ) (pa : ℕ) (h : Heap)
    → IsPage pa
    → pa ∉ reserved
    → AllOwn reserved (free_touches pa h)
unfolding free_touches
free_touches-AllOwn reserved pa h page out = elim (Bool-cases (h.is_initialized && is_aligned pa)) [
  | inl on ↦ rw on ((page, out), tt)
  | inr off ↦ rw off tt
]
