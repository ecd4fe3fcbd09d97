-- ===== src/Mm/SetLeaf.antt =====
-- The end of `vm_map_page`, at the entry of level 0, and the statement of what the whole call does.
use lab.Alloc.{Heap, Status, success, failure}
use lab.Alloc.Chain.{SameOutsidePage, Chain-other_page, load64-other_page, store64-SameOutsidePage}
use lab.Memory.{Mem, store64, load64-store64_self, load64-store64_apart}
use lab.Mm.{leaf_entry, set_leaf}
use lab.Mm.Entry.{leaf_entry-lt, leaf_entry-valid}
use lab.Mm.Leaf.{Written, table_at-written, IsTree-written, leaf-written, leaf-kept}
use lab.Mm.Tree.{WalkPath, top, at, Bounded, entry, and_then, table_at, leaf_at, mapping}
use lab.Mm.Ensure.{IsVmTo, SameMapping}
use lab.Mm.Walk.{WalkSpec}
use lab.Pgtable.{va_get_index, ptb_get_ptep, pte_valid}
use lab.Pgtable.Laws.{va_get_index-lt, IsCanonical}
use lab.Prelude.{
  ℕ, ◌+◌, ◌*◌, ◌%◌, ◌^◌, ◌≤◌, ◌<◌, ◌≡◌, refl, ◌≢◌, ◌⊎◌, inl, inr, true, false, Option, none, some,
  List, [], ◌++◌, append-not_in, length, arith, Bool-cases, ◌∙◌, sym, ap,
}

-- The path to the table of level 0, and the page that is mapped there.
abbrev pub low_path : ℕ → WalkPath
low_path va = at (at top (va_get_index va 2)) (va_get_index va 1)

abbrev pub page_mapping : Mem → ℕ → ℕ → Option ℕ
page_mapping m root va = mapping m root (va_get_index va 2) (va_get_index va 1) (va_get_index va 0)

pub low_path-Bounded : (va : ℕ) → Bounded (low_path va)
low_path-Bounded va = ((tt, va_get_index-lt va 2, omega arith), va_get_index-lt va 1, omega arith)

-- All triples of indices but those of `va` are mapped as before.
abbrev pub SameElsewhere : ℕ → ℕ → Mem → Mem → Type 0
SameElsewhere root va m n =
    (i2 i1 i0 : ℕ)
    → i2 < 512
    → i1 < 512
    → i0 < 512
    → (i2 ≢ va_get_index va 2) ⊎ ((i1 ≢ va_get_index va 1) ⊎ (i0 ≢ va_get_index va 0))
    → mapping n root i2 i1 i0 ≡ mapping m root i2 i1 i0

-- Why a call may fail.
abbrev pub Refused : ℕ → ℕ → ℕ → Heap → List ℕ → Type 0
Refused root va pa h free =
    (va % 4096 ≢ 0)
    ⊎ ((pa % 4096 ≢ 0)
        ⊎ ((¬ (IsCanonical va)) ⊎ ((page_mapping h.mem root va ≢ none) ⊎ (length free < 2))))

Written-store :
    (m : Mem) (t i v : ℕ)
    → t % 4096 ≡ 0
    → i < 512
    → v < 2 ^ 64
    → Written m (store64 m (t + 8 * i) v) t i v
Written-store m t i v al lt small = record {
  written = load64-store64_self m (t + 8 * i) v small;
  beside = λ j ltj ne. load64-store64_apart m (t + 8 * i) (t + 8 * j) v (omega arith);
  elsewhere = λ b j alb ne ltj.
      load64-other_page t b j m _ (store64-SameOutsidePage t i v m lt) al alb ne ltj;
}

-- Two paths of two indices agree in both.
low_path_injective :
    (i2 i1 j2 j1 : ℕ) → at (at top i2) i1 ≡ at (at top j2) j1 → (i2 ≡ j2) × (i1 ≡ j1)
low_path_injective i2 i1 j2 j1 e = (cc, cc)

-- The page's entry is the one of the table of level 0.
page_mapping-low :
    (root va t : ℕ) (h : Heap)
    → table_at h.mem root (low_path va) ≡ some t
    → page_mapping h.mem root va ≡ leaf_at h.mem t (va_get_index va 0)
page_mapping-low root va t h low =
    ap (λ o. and_then o (λ b. leaf_at h.mem b (va_get_index va 0))) low

-- The memory with an entry of the table `t` written at the page's index.
unfoldable pub with_entry : ℕ → ℕ → ℕ → Mem → Mem
with_entry va v t m = store64 m (t + 8 * va_get_index va 0) v

pub with_entry-index :
    (va wa v t : ℕ) (m : Mem)
    → va_get_index wa 0 ≡ va_get_index va 0
    → with_entry wa v t m ≡ with_entry va v t m
unfolding with_entry
with_entry-index va wa v t m e = rw e refl

module _ (end : ℕ) (reserved : List ℕ) where
  abbrev pub MapsWith : ℕ → ℕ → ℕ → ℕ → Heap → List ℕ → Status × Heap → Type 0
  MapsWith root va pa perm h free (success, h') =
      (free' : List ℕ) × IsVmTo end reserved root h' free'
      × (page_mapping h.mem root va ≡ none)
      × (page_mapping h'.mem root va ≡ some (leaf_entry pa perm))
      × SameElsewhere root va h.mem h'.mem
      × (length free ≤ 2 + length free')
      × (va % 4096 ≡ 0)
      × (pa % 4096 ≡ 0)
      × IsCanonical va
      × (length free' ≤ length free)
  MapsWith root va pa perm h free (failure, h') =
      (free' : List ℕ) × IsVmTo end reserved root h' free'
      × SameMapping root h.mem h'.mem
      × Refused root va pa h free
      × (length free' ≤ length free)

  -- A valid entry is written at the page's index.
  module _ (root va v t : ℕ) (h : Heap) (free : List ℕ) (is : IsVmTo end reserved root h free)
      (low : table_at h.mem root (low_path va) ≡ some t) (fits : v < 2 ^ 64) where
    abbrev n : Mem
    n = with_entry va v t h.mem

    done : Written h.mem n t (va_get_index va 0) v
    unfolding with_entry
    done =
        Written-store h.mem t (va_get_index va 0) v
          (is.tree.pages (low_path va) t (low_path-Bounded va) low).0.1 (va_get_index-lt va 0) fits

    pub with_entry-SameOutsidePage : SameOutsidePage t h.mem n
    unfolding with_entry
    with_entry-SameOutsidePage =
        store64-SameOutsidePage t (va_get_index va 0) v h.mem (va_get_index-lt va 0)

    pub IsVm-with_entry : IsVmTo end reserved root (record h { mem = n }) free
    IsVm-with_entry =
        let table = is.tree.pages (low_path va) t (low_path-Bounded va) low in
        record {
          heap = record {
            ready = is.heap.ready;
            chain =
                Chain-other_page end t h.mem n h.freelist_head free with_entry-SameOutsidePage
                  table.0.1 (append-not_in t reserved free table.1).1 is.heap.chain;
          };
          tree =
              IsTree-written h.mem n root t (va_get_index va 0) v (low_path va) (reserved ++ free)
                is.tree (low_path-Bounded va) refl low done;
          apart = is.apart;
        }

    pub table_at-with_entry : table_at n root (low_path va) ≡ some t
    table_at-with_entry =
        table_at-written h.mem n root t (va_get_index va 0) v (low_path va) (reserved ++ free)
          is.tree (low_path-Bounded va) refl low done (low_path va) (low_path-Bounded va)
        ∙ low

    pub page_mapping-with_entry : pte_valid v ≡ true → page_mapping n root va ≡ some v
    page_mapping-with_entry valid =
        leaf-written h.mem n root t (va_get_index va 0) v (low_path va) (reserved ++ free) is.tree
          (low_path-Bounded va) refl low done valid

    pub SameElsewhere-with_entry : SameElsewhere root va h.mem n
    SameElsewhere-with_entry i2 i1 i0 lt2 lt1 lt0 other =
        leaf-kept h.mem n root t (va_get_index va 0) v (low_path va) (reserved ++ free) is.tree
          (low_path-Bounded va) refl low done (at (at top i2) i1) i0
          ((tt, lt2, omega arith), lt1, omega arith) lt0
          λ e e0.
            let both = low_path_injective i2 i1 (va_get_index va 2) (va_get_index va 1) e in
            elim other [ inl ne ↦ ne both.0 | inr (inl ne) ↦ ne both.1 | inr (inr ne) ↦ ne e0 ]

  module _ (root va pa perm : ℕ) (h : Heap) (free : List ℕ) (is : IsVmTo end reserved root h free)
      (small : perm < 2 ^ 10) (va_al : va % 4096 ≡ 0) (pa_al : pa % 4096 ≡ 0)
      (canonical : IsCanonical va) where
    before :
        (m : Mem) → SameMapping root h.mem m → page_mapping m root va ≡ page_mapping h.mem root va
    before m same =
        same (va_get_index va 2) (va_get_index va 1) (va_get_index va 0) (va_get_index-lt va 2)
          (va_get_index-lt va 1) (va_get_index-lt va 0)

    -- After the loop, at the entry of level 0: it is valid already.
    set_leaf-taken :
        (t : ℕ) (h' : Heap)
        → WalkSpec end reserved root h free 2 (low_path va) (some t, h')
        → pte_valid (entry h'.mem t (va_get_index va 0)) ≡ true
        → MapsWith root va pa perm h free (set_leaf va pa perm (some t, h'))
    unfolding set_leaf ptb_get_ptep leaf_at
    set_leaf-taken t h' (free', is', low, same, le, sh) taken =
        let there : page_mapping h'.mem root va ≡ some (entry h'.mem t (va_get_index va 0)) =
          page_mapping-low root va t h' low ∙ rw taken refl in
        let old = before h'.mem same in
        rw taken (free', is', same, inr (inr (inr (inl λ e. cc))), sh)

    -- Or it is not, and is written.
    set_leaf-open :
        (t : ℕ) (h' : Heap)
        → WalkSpec end reserved root h free 2 (low_path va) (some t, h')
        → pte_valid (entry h'.mem t (va_get_index va 0)) ≡ false
        → MapsWith root va pa perm h free (set_leaf va pa perm (some t, h'))
    unfolding set_leaf ptb_get_ptep leaf_at with_entry
    set_leaf-open t h' (free', is', low, same, le, sh) open_slot =
        let fits = leaf_entry-lt pa perm small in
        rw open_slot (
          free',
          IsVm-with_entry root va (leaf_entry pa perm) t h' free' is' low fits,
          sym (before h'.mem same) ∙ (page_mapping-low root va t h' low ∙ rw open_slot refl),
          page_mapping-with_entry root va (leaf_entry pa perm) t h' free' is' low fits
              (leaf_entry-valid pa perm small),
          λ i2 i1 i0 x y z other.
              SameElsewhere-with_entry root va (leaf_entry pa perm) t h' free' is' low fits i2 i1 i0
                x y z other
              ∙ same i2 i1 i0 x y z,
          le,
          va_al,
          pa_al,
          canonical,
          sh,
        )

    pub set_leaf_lem :
        (r : Option ℕ × Heap)
        → WalkSpec end reserved root h free 2 (low_path va) r
        → MapsWith root va pa perm h free (set_leaf va pa perm r)
    unfolding set_leaf
    set_leaf_lem (none, h') (free', is', same, few, sh) =
        (free', is', same, inr (inr (inr (inr few))), sh)
    set_leaf_lem (some t, h') spec =
        elim (Bool-cases (pte_valid (entry h'.mem t (va_get_index va 0)))) [
          | inl taken ↦ set_leaf-taken t h' spec taken
          | inr open_slot ↦ set_leaf-open t h' spec open_slot
        ]

-- With no page reserved.
abbrev pub MapSpec : ℕ → ℕ → ℕ → ℕ → Heap → List ℕ → Status × Heap → Type 0
MapSpec root va pa perm h free r = MapsWith 0 [] root va pa perm h free r
