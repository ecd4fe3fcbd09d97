-- ===== src/Mm/Marks.antt =====
-- The bits that the hardware sets in the entry of a page that is accessed: A (bit 6), and D (bit 7)
-- on a write. What the tables and the kernel read of the entry stays.
use lab.Alloc.{Heap}
use lab.Alloc.Chain.{SameOutsidePage, Chain-other_page}
use lab.Bits.{bit_or_step, bit_or_split, bit_or-zero, bit_or-one}
use lab.Memory.{Mem, store8}
use lab.Mm.Access.{load, store, permits, permits-same}
use lab.Mm.Ensure.{IsVmTo}
use lab.Mm.Frame.{IsTree-frame, table_at-frame, mapping-frame, reserved_not_free}
use lab.Mm.SetLeaf.{
  low_path, low_path-Bounded, page_mapping, SameElsewhere, with_entry, with_entry-SameOutsidePage,
  IsVm-with_entry, table_at-with_entry, page_mapping-with_entry, SameElsewhere-with_entry,
}
use lab.Mm.Tree.{table_at}
use lab.Pgtable.{va_get_index, pte_valid, pte_next_ptb, ppn_to_phys}
use lab.Pgtable.Laws.{va_get_index-lt, pte_valid_lem, pte_get_ppn_lem}
use lab.Prelude.{
  ℕ, ◌+◌, ◌*◌, ◌/◌, ◌%◌, ◌^◌, ◌<◌, ◌≡◌, ◌≢◌, true, some, List, ◌∷◌, ◌++◌, bit_or, arith, ◌∙◌,
}

abbrev pub accessed : ℕ
accessed = 0x40

abbrev pub accessed_dirty : ℕ
accessed_dirty = 0xc0

bit_or-three : (x : ℕ) → bit_or x 3 ≡ x / 4 * 4 + 3
bit_or-three x = ground (arith, bit_or_step x 3, bit_or-one (x / 2))

shifted_mark : (e k : ℕ) → bit_or e (k * 64) ≡ bit_or (e / 64) k * 64 + e % 64
shifted_mark e k =
    let parts : e ≡ e / 64 * 2 ^ 6 + e % 64 = omega arith in
    let mark : k * 2 ^ 6 + 0 ≡ k * 64 = omega arith in
    rw (← parts, mark) at (bit_or_split 6 (e / 64) (e % 64) k 0 (omega arith) (omega arith))
    ∙ omega (arith, bit_or-zero (e % 64))

pub accessed_lem : (e : ℕ) → bit_or e accessed ≡ e / 128 * 128 + 64 + e % 64
accessed_lem e = omega (arith, shifted_mark e 1, bit_or-one (e / 64))

pub accessed_dirty_lem : (e : ℕ) → bit_or e accessed_dirty ≡ e / 256 * 256 + 192 + e % 64
accessed_dirty_lem e = omega (arith, shifted_mark e 3, bit_or-three (e / 64))

-- An entry for reading and writing the page `p`.
pub record Holds (p e : ℕ) : Type 0 where
  pub valid : pte_valid e ≡ true
  pub loads : permits load e ≡ true
  pub stores : permits store e ≡ true
  pub next : pte_next_ptb e ≡ p
  pub fits : e < 2 ^ 54

-- An entry that differs in A and D only.
Holds-same : (p e e' : ℕ) → e' / 256 ≡ e / 256 → e' % 64 ≡ e % 64 → Holds p e → Holds p e'
unfolding pte_next_ptb ppn_to_phys
Holds-same p e e' high low holds = record {
  valid = ground (arith, holds.valid, pte_valid_lem e, pte_valid_lem e');
  loads = permits-same load e e' (omega (arith, holds.fits)) holds.fits (omega arith) ∙ holds.loads;
  stores =
      permits-same store e e' (omega (arith, holds.fits)) holds.fits (omega arith) ∙ holds.stores;
  next = omega (arith, holds.next, pte_get_ppn_lem e, pte_get_ppn_lem e');
  fits = omega (arith, holds.fits);
}

pub Holds-accessed : (p e : ℕ) → Holds p e → Holds p (bit_or e accessed)
Holds-accessed p e holds =
    Holds-same p e (bit_or e accessed) (omega (arith, accessed_lem e))
      (omega (arith, accessed_lem e)) holds

pub Holds-accessed_dirty : (p e : ℕ) → Holds p e → Holds p (bit_or e accessed_dirty)
Holds-accessed_dirty p e holds =
    Holds-same p e (bit_or e accessed_dirty) (omega (arith, accessed_dirty_lem e))
      (omega (arith, accessed_dirty_lem e)) holds

-- The page at `va` is mapped to the reserved page `p` for reading and writing, and allocator and
-- tables are intact.
pub record IsMapped (end : ℕ) (reserved : List ℕ) (root va p : ℕ) (free : List ℕ) (h : Heap)
    : Type 0 where
  pub intact : IsVmTo end (p ∷ reserved) root h free
  pub table : ℕ
  pub low : table_at h.mem root (low_path va) ≡ some table
  pub pte : ℕ
  pub there : page_mapping h.mem root va ≡ some pte
  pub holds : Holds p pte

-- What an access to the page leaves: the page is mapped as it was, and so are all others.
pub record Accessed (end : ℕ) (reserved : List ℕ) (root va p : ℕ) (free : List ℕ) (h : Heap)
    (n : Mem) : Type 0 where
  pub mapped : IsMapped end reserved root va p free (record h { mem = n })
  pub elsewhere : SameElsewhere root va h.mem n

module _ (end : ℕ) (reserved : List ℕ) (root va p : ℕ) (free : List ℕ) (h : Heap)
    (is : IsMapped end reserved root va p free h) where
  -- The table is another page than the one that is mapped.
  table-ne : is.table ≢ p
  table-ne =
      let out = (is.intact.tree.pages (low_path va) is.table (low_path-Bounded va) is.low).1 in
      ground (arith, out)

  -- The entry is marked.
  module _ (v : ℕ) (holds : Holds p v) where
    pub marked-Accessed : Accessed end reserved root va p free h (with_entry va v is.table h.mem)
    marked-Accessed = record {
      mapped = record {
        intact =
            IsVm-with_entry end (p ∷ reserved) root va v is.table h free is.intact is.low
              (omega (arith, holds.fits));
        table = is.table;
        low =
            table_at-with_entry end (p ∷ reserved) root va v is.table h free is.intact is.low
              (omega (arith, holds.fits));
        pte = v;
        there =
            page_mapping-with_entry end (p ∷ reserved) root va v is.table h free is.intact is.low
              (omega (arith, holds.fits)) holds.valid;
        holds = holds;
      };
      elsewhere =
          SameElsewhere-with_entry end (p ∷ reserved) root va v is.table h free is.intact is.low
            (omega (arith, holds.fits));
    }

    -- The bytes of the page are as before.
    pub marked-bytes :
        (i : ℕ) → p % 4096 ≡ 0 → i < 4096 → with_entry va v is.table h.mem (p + i) ≡ h.mem (p + i)
    marked-bytes i al lt =
        let page = (is.intact.tree.pages (low_path va) is.table (low_path-Bounded va) is.low).0 in
        with_entry-SameOutsidePage end (p ∷ reserved) root va v is.table h free is.intact is.low
          (omega (arith, holds.fits)) (p + i) (omega (arith, table-ne, page.1))

  -- A byte of the page is written.
  module _ (i v : ℕ) (lt : i < 4096) (al : p % 4096 ≡ 0) where
    store8-SameOutsidePage : SameOutsidePage p h.mem (store8 h.mem (p + i) v)
    unfolding store8
    store8-SameOutsidePage x out = ground arith

    pub stored-Accessed : Accessed end reserved root va p free h (store8 h.mem (p + i) v)
    stored-Accessed =
        let n = store8 h.mem (p + i) v in
        let same = store8-SameOutsidePage in
        record {
          mapped = record {
            intact = record {
              heap = record {
                ready = is.intact.heap.ready;
                chain =
                    Chain-other_page end p h.mem n h.freelist_head free same al
                      (reserved_not_free end reserved root p h free is.intact) is.intact.heap.chain;
              };
              tree = IsTree-frame h.mem n root p (reserved ++ free) is.intact.tree same al;
              apart = is.intact.apart;
            };
            table = is.table;
            low =
                table_at-frame h.mem n root p (reserved ++ free) is.intact.tree same al
                  (low_path va) (low_path-Bounded va)
                ∙ is.low;
            pte = is.pte;
            there =
                mapping-frame h.mem n root p (reserved ++ free) is.intact.tree same al
                  (va_get_index va 2) (va_get_index va 1) (va_get_index va 0) (va_get_index-lt va 2)
                  (va_get_index-lt va 1) (va_get_index-lt va 0)
                ∙ is.there;
            holds = is.holds;
          };
          elsewhere = λ i2 i1 i0 lt2 lt1 lt0 _.
              mapping-frame h.mem n root p (reserved ++ free) is.intact.tree same al i2 i1 i0 lt2
                lt1 lt0;
        }

-- One access after the other.
pub Accessed-trans :
    (end : ℕ) (reserved : List ℕ) (root va p : ℕ) (free : List ℕ) (h : Heap) (n o : Mem)
    → Accessed end reserved root va p free h n
    → Accessed end reserved root va p free (record h { mem = n }) o
    → Accessed end reserved root va p free h o
Accessed-trans end reserved root va p free h n o a b = record {
  mapped = b.mapped;
  elsewhere = λ i2 i1 i0 lt2 lt1 lt0 other.
      b.elsewhere i2 i1 i0 lt2 lt1 lt0 other ∙ a.elsewhere i2 i1 i0 lt2 lt1 lt0 other;
}
