-- ===== src/Kernel/Boot.antt =====
-- `mm_init`, `vm_init` and `kmain`: the address space that they build, and what happens when the
-- allocator was not initialised.
use lab.Alloc.{Heap, alloc_zero_page}
use lab.Alloc.Laws.{IsHeap, IsHeapTo, alloc_uninitialised, alloc_zero_page_lem}
use lab.Kernel.{
  LinkerSymbols, mm_init_kmap, Kernel, running, panicked, map_all, mm_init, vm_init, kmain,
}
use lab.Kernel.MapAll.{kernel_table, IsLayout, pages_needed, map_all_lem}
use lab.Kernel.Space.{HasTable}
use lab.Memory.{load64-zero}
use lab.Mm.Empty.{IsTree-empty, mapping-empty}
use lab.Mm.Tree.{entry}
use lab.Mm.Ensure.{IsVm, IsVmTo, Supplied, first_in, later_in}
use lab.Pgtable.{va_get_index}
use lab.Pgtable.Laws.{va_get_index-lt}
use lab.Prelude.{
  ℕ, ◌+◌, ◌*◌, ◌≤◌, ◌<◌, ◌≡◌, refl, ap, ◌≢◌, ◌⊎◌, inl, inr, false, none, some, List, [], ◌∷◌, ◌++◌,
  ◌∈◌, ◌∉◌, not_in-append, length, arith, ne→==,
}

-- Without a page for the root there is no way on.
mm_init-no_page :
    (symbols : LinkerSymbols) (k : Kernel) (h : Heap)
    → alloc_zero_page k.heap ≡ (0, h)
    → mm_init symbols k ≡ panicked
unfolding mm_init
mm_init-no_page symbols k h e = rw e refl

-- From a kernel whose allocator is not initialised, as at boot, `kmain` panics, whatever the
-- addresses of the linker's symbols.
pub kmain_panics :
    (symbols : LinkerSymbols) (k : Kernel)
    → k.heap.is_initialized ≡ false
    → kmain symbols k ≡ panicked
unfolding kmain
kmain_panics symbols k off =
    rw (mm_init-no_page symbols k k.heap (alloc_uninitialised k.heap 0 off).1, vm_init) refl

-- A cleared page from the allocator is an empty root.
pub root_page :
    (tail : ℕ) (reserved : List ℕ) (h : Heap) (root : ℕ) (free : List ℕ)
    → IsHeapTo tail h (root ∷ free)
    → ((x : ℕ) → x ∈ root ∷ free → x ∉ reserved)
    → IsVmTo tail reserved root (alloc_zero_page h).1 free
      × HasTable root (alloc_zero_page h).1 (λ _. none)
root_page tail reserved h root free is apart =
    let z = alloc_zero_page_lem h root free is in
    let page = is.chain.1 in
    let zeros : (j : ℕ) → j < 512 → entry (alloc_zero_page h).1.mem root j ≡ 0 = λ j lt.
      load64-zero (alloc_zero_page h).1.mem (root + 8 * j)
        (λ x lo hi. z.3 x (omega arith) (omega arith)) in
    (
      record {
        heap = z.1;
        tree =
            IsTree-empty (alloc_zero_page h).1.mem root zeros (reserved ++ free) page
              (not_in-append root reserved free (apart root (first_in root free)) is.chain.2);
        apart = λ x e. apart x (later_in x root free e);
      },
      λ x c al.
          mapping-empty (alloc_zero_page h).1.mem root zeros (va_get_index x 2) (va_get_index x 1)
            (va_get_index x 0) (va_get_index-lt x 2),
    )

mm_init-of_page :
    (symbols : LinkerSymbols) (k : Kernel) (root : ℕ) (h h' : Heap)
    → alloc_zero_page k.heap ≡ (root, h)
    → root ≢ 0
    → map_all (mm_init_kmap symbols) root h ≡ some h'
    → mm_init symbols k
      ≡ running (record k { heap = h'; kmap = mm_init_kmap symbols; kernel_root_ptb = root })
unfolding mm_init
mm_init-of_page symbols k root h h' e ne all = simp (e, ne→== root 0 ne, all) refl

-- Both theorems on `mm_init` below, with the count of the pages.
mm_init-counted :
    (tail : ℕ) (reserved : List ℕ) (symbols : LinkerSymbols) (k : Kernel) (root : ℕ) (free : List ℕ)
    → IsHeapTo tail k.heap (root ∷ free)
    → ((x : ℕ) → x ∈ root ∷ free → x ∉ reserved)
    → Supplied tail (pages_needed (mm_init_kmap symbols)) free
    → IsLayout (mm_init_kmap symbols)
    → (k' : Kernel) × (rest : List ℕ) × (mm_init symbols k ≡ running k')
      × (k'.kernel_root_ptb ≡ root)
      × IsVmTo tail reserved root k'.heap rest
      × ((length rest < 2) ⊎ HasTable root k'.heap (kernel_table (mm_init_kmap symbols)))
      × (pages_needed (mm_init_kmap symbols) ≤ length free
          → length free + 2 ≤ length rest + pages_needed (mm_init_kmap symbols))
mm_init-counted tail reserved symbols k root free is apart supply layout =
    let z = alloc_zero_page_lem k.heap root free is in
    let start = root_page tail reserved k.heap root free is apart in
    let m =
      map_all_lem tail reserved (mm_init_kmap symbols) root (alloc_zero_page k.heap).1 free start.0
        supply layout start.1 in
    (
      record k { heap = m.after; kmap = mm_init_kmap symbols; kernel_root_ptb = root },
      m.rest,
      mm_init-of_page symbols k root (alloc_zero_page k.heap).1 m.after
          (ap (λ (r : ℕ). (r, (alloc_zero_page k.heap).1)) z.0) (omega (arith, is.chain.1))
          m.returns,
      refl,
      m.is_vm,
      m.space,
      m.spares,
    )

-- On an initialised allocator whose first free page is `root`, and with sections and a kernel that
-- end at or below 2 ^ 38, `mm_init` ends without a panic, keeps `root` as the root table, and keeps
-- allocator and tables intact. Unless fewer than two free pages remain, the address space is that
-- of `kernel_table`: each page of a section, of the memory above the kernel up to `PHYSTOP`, of the
-- serial device, and the page at 0 is mapped to itself with the permissions given for it, those of
-- the first range where two share a page, and no other page is mapped.
pub mm_init_lem :
    (symbols : LinkerSymbols) (k : Kernel) (root : ℕ) (free : List ℕ)
    → IsHeap k.heap (root ∷ free)
    → IsLayout (mm_init_kmap symbols)
    → (k' : Kernel) × (rest : List ℕ) × (mm_init symbols k ≡ running k')
      × (k'.kernel_root_ptb ≡ root)
      × IsVm root k'.heap rest
      × ((length rest < 2) ⊎ HasTable root k'.heap (kernel_table (mm_init_kmap symbols)))
mm_init_lem symbols k root free is layout =
    let (k', rest, ran, at_root, intact, space, _) =
      mm_init-counted 0 [] symbols k root free is (λ x e. refl) (inl refl) layout in
    (k', rest, ran, at_root, intact, space)

-- The same with pages that are reserved.
pub mm_init-within :
    (tail : ℕ) (reserved : List ℕ) (symbols : LinkerSymbols) (k : Kernel) (root : ℕ) (free : List ℕ)
    → IsHeapTo tail k.heap (root ∷ free)
    → ((x : ℕ) → x ∈ root ∷ free → x ∉ reserved)
    → IsLayout (mm_init_kmap symbols)
    → pages_needed (mm_init_kmap symbols) ≤ length free
    → (k' : Kernel) × (rest : List ℕ) × (mm_init symbols k ≡ running k')
      × (k'.kernel_root_ptb ≡ root)
      × IsVmTo tail reserved root k'.heap rest
      × HasTable root k'.heap (kernel_table (mm_init_kmap symbols))
      × (length free + 2 ≤ length rest + pages_needed (mm_init_kmap symbols))
mm_init-within tail reserved symbols k root free is apart layout room =
    let (k', rest, ran, at_root, intact, space, spares) =
      mm_init-counted tail reserved symbols k root free is apart (inr room) layout in
    let left = spares room in
    (
      k',
      rest,
      ran,
      at_root,
      intact,
      elim space [ inl few ↦ absurd (omega arith) | inr had ↦ had ],
      left,
    )

-- On an initialised allocator that hands out `root` first and at least `pages_needed` pages behind
-- it, wherever its list goes on behind these, and with sections and a kernel that end at or below
-- 2 ^ 38, `mm_init` ends without a panic, keeps `root` as the root table, and keeps allocator and
-- tables intact. The address space is that of `kernel_table`: each page of a section, of the memory
-- above the kernel up to `PHYSTOP`, of the serial device, and the page at 0 is mapped to itself with
-- the permissions given for it, those of the first range where two share a page, and no other page
-- is mapped. Two of the pages are left at least, and `pages_needed - 2` have been used at most.
pub mm_init-enough :
    (tail : ℕ) (symbols : LinkerSymbols) (k : Kernel) (root : ℕ) (free : List ℕ)
    → IsHeapTo tail k.heap (root ∷ free)
    → IsLayout (mm_init_kmap symbols)
    → pages_needed (mm_init_kmap symbols) ≤ length free
    → (k' : Kernel) × (rest : List ℕ) × (mm_init symbols k ≡ running k')
      × (k'.kernel_root_ptb ≡ root)
      × IsVmTo tail [] root k'.heap rest
      × HasTable root k'.heap (kernel_table (mm_init_kmap symbols))
      × (length free + 2 ≤ length rest + pages_needed (mm_init_kmap symbols))
mm_init-enough tail symbols k root free is layout room =
    mm_init-within tail [] symbols k root free is (λ x e. refl) layout room
