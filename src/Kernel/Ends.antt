-- ===== src/Kernel/Ends.antt =====
-- That the start of the address space ends: the rounds given to its loops are enough.
use lab.Alloc.{Heap, alloc_zero_page, physstop}
use lab.Kernel.{
  MemoryMap, LinkerSymbols, Kernel, running, panicked, uart, rounds, map_pages, map_region, map_all,
  mm_init_kmap, mm_init, satp_value, vm_init,
}
use lab.Kernel.Space.{first_page, end_page}
use lab.Mm.{vm_map_page}
use lab.Pgtable.{ppn_up}
use lab.Prelude.{
  ℕ, zero, suc, ◌+◌, ◌*◌, ◌≤◌, ◌≡◌, refl, ◌⊎◌, inl, inr, Bool-cases, some, arith, ltb, ltb→lt, ◌==◌,
}

map_pages-ends :
    (fuel root perm p limit : ℕ) (h : Heap)
    → 1 ≤ fuel
    → limit + 4096 ≤ p + 4096 * fuel
    → (h' : Heap) × (map_pages fuel root perm p limit h ≡ some h')
unfolding map_pages
map_pages-ends zero root perm p limit h some_round enough = absurd (omega arith)
map_pages-ends (suc fuel) root perm p limit h some_round enough = elim (Bool-cases (ltb p limit)) [
  | inr done ↦ (h, rw done refl)
  | inl below ↦
      let lt = ltb→lt p limit below in
      let (h', e) =
        map_pages-ends fuel root perm (p + 4096) limit (vm_map_page root p p perm h).1 (omega arith)
          (omega arith) in
      (h', rw below e)
]

map_region-ends :
    (root start end perm : ℕ) (h : Heap)
    → (h' : Heap) × (map_region root start end perm h ≡ some h')
unfolding map_region ppn_up
map_region-ends root start end perm h =
    map_pages-ends (rounds (end_page end)) root perm (first_page start) (end_page end) h
      (omega arith) (omega arith)

map_all-ends :
    (kmap : MemoryMap) (root : ℕ) (h : Heap) → (h' : Heap) × (map_all kmap root h ≡ some h')
unfolding map_all
map_all-ends kmap root h =
    let (h1, e1) = map_region-ends root kmap.text_start kmap.text_end 10 h in
    let (h2, e2) = map_region-ends root kmap.rodata_start kmap.rodata_end 2 h1 in
    let (h3, e3) = map_region-ends root kmap.data_start kmap.data_end 6 h2 in
    let (h4, e4) = map_region-ends root kmap.bss_start kmap.bss_end 6 h3 in
    let (h5, e5) =
      map_pages-ends (rounds physstop) root 6 (end_page kmap.kernel_end) physstop h4 (omega arith)
        (omega arith) in
    ((vm_map_page root 0 0 0 (vm_map_page root uart uart 6 h5).1).1, rw (e1, e2, e3, e4, e5) refl)

mm_init-ends :
    (symbols : LinkerSymbols) (k : Kernel)
    → (mm_init symbols k ≡ panicked) ⊎ ((k' : Kernel) × (mm_init symbols k ≡ running k'))
unfolding mm_init
mm_init-ends symbols k = elim (Bool-cases ((alloc_zero_page k.heap).0 == 0)) [
  | inl no_page ↦ inl (simp (no_page, mm_init) refl)
  | inr page ↦
      let kmap = mm_init_kmap symbols in
      let root = (alloc_zero_page k.heap).0 in
      let (h', e) = map_all-ends kmap root (alloc_zero_page k.heap).1 in
      inr
        (record k { heap = h'; kmap = kmap; kernel_root_ptb = root }, simp (page, e, mm_init) refl)
]

-- Whatever the linker's symbols and the kernel's state, `vm_init` either panics or returns.
pub vm_init-ends :
    (symbols : LinkerSymbols) (k : Kernel)
    → (vm_init symbols k ≡ panicked) ⊎ ((k' : Kernel) × (vm_init symbols k ≡ running k'))
unfolding vm_init
vm_init-ends symbols k = elim (mm_init-ends symbols k) [
  | inl panics ↦ inl (rw (panics, vm_init) refl)
  | inr (k', ran) ↦ inr (record k' { satp = satp_value k'.kernel_root_ptb }, rw (ran, vm_init) refl)
]
