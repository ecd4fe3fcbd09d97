-- ===== src/Examples/Mapped.antt =====
-- The suite of mapping tests and the start of the address space on an allocator that `alloc_init`
-- has filled, and on a machine that translates addresses by the tables.
use lab.Alloc.{Heap, success, alloc_init, physstop}
use lab.Alloc.Init.{IsFilled, alloc_init_lem}
use lab.Alloc.Laws.{IsHeap}
use lab.Examples.Boot.{image, image-IsLayout, no_map}
use lab.Examples.Paged.{machine, machine_denies, image-InOrder, label_at}
use lab.Examples.Paging.{cold}
use lab.Examples.TestKernel.{booted}
use lab.Ktest.KernelPaging.{KernelEnds, vm_map_tests_kernel-enough}
use lab.Ktest.KernelTest.{vm_map_tests_kernel}
use lab.Ktest.Outside.{outside, inside-outside, root_of-satp_value}
use lab.Mm.Access.{load, store, permits}
use lab.Ktest.{new_test}
use lab.Kernel.{mm_init_kmap, satp_value, Kernel, running, mm_init}
use lab.Kernel.Boot.{mm_init-enough}
use lab.Kernel.MapAll.{kernel_table, pages_needed}
use lab.Kernel.Space.{HasTable, end_page}
use lab.Ktest.BasicSteps.{IsSv39}
use lab.Ktest.BasicTest.{Machine}
use lab.Ktest.MapPaging.{InMemory, first_of}
use lab.Ktest.World.{World, root_of}
use lab.Memory.{Mem, store8}
use lab.Mm.Ensure.{IsVm}
use lab.Mm.Marks.{accessed, accessed_dirty}
use lab.Mm.SetLeaf.{low_path, page_mapping, with_entry}
use lab.Mm.Tree.{table_at}
use lab.Pgtable.{pte_next_ptb, ppn_up, ppn_down}
use lab.Prelude.{
  ℕ, ◌+◌, ◌%◌, ◌^◌, ◌≤◌, ◌<◌, ◌≡◌, refl, Option, none, some, List, ◌∷◌, length, arith, bit_or,
  if◌then◌else◌, ap, ◌∙◌, ◌∈◌,
}

-- The accesses by what the tables hold: the table of level 0 and the entry in it.
abbrev stored : Mem → ℕ → ℕ → Option ℕ → Option ℕ → Option Mem
stored m va v none pte = none
stored m va v (some t) none = none
stored m va v (some t) (some pte) =
    if permits store pte
    then some
        (store8 (with_entry va (bit_or pte accessed_dirty) t m) (pte_next_ptb pte + va % 4096) v)
    else none

abbrev loaded : Mem → ℕ → Option ℕ → Option ℕ → Option (ℕ × Mem)
loaded m va none pte = none
loaded m va (some t) none = none
loaded m va (some t) (some pte) =
    if permits load pte
    then some (
      with_entry va (bit_or pte accessed) t m (pte_next_ptb pte + va % 4096),
      with_entry va (bit_or pte accessed) t m,
    )
    else none

abbrev pub sv39 : Machine
sv39 = record {
  store_byte = λ satp m va v.
      stored m va v (table_at m (root_of satp) (low_path va)) (page_mapping m (root_of satp) va);
  load_byte = λ satp m va.
      loaded m va (table_at m (root_of satp) (low_path va)) (page_mapping m (root_of satp) va);
}

at_entry :
    {A : Type 0} (f : Option ℕ → Option ℕ → A) (root va table pte : ℕ) (m : Mem)
    → root % 4096 ≡ 0
    → root < 2 ^ 56
    → table_at m root (low_path va) ≡ some table
    → page_mapping m root va ≡ some pte
    → f
        (table_at m (root_of (satp_value root)) (low_path va))
        (page_mapping m (root_of (satp_value root)) va)
      ≡ f (some table) (some pte)
at_entry f root va table pte m al small low there =
    ap (λ (r : ℕ). f (table_at m r (low_path va)) (page_mapping m r va))
      (root_of-satp_value root al small)
    ∙ (ap (λ (t : Option ℕ). f t (page_mapping m root va)) low
        ∙ ap (λ (e : Option ℕ). f (some table) e) there)

pub sv39-IsSv39 : IsSv39 sv39
sv39-IsSv39 = record {
  stores = λ root va v table pte m al small _ low there writable.
      at_entry (stored m va v) root va table pte m al small low there ∙ rw writable refl;
  loads = λ root va table pte m al small _ low there readable.
      at_entry (loaded m va) root va table pte m al small low there ∙ rw readable refl;
}

pub image-InMemory : InMemory (mm_init_kmap image)
unfolding mm_init_kmap
image-InMemory = omega arith

-- All pages behind the image.
filled :
    (h : Heap) × (pages : List ℕ) × (alloc_init 0x80010000 cold ≡ some (success, h))
    × IsFilled 0x80010000 cold.mem h pages
filled = alloc_init_lem 0x80010000 cold (omega arith) (omega arith) refl

pub image-pages : pages_needed (mm_init_kmap image) ≤ 200
unfolding pages_needed mm_init_kmap ppn_up ppn_down
image-pages = omega arith

front : (root : ℕ) × (free : List ℕ) × (filled.1 ≡ root ∷ free)
front = first_of filled.1 (omega (arith, filled.3.count))

front-IsHeap : IsHeap filled.0 (front.0 ∷ front.1)
front-IsHeap = rw front.2 at filled.3.is_heap

front-room : 300 ≤ length front.1
front-room = omega (arith, filled.3.count, ap length front.2)

abbrev start : Kernel
start = record { heap = filled.0; kmap = no_map; kernel_root_ptb = 0; satp = 0 }

mm_init-enough_example :
    (k' : Kernel) × (rest : List ℕ) × (mm_init image start ≡ running k')
    × (k'.kernel_root_ptb ≡ front.0)
    × IsVm front.0 k'.heap rest
    × HasTable front.0 k'.heap (kernel_table (mm_init_kmap image))
    × (length front.1 + 2 ≤ length rest + pages_needed (mm_init_kmap image))
mm_init-enough_example =
    mm_init-enough 0 image start front.0 front.1 front-IsHeap image-IsLayout
      (omega (arith, image-pages, front-room))

abbrev before_suite : World
before_suite = record booted { heap = filled.0 }

front-above :
    (x : ℕ)
    → x ∈ front.0 ∷ front.1
    → (end_page (mm_init_kmap image).kernel_end ≤ x) × (x < physstop)
unfolding mm_init_kmap ppn_up
front-above x held =
    let inside = rw front.2 at filled.3.exactly in let b = (inside x).0 held in omega (arith, b)

-- The kernel with its address space, and paging on.
abbrev kept : List ℕ
kept = outside (end_page (mm_init_kmap image).kernel_end)

paged :
    KernelEnds machine label_at machine_denies 0 kept image new_test before_suite front.0 front.1
      (vm_map_tests_kernel machine label_at image new_test before_suite)
paged =
    vm_map_tests_kernel-enough machine label_at machine_denies 0 kept image new_test before_suite
      front.0 front.1 front-IsHeap
      (λ x held.
        let b = front-above x held in
        inside-outside (end_page (mm_init_kmap image).kernel_end) x b.0 b.1)
      image-IsLayout image-InOrder (omega (arith, image-pages, front-room)) refl

abbrev after : World
after = paged.left
