-- ===== src/Kernel.antt =====
-- The start of the kernel's memory management: `mm_init_kmap`, `mm_init` and `vm_init` of
-- src/mm.c, and `kmain` of src/kmain.c. The addresses that the linker gives to the symbols of
-- linker.ld are parameters; the log messages are left out.
pub mod Step
pub mod Supply
pub mod Region
pub mod Space
pub mod MapAll
pub mod Ends
pub mod Boot
use lab.Alloc.{Heap, physstop, alloc_zero_page}
use lab.Mm.{vm_map_page}
use lab.Pgtable.{
  page_shift, page_size, ppn_up, ppn_down, phys_to_ppn, pte_bit_read, pte_bit_write, pte_bit_exec,
  ◌<<<◌,
}
use lab.Prelude.{
  ℕ, zero, suc, ◌+◌, ◌-◌, ◌/◌, ◌%◌, ◌^◌, Option, none, some, bit_or, ltb, ◌==◌, if◌then◌else◌,
}

-- `extern char _start[];` and so on.
pub record LinkerSymbols : Type 0 where
  pub start : ℕ
  pub end : ℕ
  pub text_start : ℕ
  pub text_end : ℕ
  pub bss_start : ℕ
  pub bss_end : ℕ
  pub rodata_start : ℕ
  pub rodata_end : ℕ
  pub data_start : ℕ
  pub data_end : ℕ

pub record MemoryMap : Type 0 where
  pub kernel_start : ℕ
  pub kernel_end : ℕ
  pub kernel_size : ℕ
  pub text_start : ℕ
  pub text_end : ℕ
  pub bss_start : ℕ
  pub bss_end : ℕ
  pub rodata_start : ℕ
  pub rodata_end : ℕ
  pub data_start : ℕ
  pub data_end : ℕ

unfoldable pub mm_init_kmap : LinkerSymbols → MemoryMap
mm_init_kmap s = record {
  kernel_start = s.start;
  kernel_end = s.end;
  kernel_size = (s.end + 2 ^ 64 - s.start) % 2 ^ 64;
  text_start = s.text_start;
  text_end = s.text_end;
  bss_start = s.bss_start;
  bss_end = s.bss_end;
  rodata_start = s.rodata_start;
  rodata_end = s.rodata_end;
  data_start = s.data_start;
  data_end = s.data_end;
}

-- The loop of `MAP_REGION` and of the RAM: the identity mapping of the pages from `p` up to
-- `limit`. The results of `vm_map_page` are dropped. The sum `p + PAGE_SIZE` stays at or below the
-- limit, which is a multiple of the page size, so it does not wrap. `none` means that the fuel ran
-- out.
unfoldable pub map_pages : ℕ → ℕ → ℕ → ℕ → ℕ → Heap → Option Heap
map_pages zero root perm p limit h = none
map_pages (suc fuel) root perm p limit h =
    let rest = map_pages fuel root perm (p + page_size) limit (vm_map_page root p p perm h).1 in
    if ltb p limit then rest else some h

-- One round for each page below the limit, and the last test.
abbrev pub rounds : ℕ → ℕ
rounds limit = limit / 4096 + 1

unfoldable pub map_region : ℕ → ℕ → ℕ → ℕ → Heap → Option Heap
unfolding map_pages
map_region root start end perm h =
    map_pages (rounds (ppn_up end <<< page_shift)) root perm (ppn_down start <<< page_shift)
      (ppn_up end <<< page_shift) h

-- The globals that the initialisation sets.
pub record Kernel : Type 0 where
  pub heap : Heap
  pub kmap : MemoryMap
  pub kernel_root_ptb : ℕ
  pub satp : ℕ

-- `panic` does not return.
pub data Run : Type 0 where
  running : Kernel → Run
  panicked : Run
  out_of_fuel : Run

abbrev pub uart : ℕ
uart = 0x10000000

infixl 5 ◌>>=◌
abbrev pub ◌>>=◌ : Option Heap → (Heap → Option Heap) → Option Heap
none >>= k = none
some h >>= k = k h

-- The mappings of `mm_init`, in their order: the four sections, the memory above the kernel, the
-- serial device, and the page at 0 without permissions.
unfoldable pub map_all : MemoryMap → ℕ → Heap → Option Heap
map_all kmap root h0 = do
  h1 ← map_region root kmap.text_start kmap.text_end (bit_or pte_bit_read pte_bit_exec) h0
  h2 ← map_region root kmap.rodata_start kmap.rodata_end pte_bit_read h1
  h3 ← map_region root kmap.data_start kmap.data_end (bit_or pte_bit_read pte_bit_write) h2
  h4 ← map_region root kmap.bss_start kmap.bss_end (bit_or pte_bit_read pte_bit_write) h3
  h5 ←
      map_pages (rounds physstop) root (bit_or pte_bit_read pte_bit_write)
        (ppn_up kmap.kernel_end <<< page_shift) physstop h4
  some
      (vm_map_page root 0 0 0
        (vm_map_page root uart uart (bit_or pte_bit_read pte_bit_write) h5).1).1

unfoldable pub mm_init : LinkerSymbols → Kernel → Run
mm_init symbols k =
    let kmap = mm_init_kmap symbols in
    let (root, h) = alloc_zero_page k.heap in
    if root == 0 then panicked else elim (map_all kmap root h) [
      | none ↦ out_of_fuel
      | some h' ↦ running (record k { heap = h'; kmap = kmap; kernel_root_ptb = root })
    ]

-- `CSR_SATP_MODE_SV39 | phys_to_ppn((phys_addr_t) kernel_root_ptb)`.
unfoldable pub satp_value : ℕ → ℕ
satp_value root = bit_or (8 <<< 60) (phys_to_ppn root)

unfoldable pub vm_init : LinkerSymbols → Kernel → Run
unfolding mm_init
vm_init symbols k = elim (mm_init symbols k) [
  | running k' ↦ running (record k' { satp = satp_value k'.kernel_root_ptb })
  | panicked ↦ panicked
  | out_of_fuel ↦ out_of_fuel
]

-- `kmain` of src/kmain.c, up to its endless loop.
unfoldable pub kmain : LinkerSymbols → Kernel → Run
unfolding vm_init
kmain symbols k = vm_init symbols k
