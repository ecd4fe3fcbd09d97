-- ===== src/Examples/Boot.antt =====
-- The start of the kernel, with an image of 64 KiB and with three free pages.
use lab.Alloc.{Heap, alloc_zero_page}
use lab.Examples.Paging.{three_left}
use lab.Kernel.{LinkerSymbols, MemoryMap, mm_init_kmap, Kernel, panicked, kmain, running, vm_init}
use lab.Kernel.Ends.{vm_init-ends}
use lab.Kernel.MapAll.{IsLayout}
use lab.Kernel.Boot.{kmain_panics}
use lab.Prelude.{◌≡◌, ◌⊎◌, refl, false, arith}

abbrev pub image : LinkerSymbols
image = record {
  start = 0x80000000;
  end = 0x80010000;
  text_start = 0x80000000;
  text_end = 0x80001a30;
  bss_start = 0x80002000;
  bss_end = 0x8000c048;
  rodata_start = 0x8000d000;
  rodata_end = 0x8000d8a0;
  data_start = 0x8000e000;
  data_end = 0x8000e010;
}

abbrev pub no_map : MemoryMap
no_map = record {
  kernel_start = 0;
  kernel_end = 0;
  kernel_size = 0;
  text_start = 0;
  text_end = 0;
  bss_start = 0;
  bss_end = 0;
  rodata_start = 0;
  rodata_end = 0;
  data_start = 0;
  data_end = 0;
}

-- At boot the static variables are 0.
abbrev at_boot : Kernel
at_boot = record {
  heap = record { mem = λ _. 0; freelist_head = 0; is_initialized = false };
  kmap = no_map;
  kernel_root_ptb = 0;
  satp = 0;
}

kmain_example : kmain image at_boot ≡ panicked
kmain_example = kmain_panics image at_boot refl

vm_init-ends_example :
    (vm_init image at_boot ≡ panicked) ⊎ ((k' : Kernel) × (vm_init image at_boot ≡ running k'))
vm_init-ends_example = vm_init-ends image at_boot

abbrev ready : Kernel
ready = record { heap = three_left; kmap = no_map; kernel_root_ptb = 0; satp = 0 }

pub image-IsLayout : IsLayout (mm_init_kmap image)
unfolding mm_init_kmap
image-IsLayout = omega arith

abbrev after_root : Heap
after_root = (alloc_zero_page three_left).1
