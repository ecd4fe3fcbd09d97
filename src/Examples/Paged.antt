-- ===== src/Examples/Paged.antt =====
-- The test of the kernel's mappings on a machine that checks the permissions.
use lab.Examples.Boot.{image}
use lab.Examples.Paging.{three_left}
use lab.Examples.TestKernel.{booted}
use lab.Kernel.{mm_init_kmap}
use lab.Ktest.{Access, completes, faults}
use lab.Ktest.Denied.{InOrder}
use lab.Ktest.KernelSuite.{Denies}
use lab.Mm.Access.{forbids}
use lab.Ktest.KernelTest.{AccessKind}
use lab.Ktest.World.{World}
use lab.Mm.SetLeaf.{page_mapping}
use lab.Pgtable.{ppn_up}
use lab.Prelude.{ℕ, ◌+◌, refl, arith, if◌then◌else◌, Option, none, some}

-- An access to a page that the tables lead to faults if its entry forbids it, and any other access
-- changes nothing here.
abbrev tried : AccessKind → World → Option ℕ → Access World
tried kind w none = completes w
tried kind w (some pte) = if forbids kind pte then faults w else completes w

abbrev pub machine : AccessKind → ℕ → World → Access World
machine kind va w = tried kind w (page_mapping w.heap.mem w.kernel_root_ptb va)

pub machine_denies : Denies machine
machine_denies kind va w pte on canonical there forbidden = rw (there, forbidden) refl

pub image-InOrder : InOrder (mm_init_kmap image)
unfolding mm_init_kmap ppn_up
image-InOrder = omega arith

abbrev before_test : World
before_test = record booted { heap = three_left }

-- A label behind the kernel's start for each line.
abbrev pub label_at : ℕ → ℕ
label_at line = 0x80000000 + line
