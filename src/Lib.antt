-- ===== src/Lib.antt =====
-- The kernel of a RISC-V lab (RV64, Sv39 paging), modelled from its C sources: the page table
-- helpers, the page allocator, the mapping of virtual pages, the start of the address space, the
-- string functions, the formatter, the device tree reader, the machine-mode start, and the test
-- framework.
--
-- How the parts hang together. src/startup.c sets the control registers and enters S-mode at
-- `kmain` (src/kmain.c), which calls `vm_init` (src/mm.c). That records the sections, takes the
-- root page table from the allocator (src/alloc.c), and maps the sections, the free memory and the
-- serial device by calls of `vm_map_page`, which in turn takes its tables from the allocator and
-- builds entries with the helpers of include/arch/pgtable.h. The string functions and the
-- formatter serve the log; the device tree reader and the test framework serve the test kernel.
--
-- State is passed on as a record: `Heap` holds memory and the variables of alloc.c, `Kernel` adds
-- the globals of mm.c and satp. Memory is a byte at each address; addresses are native numbers,
-- and where the source computes with u64 or u32 values that can wrap, the remainder is written
-- out. `int` results are `Status`, a NULL page is 0 as in the source, and `panic` is a result of
-- its own, since it does not return.
--
-- The files, with the code each one models (paths from the repository's root):
--   Prelude, Bits     shared names, lists, integers; `&` and `|` as arithmetic
--   Memory            loads, stores, and memset and memset64 of src/string.c
--   Pgtable           the macros and inline functions of include/arch/pgtable.h
--   Alloc             src/alloc.c; Chain: the list in memory; Laws: the operations; Init: alloc_init;
--                     Again, Ring: a second alloc_init, and the list that it leaves
--   Mm                vm_map_page of src/mm.c; Entry: what entries hold; Tree: the tables as a tree
--                     and the mapping they stand for; Install, Leaf: the two ways to change a tree;
--                     Ensure: a table of the next level; Walk: the loop over the levels;
--                     SetLeaf, Map: the whole operation; Empty: a new root; Access: what an entry of level 0
--                     lets the hardware do; Translate: its address translation; Touches: the
--                     pages that the allocator and vm_map_page work on; Frame: writes to pages that are no tables;
--                     Present: calls that need no table; Marks: the bits A and D that the
--                     hardware sets; Outcome: both results
--   Kernel            mm_init_kmap, mm_init, vm_init of src/mm.c, src/kmain.c, the records of
--                     include/kernel/mm.h; Step, Supply, Region: one loop of mm_init; Space:
--                     ranges as tables of permissions; MapAll: all mappings; Boot: the whole start;
--                     Ends: the fuel of its loops
--   Str               src/string.c; Text: NUL-terminated texts; Compare, Copy, Find: by function
--   Printf            src/printf.c; Number, Write: the digits of a number; Literal: plain text;
--                     Emit: writing text; Items: formats as data; Rounds, Render: vsnprintf on
--                     them; Device: print and vprintk
--   Panic             BUG() of include/kernel/panic.h and its switch in src/panic.c
--   Dtb               src/dtb.c and include/kernel/dtb.h; Words: byte order; Tree: device trees as
--                     data and the search promised; Search, Slots: the two searches;
--                     TokenNames: the names of the tokens; Dump, DumpText: the dump of the header
--   Startup           mmode_startup of src/startup.c; Privilege: the mode that is entered
--   Ktest             src/ktest/test.c, include/ktest/test.h, and of src/ktest/kmain.c the trap
--                     handler and parse_bootarg_ktest; Suite, Fault, Bootarg: by operation;
--                     Switch: trap_enable and trap_disable; Startup: src/ktest/startup.c; Main:
--                     kmain of src/ktest/kmain.c, with the choice of suites in Choice, Select and
--                     Names; UnitTests, UnitSuites: the unit tests; World: the globals that the
--                     other tests work on; Reach, Outside: the pages that the kernel reaches with
--                     paging on; AllocTests, AllocSuite: alloc_tests; MapTests, MapSuite,
--                     RefusalRuns, Refusals, RefusalSuite: the tests that vm_map_page refuses;
--                     KernelTest, Denied, KernelSuite, KernelPaging: the test of the kernel's own
--                     mappings; BasicTest, BasicSteps, BasicSuite, Basic: the page that is written
--                     and read through its mapping; MapCases, MapPaging, MapAlone: the suite
--                     vm_map_tests, behind an initialised allocator and without one; Boot: from
--                     the device tree to the suites; KernelSuites: the six
--                     suites, each alone; KernelRun: all of them in a row
--   Examples          the theorems at concrete inputs, and runs on small inputs
--
-- Loops. Those that count run by recursion on the count. The others take fuel, and end without a
-- result when it is used up. `alloc_init` has one round for each page below PHYSTOP and one more
-- (0x88001), and `map_pages` one for each page below the limit and one more; the digits of a u64
-- take at most 65 rounds in any base; for the string functions one round more than the text has
-- characters is enough, for a format string two rounds for each character, and for the device tree
-- more than its names, properties and nodes together.
--
-- Not modelled: the assembly files entry.S and trap.S and the linker script, whose symbols are
-- parameters; the log messages at the places where they are printed; the serial device beyond the
-- list of its bytes; the macros that read and write control registers, which are fields of records
-- here. What the machine does for an access of the mapping tests is a parameter, with hypotheses on
-- accesses in supervisor mode that lead to an entry of level 0: a load or store that the entry
-- permits whatever SUM and MXR of sstatus are reaches its page, and an access that the entry forbids
-- whatever they are faults. W without R is forbidden, and a page of user mode is not permitted. The
-- hypotheses also say that the hardware sets A and D itself: the entries that vm_map_page writes
-- have neither bit set, and on hardware that faults instead the tests would fail.
-- The accesses that the kernel itself makes run on physical addresses in the model. With paging on,
-- the code in the tests does so only where the pages that it works on (Mm/Touches) are mapped to
-- themselves for loads and stores; where one is not, there is no result. Setting A and D in the
-- entries of those pages, the instructions, the stack and the global variables are left out of
-- this. A panic leaves no world in the test kernel: the tests behind it are skipped over, and
-- `ended` takes such a run as one that reports nothing.
mod Prelude
pub mod Bits
pub mod Memory
pub mod Alloc
pub mod Pgtable
pub mod Mm
pub mod Str
pub mod Printf
pub mod Kernel
pub mod Dtb
pub mod Startup
pub mod Panic
pub mod Ktest
mod Examples
