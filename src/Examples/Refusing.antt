-- ===== src/Examples/Refusing.antt =====
-- The tests of refusals on a kernel with a root table and nine free pages.
use lab.Alloc.{Heap, alloc_free_page, alloc_zero_page}
use lab.Alloc.Chain.{IsPage}
use lab.Alloc.Laws.{IsHeap, alloc_free_page_lem}
use lab.Examples.Paging.{none_left, none_left-IsHeap}
use lab.Examples.TestKernel.{booted}
use lab.Kernel.Boot.{root_page}
use lab.Ktest.{KtestSuite, run_cases, ktest_success}
use lab.Ktest.RefusalSuite.{refusal_tests, refusal_tests_lem, Unused}
use lab.Ktest.World.{World}
use lab.Mm.SetLeaf.{page_mapping}
use lab.Mm.Ensure.{IsVm}
use lab.Panic.{bug_log}
use lab.Pgtable.Laws.{IsCanonical}
use lab.Prelude.{ℕ, ◌+◌, ◌%◌, ◌≡◌, refl, Option, none, some, List, [], ◌∷◌, ◌∉◌, arith, inr, inl}

-- The heap with pages given to it, the last one first.
abbrev pub given : List ℕ → Heap
given [] = none_left
given (p ∷ ps) = (alloc_free_page p (given ps)).1

abbrev ArePages : List ℕ → Type 0
ArePages [] = Unit {0}
ArePages (p ∷ ps) = IsPage p × (p ∉ ps) × ArePages ps

given-IsHeap : (ps : List ℕ) → ArePages ps → IsHeap (given ps) ps
given-IsHeap [] are = none_left-IsHeap
given-IsHeap (p ∷ ps) are =
    (alloc_free_page_lem (given ps) ps p (given-IsHeap ps are.2) are.0 are.1).1

-- The root table, the page that the tests take, and the others.
abbrev pub others : List ℕ
others =
    0x80008000 ∷ 0x80007000 ∷ 0x80006000 ∷ 0x80005000 ∷ 0x80004000 ∷ 0x80003000 ∷ 0x80002000
    ∷ 0x80001000 ∷ []

abbrev pub all_pages : List ℕ
all_pages = 0x8000a000 ∷ 0x80009000 ∷ others

all_pages-ArePages : ArePages all_pages
all_pages-ArePages = (
  omega arith,
  refl,
  (
    omega arith,
    refl,
    (
      omega arith,
      refl,
      (
        omega arith,
        refl,
        (
          omega arith,
          refl,
          (
            omega arith,
            refl,
            (omega arith, refl, (omega arith, refl, (omega arith, refl, (omega arith, refl, tt)))),
          ),
        ),
      ),
    ),
  ),
)

pub all_free : IsHeap (given all_pages) all_pages
all_free = given-IsHeap all_pages all_pages-ArePages

abbrev pub kernel : World
kernel = record booted {
  heap = (alloc_zero_page (given all_pages)).1;
  kernel_root_ptb = 0x8000a000;
}

pub unmapped :
    (va : ℕ) → IsCanonical va → va % 4096 ≡ 0 → page_mapping kernel.heap.mem 0x8000a000 va ≡ none
unmapped va canonical al =
    (root_page 0 [] (given all_pages) 0x8000a000 (0x80009000 ∷ others) all_free (λ x held. refl)).1
      va canonical al

kernel-Unused : Unused kernel
kernel-Unused = record {
  malformed = unmapped 0xffffffff00000000 (inr (omega arith, omega arith)) (omega arith);
  misaligned_va = unmapped 0xffffffff10000000 (inr (omega arith, omega arith)) (omega arith);
  misaligned_pa = unmapped 0xffffffff30000000 (inr (omega arith, omega arith)) (omega arith);
  remap = unmapped 0xffffffff40000000 (inr (omega arith, omega arith)) (omega arith);
}

-- Each label at its line's distance from the kernel's start.
abbrev label_of : ℕ → ℕ
label_of line = 0x80000000 + line

abbrev refusing : KtestSuite (Option World)
refusing = record {
  init = none;
  exit = none;
  test_init = none;
  test_exit = none;
  tests = refusal_tests label_of;
}

refusal_tests_example :
    (w' : World) × (rest : List ℕ) × (run_cases refusing
        (refusal_tests label_of)
        ktest_success
        (some kernel)
      ≡ (ktest_success, some w'))
    × IsVm 0x8000a000 w'.heap (0x80009000 ∷ rest)
    × (w'.bug_behavior ≡ bug_log)
refusal_tests_example =
    refusal_tests_lem label_of refusing 0 [] kernel 0x80009000 others refl refl (omega arith)
      (root_page 0 [] (given all_pages) 0x8000a000 (0x80009000 ∷ others) all_free
        (λ x held. refl)).0
      (omega arith) refl (inl refl) kernel-Unused
