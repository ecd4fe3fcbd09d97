-- ===== src/Examples/Paging.antt =====
-- An allocator with three pages, a root table, and the mapping of the serial device.
use lab.Alloc.{Heap, Status, success, alloc_free_page, alloc_get_page, alloc_zero_page, alloc_init}
use lab.Alloc.Chain.{SameOutsidePage}
use lab.Alloc.Init.{IsFilled, alloc_init_lem}
use lab.Alloc.Laws.{
  IsHeap, GetSpec, alloc_free_page_lem, alloc_get_page_lem, alloc_zero_page_lem,
  alloc_get_page-alloc_free_page,
}
use lab.Kernel.Boot.{root_page}
use lab.Memory.{store64}
use lab.Mm.{vm_map_page}
use lab.Mm.Map.{vm_map_page_lem, vm_map_page-success_iff}
use lab.Mm.SetLeaf.{MapSpec, page_mapping}
use lab.Mm.Access.{load, permits}
use lab.Mm.Translate.{translate, translate-vm_map_page}
use lab.Mm.Ensure.{IsVm}
use lab.Pgtable.Laws.{IsCanonical}
use lab.Prelude.{
  ℕ, ◌+◌, ◌%◌, ◌/◌, ◌≤◌, ◌<◌, ◌≡◌, refl, ap, ◌↔◌, inl, true, false, none, some, List, [], ◌∷◌,
  arith, if◌then◌else◌, ◌==◌,
}

abbrev first : ℕ
first = 0x80001000

abbrev second : ℕ
second = 0x80002000

abbrev root : ℕ
root = 0x80003000

-- The allocator's variables at boot, and on an empty list after its initialisation.
abbrev pub cold : Heap
cold = record { mem = λ _. 0; freelist_head = 0; is_initialized = false }

abbrev pub none_left : Heap
none_left = record { mem = λ _. 0; freelist_head = 0; is_initialized = true }

abbrev one_left : Heap
one_left = (alloc_free_page first none_left).1

abbrev two_left : Heap
two_left = (alloc_free_page second one_left).1

abbrev pub three_left : Heap
three_left = (alloc_free_page root two_left).1

pub none_left-IsHeap : IsHeap none_left []
none_left-IsHeap = record { ready = refl; chain = refl }

one_left-IsHeap : IsHeap one_left (first ∷ [])
one_left-IsHeap = (alloc_free_page_lem none_left [] first none_left-IsHeap (omega arith) refl).1

two_left-IsHeap : IsHeap two_left (second ∷ first ∷ [])
two_left-IsHeap =
    (alloc_free_page_lem one_left (first ∷ []) second one_left-IsHeap (omega arith) refl).1

pub three_left-IsHeap : IsHeap three_left (root ∷ second ∷ first ∷ [])
three_left-IsHeap =
    (alloc_free_page_lem two_left (second ∷ first ∷ []) root two_left-IsHeap (omega arith) refl).1

alloc_get_page_example : GetSpec two_left (second ∷ first ∷ []) (alloc_get_page two_left)
alloc_get_page_example = alloc_get_page_lem two_left (second ∷ first ∷ []) two_left-IsHeap

alloc_free_page_example :
    ((alloc_free_page second one_left).0 ≡ success)
    × IsHeap (alloc_free_page second one_left).1 (second ∷ first ∷ [])
    × SameOutsidePage second one_left.mem (alloc_free_page second one_left).1.mem
alloc_free_page_example =
    alloc_free_page_lem one_left (first ∷ []) second one_left-IsHeap (omega arith) refl

alloc_zero_page_example :
    ((alloc_zero_page three_left).0 ≡ root)
    × IsHeap (alloc_zero_page three_left).1 (second ∷ first ∷ [])
    × SameOutsidePage root three_left.mem (alloc_zero_page three_left).1.mem
    × ((x : ℕ) → root ≤ x → x < root + 4096 → (alloc_zero_page three_left).1.mem x ≡ 0)
alloc_zero_page_example =
    alloc_zero_page_lem three_left root (second ∷ first ∷ []) three_left-IsHeap

get-free_example :
    alloc_get_page (alloc_free_page first none_left).1
    ≡ (first, record none_left { mem = store64 none_left.mem first 0 })
get-free_example = alloc_get_page-alloc_free_page none_left first refl (omega arith) (omega arith)

alloc_init_example :
    (h' : Heap) × (pages : List ℕ) × (alloc_init 0x80010000 cold ≡ (some (success, h')))
    × IsFilled 0x80010000 cold.mem h' pages
alloc_init_example = alloc_init_lem 0x80010000 cold (omega arith) (omega arith) refl

-- The kernel's memory with an empty root table.
abbrev empty : Heap
empty = (alloc_zero_page three_left).1

empty-IsVm : IsVm root empty (second ∷ first ∷ [])
empty-IsVm =
    (root_page 0 [] three_left root (second ∷ first ∷ []) three_left-IsHeap (λ x held. refl)).0

abbrev uart : ℕ
uart = 0x10000000

uart-unmapped : page_mapping empty.mem root uart ≡ none
uart-unmapped =
    (root_page 0 [] three_left root (second ∷ first ∷ []) three_left-IsHeap (λ x held. refl)).1 uart
      (inl (omega arith)) (omega arith)

vm_map_page_example :
    MapSpec root uart uart 6 empty (second ∷ first ∷ []) (vm_map_page root uart uart 6 empty)
vm_map_page_example =
    vm_map_page_lem root uart uart 6 empty (second ∷ first ∷ []) empty-IsVm (omega arith)
      (omega arith)

vm_map_page-success_example : ((vm_map_page root uart uart 6 empty).0 ≡ success) ↔ (
    (uart % 4096 ≡ 0)
    × (uart % 4096 ≡ 0)
    × IsCanonical uart
    × (page_mapping empty.mem root uart ≡ none))
vm_map_page-success_example =
    vm_map_page-success_iff root uart uart 6 empty (second ∷ first ∷ []) empty-IsVm (omega arith)
      (omega arith) (omega arith)

uart-success : (vm_map_page root uart uart 6 empty).0 ≡ success
uart-success = vm_map_page-success_example.1 (refl, refl, inl (omega arith), uart-unmapped)

uart-mapped : vm_map_page root uart uart 6 empty ≡ (success, (vm_map_page root uart uart 6 empty).1)
uart-mapped = ap (λ (s : Status). (s, (vm_map_page root uart uart 6 empty).1)) uart-success

translate_example : translate load (vm_map_page root uart uart 6 empty).1.mem root 0x10000005 ≡ (
    if uart / 4096 == 0x10000005 / 4096
    then (if permits load 6 then some (uart + 0x10000005 % 4096) else none)
    else translate load empty.mem root 0x10000005)
translate_example =
    translate-vm_map_page load root uart uart 6 empty (vm_map_page root uart uart 6 empty).1
      (second ∷ first ∷ []) 0x10000005 empty-IsVm (omega arith) (omega arith) (omega arith)
      (inl (omega arith)) uart-mapped
