-- ===== src/Alloc.antt =====
-- The physical page allocator of src/alloc.c: a list of the free pages, each linked through its
-- first word. The static variables and the memory are passed on as a record.
pub mod Chain
pub mod Laws
pub mod Init
pub mod Again
pub mod Ring
use lab.Memory.{Mem, load64, store64, memset}
use lab.Pgtable.{page_shift, page_size, is_aligned, ppn_up, ◌<<<◌}
use lab.Prelude.{
  ℕ, zero, suc, ◌+◌, Bool, true, false, not, ◌||◌, Option, none, some, ltb, ◌==◌, if◌then◌else◌,
}

-- The `int` results 0 and -1.
pub data Status : Type 0 where
  success : Status
  failure : Status

pub record Heap : Type 0 where
  pub mem : Mem
  pub freelist_head : ℕ
  pub is_initialized : Bool

abbrev pub physstop : ℕ
physstop = 0x88000000

unfoldable pub alloc_free_page : ℕ → Heap → Status × Heap
alloc_free_page pa h =
    if not h.is_initialized || not (is_aligned pa)
    then (failure, h)
    else (success, record h { mem = store64 h.mem pa h.freelist_head; freelist_head = pa })

-- 0 stands for no page.
unfoldable pub alloc_get_page : Heap → ℕ × Heap
alloc_get_page h =
    if not h.is_initialized || h.freelist_head == 0
    then (0, h)
    else (h.freelist_head, record h { freelist_head = load64 h.mem h.freelist_head })

unfoldable pub alloc_zero_page : Heap → ℕ × Heap
unfolding alloc_get_page
alloc_zero_page h =
    let (pa, h') = alloc_get_page h in
    (pa, if pa == 0 then h' else record h' { mem = memset h'.mem pa 0 page_size })

-- The loop of `alloc_init`; `none` means that the fuel ran out.
unfoldable pub alloc_init_loop : ℕ → ℕ → Heap → Option Heap
alloc_init_loop zero current_page h = none
alloc_init_loop (suc fuel) current_page h =
    let rest = alloc_init_loop fuel (current_page + page_size) (alloc_free_page current_page h).1 in
    if ltb current_page physstop then rest else some h

-- Rounds enough for every start: one for each page below `PHYSTOP`, and the last test.
abbrev pub init_fuel : ℕ
init_fuel = 0x88001

unfoldable pub alloc_init : ℕ → Heap → Option (Status × Heap)
alloc_init start h =
    elim (alloc_init_loop init_fuel (ppn_up start <<< page_shift)
      (record h { is_initialized = true })) [ none ↦ none | some h' ↦ some (success, h') ]
