-- ===== src/Ktest/MapTests.antt =====
-- The tests of src/ktest/kmain.c that `vm_map_page` refuses what it should, and the functions
-- around their suite. Each expects one mapping to be refused and another one to be made.
use lab.Alloc.{Status, success}
use lab.Ktest.{Test, ktest_assert}
use lab.Ktest.AllocTests.{get_page, free_page, succeeded, set_behavior}
use lab.Ktest.Switch.{trap_enable, trap_disable}
use lab.Ktest.World.{World, reached, without_fault}
use lab.Mm.{vm_map_page}
use lab.Mm.Touches.{get_touches, free_touches, map_touches}
use lab.Panic.{BugBehavior, bug_panic, bug_log}
use lab.Pgtable.{pte_bit_read, pte_bit_write}
use lab.Prelude.{ℕ, ◌+◌, ◌%◌, ◌^◌, Bool, true, false, not, Option, none, some, List, bit_or}

abbrev pub vm_map_tests_init : ℕ → World → World
vm_map_tests_init trap_entry w = record w { trap_csrs = trap_enable trap_entry w.trap_csrs }

abbrev pub vm_map_tests_exit : World → World
vm_map_tests_exit w = record w { trap_csrs = trap_disable w.trap_csrs }

-- The code in `KTEST_EXPECT_NO_FAULT`; `after` is the behaviour of BUG() that it leaves.
abbrev pub map_under : BugBehavior → ℕ → ℕ → World → Status × World
map_under after va pa w =
    let w1 = set_behavior bug_log w in
    let (ret, heap) =
      vm_map_page w1.kernel_root_ptb va pa (bit_or pte_bit_read pte_bit_write) w1.heap in
    (ret, set_behavior after (record w1 { heap = heap }))

-- The pages that the code works on.
abbrev pub touched_by : ℕ → ℕ → World → List ℕ
touched_by va pa w = map_touches w.kernel_root_ptb va pa w.heap

-- `KTEST_EXPECT_NO_FAULT` at `line`, and `KTEST_ASSERT` of `ret` at `line'`.
unfoldable pub map_checked :
    ℕ
    → ℕ
    → ℕ
    → (Status → Bool)
    → BugBehavior
    → ℕ
    → ℕ
    → Status
    → Test
    → World
    → Option (Test × Status × World)
map_checked line line' label expected after va pa ret test w =
    elim (without_fault line label (touched_by va pa) (map_under after va pa) ret test w) [
      | none ↦ none
      | some (test', ret', w') ↦ some (ktest_assert line' (expected ret') test', ret', w')
    ]

abbrev pub failed_with : Status → Bool
failed_with ret = not (succeeded ret)

-- The two mappings, each with what is expected of it, and the page freed at the end. There is no
-- world left where a call does not reach a page that it works on.
abbrev pub Attempt : Type 0
Attempt = Status → Test → World → Option (Test × Status × World)

unfoldable pub map_twice : (ℕ → Attempt) → (ℕ → Attempt) → Test → World → Test × Option World
map_twice once again test w = elim (reached w (get_touches w.heap)) [
  | false ↦ (test, none)
  | true ↦
      let (page_addr, w1) = get_page w in
      elim (once page_addr success test w1) [
        | none ↦ (test, none)
        | some (test1, ret, w2) ↦ elim (again page_addr ret test1 w2) [
          | none ↦ (test1, none)
          | some (test2, _, w3) ↦ elim (reached w3 (free_touches page_addr w3.heap)) [
            | false ↦ (test2, none)
            | true ↦ (test2, some (free_page page_addr w3).1)
          ]
        ]
      ]
]

-- `label` and `label'` are the addresses of the labels.
unfoldable pub vm_map_tests_refuse_malformed_va : ℕ → ℕ → Test → World → Test × Option World
vm_map_tests_refuse_malformed_va label label' =
    map_twice
      (λ page_addr. map_checked 475 480 label failed_with bug_panic 0xabcdabcd00000000 page_addr)
      (λ page_addr. map_checked 482 487 label' succeeded bug_panic 0xffffffff00000000 page_addr)

unfoldable pub vm_map_tests_refuse_misaligned_va : ℕ → ℕ → Test → World → Test × Option World
vm_map_tests_refuse_misaligned_va label label' =
    map_twice
      (λ page_addr. map_checked 499 504 label failed_with bug_panic 0xabcdabcdabcda100 page_addr)
      (λ page_addr. map_checked 506 511 label' succeeded bug_panic 0xffffffff10000000 page_addr)

unfoldable pub vm_map_tests_refuse_misaligned_pa : ℕ → ℕ → Test → World → Test × Option World
vm_map_tests_refuse_misaligned_pa label label' =
    map_twice
      (λ page_addr.
        map_checked 523 528 label failed_with bug_panic 0xffffffff20000000
          ((page_addr + 4) % 2 ^ 64))
      (λ page_addr. map_checked 530 535 label' succeeded bug_panic 0xffffffff30000000 page_addr)

-- Both mappings leave BUG() as it is during the test, since the second call sets BUG_LOG too.
unfoldable pub vm_map_tests_refuse_remap : ℕ → ℕ → Test → World → Test × Option World
vm_map_tests_refuse_remap label label' =
    map_twice
      (λ page_addr. map_checked 547 552 label succeeded bug_log 0xffffffff40000000 page_addr)
      (λ page_addr. map_checked 554 559 label' failed_with bug_log 0xffffffff40000000 page_addr)
