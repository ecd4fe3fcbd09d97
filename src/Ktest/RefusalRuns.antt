-- ===== src/Ktest/RefusalRuns.antt =====
-- The two shapes of the tests that `vm_map_page` refuses: a refusal and then a mapping, and the same
-- mapping twice.
use lab.Alloc.{Heap, Status, success, failure, alloc_get_page}
use lab.Ktest.{Test}
use lab.Ktest.AllocTests.{free_page, succeeded}
use lab.Ktest.MapSuite.{IsVm-got, IsVm-forget, map_checked_lem, map_twice_lem, makes_mapping}
use lab.Ktest.MapTests.{map_checked, failed_with, map_twice}
use lab.Ktest.World.{World, reached, settled}
use lab.Mm.{vm_map_page, leaf_entry}
use lab.Mm.Frame.{IsVm-freed}
use lab.Mm.Map.{vm_map_page-reserved}
use lab.Mm.SetLeaf.{page_mapping}
use lab.Mm.Ensure.{IsVmTo, SameMapping, first_in}
use lab.Panic.{BugBehavior, bug_panic, bug_log}
use lab.Pgtable.Laws.{IsCanonical, va_get_index-lt}
use lab.Pgtable.{va_get_index}
use lab.Memory.{Mem}
use lab.Mm.Present.{vm_map_page-taken, low_table}
use lab.Mm.Touches.{
  get_touches, free_touches, map_touches, get_touches-AllOwn, free_touches-AllOwn,
  map_touches-AllOwn, map_touches-present,
}
use lab.Ktest.Reach.{Reaching, Reaching-reached, Reaching-kept, Reaching-same}
use lab.Mm.Outcome.{MapsWith-IsVm, MapsWith-mapped, MapsWith-others, MapsWith-used}
use lab.Prelude.{
  ℕ, ◌+◌, ◌/◌, ◌%◌, ◌^◌, ◌≤◌, ◌<◌, ◌≡◌, refl, ◌≢◌, true, false, none, inr, some, Option, List, ◌∷◌,
  length, arith, ap, ◌∙◌,
}

-- How a test on the world `w`, with the first free page `p`, ends: no expectation has failed,
-- allocator and page tables are intact, the page is the first free one again, and every page but
-- the one at `va` is mapped as before.
pub record Ends (end : ℕ) (reserved : List ℕ) (test : Test) (w : World) (p va : ℕ)
    (after : BugBehavior) (line : ℕ) (r : Test × Option World) : Type 0 where
  pub left : World
  pub rest : List ℕ
  pub returns : r ≡ (record test { failure_line = line }, some left)
  pub behavior : left.bug_behavior ≡ after
  pub same_root : left.kernel_root_ptb ≡ w.kernel_root_ptb
  pub intact : IsVmTo end reserved w.kernel_root_ptb left.heap (p ∷ rest)
  pub quiet : left.traps.ktest_fault_occurred ≡ false
  pub reach : Reaching reserved left
  pub others :
      (x : ℕ)
      → IsCanonical x
      → va / 4096 ≢ x / 4096
      → page_mapping left.heap.mem w.kernel_root_ptb x ≡ page_mapping w.heap.mem w.kernel_root_ptb x

-- As `Ends`, with two of the pages `free` used at most.
abbrev pub EndsWithin :
    ℕ → List ℕ → List ℕ → Test → World → ℕ → ℕ → BugBehavior → ℕ → Test × Option World → Type 0
EndsWithin end reserved free test w p va after line r =
    (e : Ends end reserved test w p va after line r) × (length free ≤ 2 + length e.rest)

module _ (end : ℕ) (low : end < 2 ^ 64) (reserved : List ℕ) (test : Test) (w : World) (p : ℕ)
    (free : List ℕ) (is : IsVmTo end reserved w.kernel_root_ptb w.heap (p ∷ free))
    (room : 2 ≤ length free) (quiet : w.traps.ktest_fault_occurred ≡ false)
    (reach : Reaching reserved w) (label label' : ℕ) where
  abbrev root : ℕ
  root = w.kernel_root_ptb

  abbrev heap1 : Heap
  heap1 = (alloc_get_page w.heap).1

  kept_across :
      (m m' m'' : Mem) (x : ℕ)
      → m ≡ w.heap.mem
      → page_mapping m' root x ≡ page_mapping m root x
      → SameMapping root m' m''
      → page_mapping m'' root x ≡ page_mapping w.heap.mem root x
  kept_across m m' m'' x same kept freed =
      freed (va_get_index x 2) (va_get_index x 1) (va_get_index x 0) (va_get_index-lt x 2)
        (va_get_index-lt x 1) (va_get_index-lt x 0)
      ∙ (kept ∙ ap (λ (n : Mem). page_mapping n root x) same)

  abbrev after_got : World
  after_got = record w { heap = heap1 }

  -- The pages of the calls are reached: those of the first two, and what the mapping leaves.
  got_reached : reached w (get_touches w.heap) ≡ true
  got_reached =
      Reaching-reached reserved w (get_touches w.heap) reach
        (get_touches-AllOwn end reserved w.kernel_root_ptb w.heap (p ∷ free) is (inr (omega arith)))

  first_reached :
      (w' : World) (va pa : ℕ)
      → w'.heap ≡ heap1
      → w'.satp ≡ w.satp
      → w'.kernel_root_ptb ≡ root
      → reached w' (map_touches w'.kernel_root_ptb va pa w'.heap) ≡ true
  first_reached w' va pa same_heap same_satp same_root =
      let (got, is1, same) = IsVm-got end reserved root p w.heap free is in
      let is' = IsVm-forget end reserved root p heap1 free is1 in
      ap (λ (k : Heap). reached w' (map_touches w'.kernel_root_ptb va pa k)) same_heap
      ∙ ap (λ (r : ℕ). reached w' (map_touches r va pa heap1)) same_root
      ∙ Reaching-reached reserved w' (map_touches root va pa heap1)
          (Reaching-same reserved w w' same_satp same_root
            (ap (λ (k : Heap). k.mem) same_heap ∙ same) reach)
          (map_touches-AllOwn end reserved root va pa heap1 free is' (inr room))

  -- Behind the mapping.
  module _ (w' : World) (va : ℕ) (al : va % 4096 ≡ 0)
      (unused : page_mapping w.heap.mem root va ≡ none)
      (others : (x : ℕ)
        → IsCanonical x
        → va / 4096 ≢ x / 4096
        → page_mapping w'.heap.mem root x ≡ page_mapping w.heap.mem root x)
      (same_satp : w'.satp ≡ w.satp) (same_root : w'.kernel_root_ptb ≡ root) where
    after_reaches : Reaching reserved w'
    after_reaches = Reaching-kept reserved w w' va same_satp same_root al unused others reach

    freed_reached : reached w' (free_touches p w'.heap) ≡ true
    freed_reached =
        Reaching-reached reserved w' (free_touches p w'.heap) after_reaches
          (free_touches-AllOwn reserved p w'.heap is.heap.chain.1 (is.apart p (first_in p free)))

    second_reached :
        (pa e : ℕ) (free1 : List ℕ)
        → IsVmTo end (p ∷ reserved) root w'.heap free1
        → page_mapping w'.heap.mem root va ≡ some e
        → reached w' (map_touches w'.kernel_root_ptb va pa w'.heap) ≡ true
    second_reached pa e free1 is1 there =
        ap (λ (r : ℕ). reached w' (map_touches r va pa w'.heap)) same_root
        ∙ Reaching-reached reserved w' (map_touches root va pa w'.heap) after_reaches (
            map_touches-present end reserved root va pa w'.heap free1
              (IsVm-forget end reserved root p w'.heap free1 is1)
              (low_table w'.heap.mem root va e there))

  -- A refusal that changes nothing, then a mapping.
  pub refused_then_mapped :
      (l1 l1' l2 l2' bad va : ℕ) (bad_pa : ℕ → ℕ)
      → vm_map_page root bad (bad_pa p) 6 heap1 ≡ (failure, heap1)
      → va < 2 ^ 64
      → va % 4096 ≡ 0
      → IsCanonical va
      → page_mapping w.heap.mem root va ≡ none
      → EndsWithin end reserved free test w p va bug_panic l2 (
          map_twice
            (λ page_addr. map_checked l1 l1' label failed_with bug_panic bad (bad_pa page_addr))
            (λ page_addr. map_checked l2 l2' label' succeeded bug_panic va page_addr)
            test
            w)
  refused_then_mapped l1 l1' l2 l2' bad va bad_pa refused fits al canonical unused =
      let page = is.heap.chain.1 in
      let out = is.apart p (first_in p free) in
      let (got, is1, same) = IsVm-got end reserved root p w.heap free is in
      let unused1 : page_mapping heap1.mem root va ≡ none = rw same unused in
      let mapped =
        makes_mapping root va p 6 heap1 end reserved free
          (IsVm-forget end reserved root p heap1 free is1) fits (omega arith) room al
          is.heap.chain.1.1 canonical unused1 in
      let h = (vm_map_page root va p 6 heap1).1 in
      let r = vm_map_page root va p 6 heap1 in
      let spec =
        vm_map_page-reserved end (p ∷ reserved) root va p 6 heap1 free is1 (inr room) fits
          (omega arith) in
      let (free', intact) = MapsWith-IsVm end (p ∷ reserved) root va p 6 heap1 free r spec in
      let freed = IsVm-freed end reserved root p h free' low page out intact in
      let w1 : World = record w { heap = heap1 } in
      let w2 : World = record w {
        heap = heap1;
        bug_behavior = bug_panic;
        traps = settled label w.traps;
      } in
      let w3 : World = record w {
        heap = h;
        bug_behavior = bug_panic;
        traps = settled label' (settled label w.traps);
      } in
      (
        record {
          left = (free_page p w3).1;
          rest = free';
          returns =
              map_twice_lem
                (λ page_addr. map_checked l1 l1' label failed_with bug_panic bad (bad_pa page_addr))
                (λ page_addr. map_checked l2 l2' label' succeeded bug_panic va page_addr) p test
                (record test { failure_line = l1 }) (record test { failure_line = l2 }) w w2 w3
                failure success got_reached got
                (map_checked_lem l1 l1' label failed_with bug_panic bad (bad_pa p) success failure
                  test w1 heap1 quiet (first_reached w1 bad (bad_pa p) refl refl refl) refused refl)
                (map_checked_lem l2 l2' label' succeeded bug_panic va p failure success
                  (record test { failure_line = l1 }) w2 h quiet
                  (first_reached w2 va p refl refl refl) mapped refl)
                (freed_reached w3 va al unused
                  (λ x c ne.
                    MapsWith-others end (p ∷ reserved) root va p 6 heap1 free r x spec canonical c
                      ne
                    ∙ ap (λ (n : Mem). page_mapping n root x) same)
                  refl refl);
          behavior = refl;
          same_root = refl;
          intact = freed.0;
          quiet = quiet;
          others = λ x c ne.
              kept_across heap1.mem h.mem (free_page p w3).1.heap.mem x same
                (MapsWith-others end (p ∷ reserved) root va p 6 heap1 free r x spec canonical c ne)
                freed.1;
          reach =
              Reaching-kept reserved w (free_page p w3).1 va refl refl al unused
                (λ x c ne.
                  kept_across heap1.mem h.mem (free_page p w3).1.heap.mem x same
                    (MapsWith-others end (p ∷ reserved) root va p 6 heap1 free r x spec canonical c
                      ne)
                    freed.1)
                reach;
        },
        MapsWith-used end (p ∷ reserved) root va p 6 heap1 free r spec
            (ap (λ (s : Status × Heap). s.0) mapped),
      )

  -- The same mapping twice.
  pub mapped_then_refused :
      (l1 l1' l2 l2' va : ℕ)
      → va < 2 ^ 64
      → va % 4096 ≡ 0
      → IsCanonical va
      → page_mapping w.heap.mem root va ≡ none
      → Ends end reserved test w p va bug_log l2 (
          map_twice
            (λ page_addr. map_checked l1 l1' label succeeded bug_log va page_addr)
            (λ page_addr. map_checked l2 l2' label' failed_with bug_log va page_addr)
            test
            w)
  mapped_then_refused l1 l1' l2 l2' va fits al canonical unused =
      let page = is.heap.chain.1 in
      let out = is.apart p (first_in p free) in
      let (got, is1, same) = IsVm-got end reserved root p w.heap free is in
      let unused1 : page_mapping heap1.mem root va ≡ none = rw same unused in
      let mapped =
        makes_mapping root va p 6 heap1 end reserved free
          (IsVm-forget end reserved root p heap1 free is1) fits (omega arith) room al
          is.heap.chain.1.1 canonical unused1 in
      let h = (vm_map_page root va p 6 heap1).1 in
      let spec =
        vm_map_page-reserved end (p ∷ reserved) root va p 6 heap1 free is1 (inr room) fits
          (omega arith) in
      let there =
        MapsWith-mapped end (p ∷ reserved) root va p 6 heap1 free (vm_map_page root va p 6 heap1)
          spec (ap (λ (r : Status × Heap). r.0) mapped) in
      let (free1, intact1) =
        MapsWith-IsVm end (p ∷ reserved) root va p 6 heap1 free (vm_map_page root va p 6 heap1)
          spec in
      let refused = vm_map_page-taken root va p 6 (leaf_entry p 6) h there in
      let w1 : World = record w { heap = heap1 } in
      let w2 : World = record w {
        heap = h;
        bug_behavior = bug_log;
        traps = settled label w.traps;
      } in
      let w3 : World = record w {
        heap = h;
        bug_behavior = bug_log;
        traps = settled label' (settled label w.traps);
      } in
      let freed = IsVm-freed end reserved root p h free1 low page out intact1 in
      let r = vm_map_page root va p 6 heap1 in
      let kept_others = λ (x : ℕ) (c : IsCanonical x) (ne : va / 4096 ≢ x / 4096).
        MapsWith-others end (p ∷ reserved) root va p 6 heap1 free r x spec canonical c ne
        ∙ ap (λ (n : Mem). page_mapping n root x) same in
      record {
        left = (free_page p w3).1;
        rest = free1;
        returns =
            map_twice_lem (λ page_addr. map_checked l1 l1' label succeeded bug_log va page_addr)
              (λ page_addr. map_checked l2 l2' label' failed_with bug_log va page_addr) p test
              (record test { failure_line = l1 }) (record test { failure_line = l2 }) w w2 w3
              success failure got_reached got
              (map_checked_lem l1 l1' label succeeded bug_log va p success success test w1 h quiet
                (first_reached w1 va p refl refl refl) mapped refl)
              (map_checked_lem l2 l2' label' failed_with bug_log va p success failure
                (record test { failure_line = l1 }) w2 h quiet
                (second_reached w2 va al unused kept_others refl refl p (leaf_entry p 6) free1
                  intact1 there)
                refused refl)
              (freed_reached w3 va al unused kept_others refl refl);
        behavior = refl;
        same_root = refl;
        intact = freed.0;
        quiet = quiet;
        others = λ x c ne.
            kept_across heap1.mem h.mem (free_page p w3).1.heap.mem x same
              (MapsWith-others end (p ∷ reserved) root va p 6 heap1 free r x spec canonical c ne)
              freed.1;
        reach =
            Reaching-kept reserved w (free_page p w3).1 va refl refl al unused
              (λ x c ne.
                kept_across heap1.mem h.mem (free_page p w3).1.heap.mem x same
                  (MapsWith-others end (p ∷ reserved) root va p 6 heap1 free r x spec canonical c
                    ne)
                  freed.1)
              reach;
      }
