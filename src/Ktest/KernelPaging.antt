-- ===== src/Ktest/KernelPaging.antt =====
-- `vm_map_tests_kernel` from `vm_init` on.
use lab.Alloc.{alloc_zero_page}
use lab.Alloc.Laws.{IsHeap, IsHeapTo}
use lab.Kernel.{
  LinkerSymbols, MemoryMap, Kernel, Run, running, panicked, out_of_fuel, map_all, mm_init_kmap,
  mm_init, vm_init, satp_value,
}
use lab.Kernel.MapAll.{IsLayout, kernel_table, pages_needed}
use lab.Kernel.Boot.{mm_init_lem, mm_init-within}
use lab.Kernel.Space.{HasTable}
use lab.Ktest.{Test, Traps, Access, faults, ktest_assert}
use lab.Ktest.Denied.{InOrder, text-perm, bss-perm, rodata-perm, data-perm, null-perm}
use lab.Ktest.KernelSuite.{
  satp_value-nonzero, mapped_entry, Denies, Faults, Passed, expect_faults_lem,
}
use lab.Ktest.KernelTest.{
  AccessKind, load, store, fetch, with_kernel, globals, verbose, probes, expect_faults,
  vm_map_tests_kernel,
}
use lab.Ktest.World.{World}
use lab.Mm.{leaf_entry}
use lab.Mm.Access.{forbids, leaf_entry-forbids}
use lab.Mm.Ensure.{IsVm, IsVmTo}
use lab.Pgtable.{pte_readable, pte_writable, pte_executable}
use lab.Prelude.{
  ℕ, ◌∈◌, ◌∉◌, true, ◌+◌, ◌≤◌, Option, ◌%◌, ◌^◌, ◌<◌, ◌≡◌, refl, ◌≢◌, ◌⊎◌, inl, inr, Bool, false,
  not, some, List, ◌∷◌, length, ◌==◌, arith, ap, sym, ◌∙◌, ne→==, Bool-cases, Option-cases,
}

vm_init-running :
    (symbols : LinkerSymbols) (k k' : Kernel)
    → mm_init symbols k ≡ running k'
    → vm_init symbols k ≡ running (record k' { satp = satp_value k'.kernel_root_ptb })
unfolding vm_init
vm_init-running symbols k k' e = rw (e, vm_init) refl

-- The layout that `mm_init` records.
kmap_of : MemoryMap → Run → MemoryMap
kmap_of default (running k) = k.kmap
kmap_of default panicked = default
kmap_of default out_of_fuel = default

mm_init-kmap :
    (symbols : LinkerSymbols) (k k' : Kernel)
    → mm_init symbols k ≡ running k'
    → k'.kmap ≡ mm_init_kmap symbols
unfolding mm_init kmap_of
mm_init-kmap symbols k k' e =
    let default = mm_init_kmap symbols in
    let z = alloc_zero_page k.heap in
    let same : kmap_of default (mm_init symbols k) ≡ default = elim (Bool-cases (z.0 == 0)) [
      | inl no_root ↦ rw (no_root, mm_init) refl
      | inr root ↦ elim (Option-cases (map_all default z.0 z.1)) [
        | inl ran_out ↦ rw (root, mm_init, ran_out) refl
        | inr (h', mapped) ↦ rw (root, mm_init, mapped) refl
      ]
    ] in
    sym (ap (kmap_of default) e) ∙ same

assertions :
    (satp : ℕ) (occurred : Bool) (test : Test)
    → satp ≢ 0
    → occurred ≡ false
    → ktest_assert 393 (not occurred) (ktest_assert 389 (not (satp == 0)) test) ≡ test
unfolding ktest_assert
assertions satp occurred test on quiet = rw (ne→== satp 0 on, quiet) refl

-- `access` is what the machine does for an access. With paging on, an access without its
-- permission faults.
module _ (access : AccessKind → ℕ → World → Access World) (label : ℕ → ℕ)
    (denied : Denies access) where
  module _ (w : World) (kmap : MemoryMap) (order : InOrder kmap) (layout : IsLayout kmap)
      (paging : w.satp ≡ satp_value w.kernel_root_ptb)
      (had : HasTable w.kernel_root_ptb w.heap (kernel_table kmap)) where
    faults_at :
        (kind : AccessKind) (x perm : ℕ)
        → x < 2 ^ 38
        → x % 4096 ≡ 0
        → kernel_table kmap x ≡ some perm
        → perm < 2 ^ 10
        → forbids kind perm ≡ true
        → (t : Traps) → access kind x (record w { traps = t }) ≡ faults (record w { traps = t })
    faults_at kind x perm small al there low forbidden t =
        denied kind x (record w { traps = t }) (leaf_entry x perm) paging (inl small)
          (mapped_entry w.kernel_root_ptb w.heap (kernel_table kmap) had x perm (inl small) al
            (omega arith) there low)
          (leaf_entry-forbids kind x perm low ∙ forbidden)

    all_fault : Faults access label w (probes kmap)
    unfolding forbids pte_writable pte_readable pte_executable
    all_fault =
        let o = order in
        let ts : kmap.text_start < 2 ^ 38 = omega (arith, o.text_bounds, layout.text) in
        let bs : kmap.bss_start < 2 ^ 38 = omega (arith, o.bss_bounds, layout.bss) in
        let rs : kmap.rodata_start < 2 ^ 38 = omega (arith, o.rodata_bounds, layout.rodata) in
        let ds : kmap.data_start < 2 ^ 38 = omega (arith, o.data_bounds, layout.section_data) in
        let null = null-perm kmap order layout in
        let text = text-perm kmap order layout in
        let bss = bss-perm kmap order layout in
        let rodata = rodata-perm kmap order layout in
        let data_perm = data-perm kmap order layout in
        (
          faults_at store 0 0 (omega arith) refl null (omega arith) refl,
          (
            faults_at load 0 0 (omega arith) refl null (omega arith) refl,
            (
              faults_at store kmap.text_start 10 ts o.text_aligned text (omega arith) refl,
              (
                faults_at fetch kmap.bss_start 6 bs o.bss_aligned bss (omega arith) refl,
                (
                  faults_at store kmap.rodata_start 2 rs o.rodata_aligned rodata (omega arith) refl,
                  (
                    faults_at fetch kmap.rodata_start 2 rs o.rodata_aligned rodata (omega arith)
                        refl,
                    (
                      faults_at fetch kmap.data_start 6 ds o.data_aligned data_perm (omega arith)
                          refl,
                      tt,
                    ),
                  ),
                ),
              ),
            ),
          ),
        )

  -- The test behind `vm_init`, on a world in which paging is on.
  passes :
      (test : Test) (w : World)
      → InOrder w.kmap
      → IsLayout w.kmap
      → w.satp ≡ satp_value w.kernel_root_ptb
      → w.kernel_root_ptb < 2 ^ 56
      → w.traps.ktest_fault_occurred ≡ false
      → HasTable w.kernel_root_ptb w.heap (kernel_table w.kmap)
      → Passed access label test w (
          expect_faults access label
            (probes w.kmap)
            (ktest_assert 393
              (not w.traps.ktest_fault_occurred)
              (ktest_assert 389 (not (w.satp == 0)) test))
            w)
  passes test w order layout paging small quiet had =
      let on : w.satp ≢ 0 = rw paging (satp_value-nonzero w.kernel_root_ptb small) in
      rw (assertions w.satp w.traps.ktest_fault_occurred test on quiet) (
        expect_faults_lem access label (probes w.kmap) test w w.traps
          (all_fault w w.kmap order layout paging had) quiet)

  -- On an initialised allocator whose first free page is `root`, with the sections in the linker
  -- script's order and below 2 ^ 38, no fault remembered, and a machine on which an access without
  -- its permission faults once paging is on: `vm_init` does not panic, and unless it leaves fewer
  -- than two free pages the test `vm_map_tests_kernel` ends without a failure, and since `vm_init`
  -- only the variables of the trap handler have changed.
  pub vm_map_tests_kernel_lem :
      (symbols : LinkerSymbols) (test : Test) (w : World) (root : ℕ) (free : List ℕ)
      → IsHeap w.heap (root ∷ free)
      → IsLayout (mm_init_kmap symbols)
      → InOrder (mm_init_kmap symbols)
      → w.traps.ktest_fault_occurred ≡ false
      → (w1 : World) × (rest : List ℕ) × (with_kernel (verbose w) (vm_init symbols (globals w))
          ≡ some w1)
        × IsVm root w1.heap rest
        × ((length rest < 2)
            ⊎ Passed access label test w1 (vm_map_tests_kernel access label symbols test w))
  unfolding vm_map_tests_kernel
  vm_map_tests_kernel_lem symbols test w root free is layout order quiet =
      let (k, rest, ran, at_root, intact, space) =
        mm_init_lem symbols (globals w) root free is layout in
      let ran' = vm_init-running symbols (globals w) k ran in
      let kmap_is = mm_init-kmap symbols (globals w) k ran in
      let w1 : World = record (verbose w) {
        heap = k.heap;
        kmap = k.kmap;
        kernel_root_ptb = k.kernel_root_ptb;
        satp = satp_value k.kernel_root_ptb;
      } in
      (
        w1,
        rest,
        rw ran' refl,
        intact,
        elim space [
          | inl few ↦ inl few
          | inr had ↦ inr (
              rw (ran', vm_map_tests_kernel)
                (passes test w1 (rw kmap_is order) (rw kmap_is layout) refl
                  (rw at_root (omega (arith, is.chain.1))) quiet (rw (at_root, kmap_is) had)))
        ],
      )

  -- The same with the pages that the tables need: the test ends without a failure, with the address
  -- space of the kernel.
  pub record KernelEnds (tail : ℕ) (reserved : List ℕ) (symbols : LinkerSymbols) (test : Test)
      (w : World) (root : ℕ) (free : List ℕ) (r : Test × Option World) : Type 0 where
    pub left : World
    pub test' : Test
    pub rest : List ℕ
    pub returns : r ≡ (test', some left)
    pub result : test'.result ≡ test.result
    pub at_root : left.kernel_root_ptb ≡ root
    pub paging : left.satp ≡ satp_value root
    pub intact : IsVmTo tail reserved root left.heap rest
    pub space : HasTable root left.heap (kernel_table (mm_init_kmap symbols))
    pub used : length free + 2 ≤ length rest + pages_needed (mm_init_kmap symbols)
    pub quiet : left.traps.ktest_fault_occurred ≡ false
    pub same_csrs : left.trap_csrs ≡ w.trap_csrs

  pub vm_map_tests_kernel-enough :
      (tail : ℕ) (reserved : List ℕ) (symbols : LinkerSymbols) (test : Test) (w : World) (root : ℕ)
      (free : List ℕ)
      → IsHeapTo tail w.heap (root ∷ free)
      → ((x : ℕ) → x ∈ root ∷ free → x ∉ reserved)
      → IsLayout (mm_init_kmap symbols)
      → InOrder (mm_init_kmap symbols)
      → pages_needed (mm_init_kmap symbols) ≤ length free
      → w.traps.ktest_fault_occurred ≡ false
      → KernelEnds tail reserved symbols test w root free
          (vm_map_tests_kernel access label symbols test w)
  unfolding vm_map_tests_kernel
  vm_map_tests_kernel-enough tail reserved symbols test w root free is apart layout order room
        quiet =
      let (k, rest, ran, at_root, intact, had, used) =
        mm_init-within tail reserved symbols (globals w) root free is apart layout room in
      let ran' = vm_init-running symbols (globals w) k ran in
      let kmap_is = mm_init-kmap symbols (globals w) k ran in
      let w1 : World = record (verbose w) {
        heap = k.heap;
        kmap = k.kmap;
        kernel_root_ptb = k.kernel_root_ptb;
        satp = satp_value k.kernel_root_ptb;
      } in
      let passed =
        passes test w1 (rw kmap_is order) (rw kmap_is layout) refl
          (rw at_root (omega (arith, is.chain.1))) quiet (rw (at_root, kmap_is) had) in
      record {
        left = record w1 { traps = passed.1 };
        test' = passed.0;
        rest = rest;
        returns = rw (ran', vm_map_tests_kernel) passed.2;
        result = passed.3;
        at_root = at_root;
        paging = ap satp_value at_root;
        intact = intact;
        space = had;
        used = used;
        quiet = passed.4;
        same_csrs = refl;
      }
