-- ===== src/Ktest/BasicSuite.antt =====
-- `vm_map_tests_basic` as a whole.
use lab.Ktest.{Test, Traps, completes, ktest_assert}
use lab.Ktest.BasicTest.{Machine, test_va, store_at, load_at, write_page, read_page}
use lab.Ktest.BasicSteps.{
  IsSv39, Filled, world, Mapped, AccessedTo, dirty, read, store-translated, load-translated,
  store-Accessed, load-Accessed, store-Filled, read-byte, expect_no_fault-completes,
}
use lab.Alloc.Chain.{IsPage}
use lab.Kernel.{satp_value}
use lab.Ktest.World.{World, settled}
use lab.Memory.{Mem, store8}
use lab.Mm.Marks.{Accessed-trans}
use lab.Prelude.{
  ℕ, zero, suc, ◌+◌, ◌%◌, ◌<◌, ◌≡◌, refl, true, false, Option, some, List, arith, ◌∙◌, ◌==◌, eq→==,
}

module _ (machine : Machine) (sv39 : IsSv39 machine) (label : ℕ → ℕ) (w : World) (end : ℕ)
    (reserved : List ℕ) (root p : ℕ) (free : List ℕ) (paging : w.satp ≡ satp_value root)
    (root_page : IsPage root) (aligned : p % 4096 ≡ 0) where
  abbrev pub state : Mem → Traps → World
  state = world machine sv39 label w end reserved root p free paging root_page aligned

  abbrev pub IsThere : Mem → Type 0
  IsThere = Mapped machine sv39 label w end reserved root p free paging root_page aligned

  abbrev pub Reaches : Mem → Mem → Type 0
  Reaches = AccessedTo machine sv39 label w end reserved root p free paging root_page aligned

  -- How a loop from memory `m` ends: without a failure, and with the bytes below `i` written.
  pub record Ran (test : Test) (m : Mem) (i : ℕ) (r : Option (Test × World)) : Type 0 where
    pub mem : Mem
    pub traps : Traps
    pub test' : Test
    pub returns : r ≡ some (test', state mem traps)
    pub result : test'.result ≡ test.result
    pub accessed : Reaches m mem
    pub filled : Filled p i mem
    pub quiet : traps.ktest_fault_occurred ≡ false

  Ran-after :
      (test test1 : Test) (m n : Mem) (i : ℕ) (r : Option (Test × World))
      → test1.result ≡ test.result
      → Reaches m n
      → Ran test1 n i r
      → Ran test m i r
  Ran-after test test1 m n i r same one ran = record {
    mem = ran.mem;
    traps = ran.traps;
    test' = ran.test';
    returns = ran.returns;
    result = ran.result ∙ same;
    accessed =
        Accessed-trans end reserved root test_va p free (record w.heap { mem = m }) n ran.mem one
          ran.accessed;
    filled = ran.filled;
    quiet = ran.quiet;
  }

  -- No access at all.
  rests : (m : Mem) → IsThere m → Reaches m m
  rests m is = record { mapped = is; elsewhere = λ i2 i1 i0 lt2 lt1 lt0 _. refl }

  module _ (m : Mem) (s : Traps) (is : IsThere m) (i : ℕ) (lt : i < 4096)
      (quiet : s.ktest_fault_occurred ≡ false) where
    abbrev stored : Mem
    stored =
        store8
          (dirty machine sv39 label w end reserved root p free paging root_page aligned m is i lt)
          (p + i) 0xab

    abbrev loaded : Mem
    loaded = read machine sv39 label w end reserved root p free paging root_page aligned m is i lt

    write_round :
        (rounds : ℕ) (test : Test)
        → write_page machine label (suc rounds) i test (state m s)
          ≡ write_page machine label rounds
              (i + 1)
              (record test { failure_line = 454 })
              (state stored (settled (label 454) s))
    unfolding write_page store_at
    write_round rounds test =
        let ends : store_at machine label (test_va + i) 0xab (state m s)
            ≡ completes (state stored s) =
          rw
            (
              store-translated machine sv39 label w end reserved root p free paging root_page
                  aligned m is i lt,
              store_at,
            )
            refl in
        let step =
          expect_no_fault-completes 454 (label 454) (store_at machine label (test_va + i) 0xab) s
            test (state m s) (state stored s) quiet ends in
        rw (step, write_page) refl

    read_round :
        (rounds val : ℕ) (test : Test)
        → Filled p 4096 m
        → read_page machine label (suc rounds) i val test (state m s)
          ≡ read_page machine label rounds
              (i + 1)
              (loaded (p + i))
              (record test { failure_line = 461 })
              (state loaded (settled (label 461) s))
    unfolding read_page load_at ktest_assert
    read_round rounds val test filled =
        let ends : load_at machine label (test_va + i) (val, state m s)
            ≡ completes (loaded (p + i), state loaded s) =
          rw
            (
              load-translated machine sv39 label w end reserved root p free paging root_page aligned
                  m is i lt,
              load_at,
            )
            refl in
        let step =
          expect_no_fault-completes 461 (label 461) (load_at machine label (test_va + i)) s test
            (val, state m s) (loaded (p + i), state loaded s) quiet ends in
        let byte : (loaded (p + i) == 0xab) ≡ true = eq→== (loaded (p + i)) 0xab (
          read-byte machine sv39 label w end reserved root p free paging root_page aligned m is i lt
            i lt
          ∙ filled i lt) in
        rw (step, read_page, byte) refl

  pub write_page_lem :
      (rounds i : ℕ) (test : Test) (m : Mem) (s : Traps)
      → i + rounds ≡ 4096
      → IsThere m
      → Filled p i m
      → s.ktest_fault_occurred ≡ false
      → Ran test m 4096 (write_page machine label rounds i test (state m s))
  unfolding write_page
  write_page_lem zero i test m s count is filled quiet = record {
    mem = m;
    traps = s;
    test' = test;
    returns = refl;
    result = refl;
    accessed = rests m is;
    filled = λ j below. filled j (omega arith);
    quiet = quiet;
  }
  write_page_lem (suc rounds) i test m s count is filled quiet =
      let lt : i < 4096 = omega arith in
      let n = stored m s is i lt quiet in
      let one =
        store-Accessed machine sv39 label w end reserved root p free paging root_page aligned m is i
          lt in
      let test1 : Test = record test { failure_line = 454 } in
      rw (write_round m s is i lt quiet rounds test) (
        Ran-after test test1 m n 4096 _ refl one (
          write_page_lem rounds (i + 1) test1 n (settled (label 454) s) (omega arith) one.mapped
            (store-Filled machine sv39 label w end reserved root p free paging root_page aligned m
              is i lt filled)
            quiet))

  pub read_page_lem :
      (rounds i val : ℕ) (test : Test) (m : Mem) (s : Traps)
      → i + rounds ≡ 4096
      → IsThere m
      → Filled p 4096 m
      → s.ktest_fault_occurred ≡ false
      → Ran test m 4096 (read_page machine label rounds i val test (state m s))
  unfolding read_page
  read_page_lem zero i val test m s count is filled quiet = record {
    mem = m;
    traps = s;
    test' = test;
    returns = refl;
    result = refl;
    accessed = rests m is;
    filled = filled;
    quiet = quiet;
  }
  read_page_lem (suc rounds) i val test m s count is filled quiet =
      let lt : i < 4096 = omega arith in
      let n = loaded m s is i lt quiet in
      let one =
        load-Accessed machine sv39 label w end reserved root p free paging root_page aligned m is i
          lt in
      let test1 : Test = record test { failure_line = 461 } in
      rw (read_round m s is i lt quiet rounds val test filled) (
        Ran-after test test1 m n 4096 _ refl one (
          read_page_lem rounds (i + 1) (n (p + i)) test1 n (settled (label 461) s) (omega arith)
            one.mapped
            (λ j below.
              read-byte machine sv39 label w end reserved root p free paging root_page aligned m is
                i lt j below
              ∙ filled j below)
            quiet))
