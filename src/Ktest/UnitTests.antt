-- ===== src/Ktest/UnitTests.antt =====
-- The unit tests of src/ktest/kmain.c: the helpers of include/arch/pgtable.h at the inputs that the
-- repository tests. An expectation stands with its line.
use lab.Ktest.{Test, KtestSuite, ktest_assert}
use lab.Pgtable.{
  is_aligned, ppn_down, ppn_up, va_get_index, phys_to_ppn, ppn_to_phys, pte_get_ppn, pte_from_ppn,
  pte_valid, pte_readable, pte_writable, pte_executable, pte_leaf,
}
use lab.Prelude.{ℕ, Bool, not, none, List, [], ◌∷◌, ◌==◌}

-- `KTEST_EXPECT_EQ`, one after the other.
unfoldable pub expect_all : List (ℕ × Bool) → Test → Test
unfolding ktest_assert
expect_all [] test = test
expect_all ((line, holds) ∷ rest) test = expect_all rest (ktest_assert line holds test)

unfoldable pub test_is_aligned : Test → Test
test_is_aligned = expect_all (
    (86, is_aligned 0x1000)
    ∷ (87, not (is_aligned 0x1010))
    ∷ (88, is_aligned 0xabcab000)
    ∷ (89, not (is_aligned 0xabcabcab))
    ∷ (90, is_aligned 0x80000000)
    ∷ (91, not (is_aligned 0x80000400))
    ∷ (92, is_aligned 0xfffff000)
    ∷ (93, not (is_aligned 0x7fffffff))
    ∷ [])

unfoldable pub test_ppn_down : Test → Test
test_ppn_down = expect_all (
    (98, ppn_down 0x1000 == 0x1)
    ∷ (99, ppn_down 0x1010 == 0x1)
    ∷ (100, ppn_down 0xabcab000 == 0xabcab)
    ∷ (101, ppn_down 0xabcabcab == 0xabcab)
    ∷ (102, ppn_down 0x80000000 == 0x80000)
    ∷ (103, ppn_down 0x80000400 == 0x80000)
    ∷ (104, ppn_down 0x7fffffff == 0x7ffff)
    ∷ (105, ppn_down 0xfffff000 == 0xfffff)
    ∷ [])

unfoldable pub test_ppn_up : Test → Test
test_ppn_up = expect_all (
    (110, ppn_up 0x1000 == 0x1)
    ∷ (111, ppn_up 0x1010 == 0x2)
    ∷ (112, ppn_up 0xabcab000 == 0xabcab)
    ∷ (113, ppn_up 0xabcabcab == 0xabcac)
    ∷ (114, ppn_up 0x80000000 == 0x80000)
    ∷ (115, ppn_up 0x80000400 == 0x80001)
    ∷ (116, ppn_up 0x7fffffff == 0x80000)
    ∷ (117, ppn_up 0xfffff000 == 0xfffff)
    ∷ [])

unfoldable pub test_va_get_index : Test → Test
test_va_get_index = expect_all (
    (134, va_get_index 0xfff 2 == 0x0)
    ∷ (135, va_get_index 0xfff 1 == 0x0)
    ∷ (136, va_get_index 0xfff 0 == 0x0)
    ∷ (137, va_get_index 0x7ffffff000 2 == 0x1ff)
    ∷ (138, va_get_index 0x7ffffff000 1 == 0x1ff)
    ∷ (139, va_get_index 0x7ffffff000 0 == 0x1ff)
    ∷ (140, va_get_index 0x7ffc000000 2 == 0x1ff)
    ∷ (141, va_get_index 0x7ffc000000 1 == 0x1e0)
    ∷ (142, va_get_index 0x7ffc000000 0 == 0x0)
    ∷ (143, va_get_index 0xfffffffffffff000 2 == 0x1ff)
    ∷ (144, va_get_index 0xfffffffffffff000 1 == 0x1ff)
    ∷ [])

unfoldable pub test_phys_to_ppn : Test → Test
test_phys_to_ppn = expect_all (
    (159, phys_to_ppn 0x1000 == 0x1)
    ∷ (160, phys_to_ppn 0x1010 == 0x1)
    ∷ (161, phys_to_ppn 0xabcab000 == 0xabcab)
    ∷ (162, phys_to_ppn 0xabcabcab == 0xabcab)
    ∷ (163, phys_to_ppn 0x80000000 == 0x80000)
    ∷ (164, phys_to_ppn 0x80000400 == 0x80000)
    ∷ (165, phys_to_ppn 0x7fffffff == 0x7ffff)
    ∷ (166, phys_to_ppn 0xfffff000 == 0xfffff)
    ∷ [])

unfoldable pub test_ppn_to_phys : Test → Test
test_ppn_to_phys = expect_all (
    (171, ppn_to_phys 0x1 == 0x1000)
    ∷ (172, ppn_to_phys 0xabcab == 0xabcab000)
    ∷ (173, ppn_to_phys 0x80000 == 0x80000000)
    ∷ (174, ppn_to_phys 0x7ffff == 0x7ffff000)
    ∷ (175, ppn_to_phys 0xfffff == 0xfffff000)
    ∷ [])

unfoldable pub test_pte_get_ppn : Test → Test
test_pte_get_ppn = expect_all (
    (180, pte_get_ppn 0x403 == 0x1)
    ∷ (181, pte_get_ppn 0x3ffffc07 == 0xfffff)
    ∷ (182, pte_get_ppn 0x2af2ac0b == 0xabcab)
    ∷ (183, pte_get_ppn 0x1ffffc0f == 0x7ffff)
    ∷ (184, pte_get_ppn 0x20000001 == 0x80000)
    ∷ [])

unfoldable pub test_pte_from_ppn : Test → Test
test_pte_from_ppn = expect_all (
    (189, pte_from_ppn 0x1 == 0x400)
    ∷ (190, pte_from_ppn 0xfffff == 0x3ffffc00)
    ∷ (191, pte_from_ppn 0xabcab == 0x2af2ac00)
    ∷ (192, pte_from_ppn 0x7ffff == 0x1ffffc00)
    ∷ (193, pte_from_ppn 0x80000 == 0x20000000)
    ∷ [])

unfoldable pub test_pte_valid : Test → Test
test_pte_valid = expect_all (
    (211, not (pte_valid 0x402))
    ∷ (212, pte_valid 0x403)
    ∷ (213, not (pte_valid 0x3ffffc00))
    ∷ (214, pte_valid 0x3ffffc07)
    ∷ (215, not (pte_valid 0x2af2ac00))
    ∷ (216, pte_valid 0x2af2ac0b)
    ∷ (217, not (pte_valid 0x1ffffc00))
    ∷ (218, pte_valid 0x1ffffc0f)
    ∷ (219, not (pte_valid 0x20000000))
    ∷ (220, pte_valid 0x20000001)
    ∷ [])

unfoldable pub test_pte_readable : Test → Test
test_pte_readable = expect_all (
    (225, pte_readable 0x403)
    ∷ (226, pte_readable 0x3ffffc07)
    ∷ (227, pte_readable 0x2af2ac0b)
    ∷ (228, pte_readable 0x1ffffc0f)
    ∷ (229, not (pte_readable 0x20000001))
    ∷ [])

unfoldable pub test_pte_writable : Test → Test
test_pte_writable = expect_all (
    (234, not (pte_writable 0x403))
    ∷ (235, pte_writable 0x3ffffc07)
    ∷ (236, not (pte_writable 0x2af2ac0b))
    ∷ (237, pte_writable 0x1ffffc0f)
    ∷ (238, not (pte_writable 0x20000001))
    ∷ [])

unfoldable pub test_pte_executable : Test → Test
test_pte_executable = expect_all (
    (243, not (pte_executable 0x403))
    ∷ (244, not (pte_executable 0x3ffffc07))
    ∷ (245, pte_executable 0x2af2ac0b)
    ∷ (246, pte_executable 0x1ffffc0f)
    ∷ (247, not (pte_executable 0x20000001))
    ∷ [])

unfoldable pub test_pte_leaf : Test → Test
test_pte_leaf = expect_all (
    (252, pte_leaf 0x403)
    ∷ (253, pte_leaf 0x3ffffc07)
    ∷ (254, not (pte_leaf 0x2af2ac01))
    ∷ (255, pte_leaf 0x2af2ac0b)
    ∷ (256, not (pte_leaf 0x1ffffc01))
    ∷ (257, pte_leaf 0x1ffffc0f)
    ∷ (258, not (pte_leaf 0x20000001))
    ∷ (259, pte_leaf 0x20000005)
    ∷ [])

module _ {A : Type 0} where
  -- A test that works on nothing but the test.
  abbrev pub case_of : (Test → Test) → Test × A → Test × A
  case_of run (test, a) = (run test, a)

  abbrev pub cases_of : List (Test → Test) → List (Test × A → Test × A)
  cases_of [] = []
  cases_of (run ∷ runs) = case_of run ∷ cases_of runs

  abbrev pub suite_of : List (Test → Test) → KtestSuite A
  suite_of runs = record {
    init = none;
    exit = none;
    test_init = none;
    test_exit = none;
    tests = cases_of runs;
  }

abbrev pub page_unit_tests : {A : Type 0} → KtestSuite A
page_unit_tests = suite_of (test_is_aligned ∷ test_ppn_down ∷ test_ppn_up ∷ [])

abbrev pub virt_addr_unit_tests : {A : Type 0} → KtestSuite A
virt_addr_unit_tests = suite_of (test_va_get_index ∷ [])

abbrev pub ppn_unit_tests : {A : Type 0} → KtestSuite A
ppn_unit_tests =
    suite_of (test_phys_to_ppn ∷ test_ppn_to_phys ∷ test_pte_get_ppn ∷ test_pte_from_ppn ∷ [])

abbrev pub pte_unit_tests : {A : Type 0} → KtestSuite A
pte_unit_tests = suite_of (
    test_pte_valid ∷ test_pte_readable ∷ test_pte_writable ∷ test_pte_executable ∷ test_pte_leaf
    ∷ [])
