-- ===== src/Examples/Booted.antt =====
-- The test kernel from a device tree to the suite that its boot arguments name.
use lab.Dtb.{
  dtb_structs, dtb_strings, dtb_read_struct_token, be_to_le, load32, header_get, token_of, node_at,
  fdt_end_node,
}
use lab.Dtb.Slots.{filled, SlotsAt}
use lab.Dtb.Tree.{Tree, node, done, property, TreeAt, find_node, compared}
use lab.Examples.Harness.{reset}
use lab.Examples.Strings.{is_text-Text, byte_at-bytes, byte_at-behind}
use lab.Examples.TestKernel.{adding}
use lab.Examples.Text.{byte_at}
use lab.Ktest.{ktest_suite_run}
use lab.Ktest.Boot.{test_boot, test_boot_lem}
use lab.Ktest.Names.{
  SuiteName, page_unit, virt_addr_unit, ppn_unit, pte_unit, allocation, mapping, text_of, ktest_run,
  suites,
}
use lab.Ktest.Startup.{find_value}
use lab.Prelude.{ℕ, ◌≡◌, refl, ◌≢◌, some, List, [], ◌∷◌, ◌++◌, length, arith, inl}
use lab.Startup.{mmode_startup}
use lab.Str.Copy.{Apart}
use lab.Str.Text.{Text}

-- The blob at 0 has the tree at 40, a node "r" with a property "p", whose value at 60 is
-- "ktest_run=alloc_tests". The strings of the kernel follow: "ktest_run=" at 92 and the names.
abbrev whole : List ℕ
whole =
    0
    ∷ 0
    ∷ 0
    ∷ 0
    ∷ 0
    ∷ 0
    ∷ 0
    ∷ 0
    ∷ 0
    ∷ 0
    ∷ 0
    ∷ 40
    ∷ 0
    ∷ 0
    ∷ 0
    ∷ 88
    ∷ 0
    ∷ 0
    ∷ 0
    ∷ 0
    ∷ 0
    ∷ 0
    ∷ 0
    ∷ 0
    ∷ 0
    ∷ 0
    ∷ 0
    ∷ 0
    ∷ 0
    ∷ 0
    ∷ 0
    ∷ 0
    ∷ 0
    ∷ 0
    ∷ 0
    ∷ 0
    ∷ 0
    ∷ 0
    ∷ 0
    ∷ 0
    ∷ 0
    ∷ 0
    ∷ 0
    ∷ 1
    ∷ b'r'
    ∷ 0
    ∷ 0
    ∷ 0
    ∷ 0
    ∷ 0
    ∷ 0
    ∷ 3
    ∷ 0
    ∷ 0
    ∷ 0
    ∷ 22
    ∷ 0
    ∷ 0
    ∷ 0
    ∷ 0
    ∷ (ktest_run
        ++ (text_of allocation
            ++ 0
              ∷ 0
              ∷ 0
              ∷ 0
              ∷ 0
              ∷ 0
              ∷ 2
              ∷ b'p'
              ∷ 0
              ∷ 0
              ∷ 0
              ∷ (ktest_run
                  ++ 0
                    ∷ (text_of page_unit
                        ++ 0
                          ∷ (text_of virt_addr_unit
                              ++ 0
                                ∷ (text_of ppn_unit
                                    ++ 0
                                      ∷ (text_of pte_unit
                                          ++ 0
                                            ∷ (text_of allocation
                                                ++ 0 ∷ (text_of mapping ++ 0 ∷ [])))))))))

abbrev at_address : SuiteName → ℕ
at_address page_unit = 103
at_address virt_addr_unit = 119
at_address ppn_unit = 140
at_address pte_unit = 155
at_address allocation = 170
at_address mapping = 182

names_there : (k : SuiteName) → Text (byte_at whole) (at_address k) (text_of k)
names_there page_unit = is_text-Text (byte_at whole) 103 (text_of page_unit) refl
names_there virt_addr_unit = is_text-Text (byte_at whole) 119 (text_of virt_addr_unit) refl
names_there ppn_unit = is_text-Text (byte_at whole) 140 (text_of ppn_unit) refl
names_there pte_unit = is_text-Text (byte_at whole) 155 (text_of pte_unit) refl
names_there allocation = is_text-Text (byte_at whole) 170 (text_of allocation) refl
names_there mapping = is_text-Text (byte_at whole) 182 (text_of mapping) refl

all_apart : (k : SuiteName) → Apart (at_address k) (length (text_of k)) 300 64
all_apart page_unit = inl (omega arith)
all_apart virt_addr_unit = inl (omega arith)
all_apart ppn_unit = inl (omega arith)
all_apart pte_unit = inl (omega arith)
all_apart allocation = inl (omega arith)
all_apart mapping = inl (omega arith)

abbrev root_node : Tree
root_node = node (b'r' ∷ []) (property 22 ∷ []) done

there : TreeAt (byte_at whole) (dtb_structs (byte_at whole) 0) root_node
unfolding dtb_read_struct_token be_to_le load32 token_of header_get
there = (refl, (refl, omega arith, refl), (refl, refl, tt), tt, refl)

found : find_node (byte_at whole) 44 (dtb_structs (byte_at whole) 0) root_node ≡ some (node_at 40 1)
unfolding compared header_get be_to_le load32
found = refl

slots_there : SlotsAt (byte_at whole) 0 48 (filled 22 (b'p' ∷ []) ∷ [])
unfolding dtb_read_struct_token be_to_le load32 token_of header_get
slots_there = (refl, refl, (refl, omega arith, refl), (fdt_end_node, refl, tt))

value_there : find_value (byte_at whole) 0 88 48 (filled 22 (b'p' ∷ []) ∷ []) ≡ some 60
unfolding compared header_get be_to_le load32
value_there = refl

strings_there : dtb_strings (byte_at whole) 0 ≢ 0
unfolding header_get be_to_le load32
strings_there = omega arith

test_boot_example :
    test_boot 30
      (byte_at whole)
      0
      (record { chosen = 44; bootargs = 88; empty = 7 })
      0x80000400
      reset
      92
      300
      (suites at_address adding)
      5
    ≡ some (
      mmode_startup 0x80000400 reset,
      (
        (170, (ktest_suite_run (adding allocation) 5).0) ∷ [],
        (ktest_suite_run (adding allocation) 5).1,
      ),
    )
test_boot_example =
    test_boot_lem {A = ℕ} 30 (byte_at whole) 0 (record { chosen = 44; bootargs = 88; empty = 7 })
      0x80000400 reset 92 300 at_address adding 5 root_node (node_at 40 1)
      (filled 22 (b'p' ∷ []) ∷ []) 60 allocation (byte_at-bytes whole refl)
      (λ x lo hi. byte_at-behind whole x (omega arith))
      (is_text-Text (byte_at whole) 92 ktest_run refl) names_there all_apart (omega arith)
      strings_there there found slots_there (omega arith) (omega arith) value_there
      (is_text-Text (byte_at whole) 60 (ktest_run ++ text_of allocation) refl) (inl (omega arith))
