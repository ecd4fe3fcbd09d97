-- ===== src/Ktest/Boot.antt =====
-- From the device tree to the suites: the start of the test kernel, and `kmain` behind `mret`.
use lab.Dtb.{Node, dtb_structs, dtb_strings}
use lab.Dtb.Slots.{Slot, SlotsAt, slots_size}
use lab.Dtb.Tree.{Tree, TreeAt, tree_size, find_node}
use lab.Ktest.{Result, KtestSuite, ktest_suite_run}
use lab.Ktest.Main.{Named, test_kmain}
use lab.Ktest.Names.{SuiteName, text_of, ktest_run, suites, test_kmain-one}
use lab.Ktest.Startup.{Constants, find_value, test_startup, test_startup_lem}
use lab.Memory.{Mem}
use lab.Prelude.{ℕ, ◌+◌, ◌≤◌, ◌<◌, ◌≡◌, refl, ◌≢◌, Option, none, some, List, [], ◌∷◌, ◌++◌, length}
use lab.Startup.{Csrs, mmode_startup}
use lab.Str.Copy.{Apart}
use lab.Str.Text.{Text}

module _ {A : Type 0} where
  -- The registers when `kmain` is entered, and what `kmain` reports.
  unfoldable pub test_boot :
      ℕ
      → Mem
      → ℕ
      → Constants
      → ℕ
      → Csrs
      → ℕ
      → ℕ
      → List (Named A)
      → A
      → Option (Csrs × (List (ℕ × Result) × A))
  test_boot fuel m kernel_dtb c kmain regs prefix ktest_arg suites a =
      elim (test_startup fuel m kernel_dtb c kmain regs) [
        | none ↦ none
        | some (bootargs, regs') ↦ elim (test_kmain fuel m prefix bootargs ktest_arg suites a) [
          | none ↦ none
          | some reported ↦ some (regs', reported)
        ]
      ]

module _ {A : Type 0} (fuel : ℕ) (m : Mem) (dtb : ℕ) (c : Constants) (kmain : ℕ) (regs : Csrs)
    (prefix ktest_arg : ℕ) (name : SuiteName → ℕ) (suite : SuiteName → KtestSuite A) (a : A)
    (t : Tree) (node : Node) (slots : List Slot) (bootargs : ℕ) (k : SuiteName)
    (bytes : (x : ℕ) → m x < 256) (zeros : (x : ℕ) → ktest_arg ≤ x → x < ktest_arg + 64 → m x ≡ 0)
    (word : Text m prefix ktest_run) (names : (j : SuiteName) → Text m (name j) (text_of j))
    (apart : (j : SuiteName) → Apart (name j) (length (text_of j)) ktest_arg 64)
    (enough : 20 < fuel) where
  -- On a device tree whose node "chosen" has the property "bootargs", and where its value is
  -- "ktest_run=" and the name of one of the six suites, the test kernel enters `kmain` with the
  -- registers as the kernel's start sets them, and runs this suite once and no other. The fuel is
  -- more than 20 and more than the tree and the properties need; the buffer is zero and apart from
  -- the boot arguments and the names.
  pub test_boot_lem :
      dtb_strings m dtb ≢ 0
      → TreeAt m (dtb_structs m dtb) t
      → find_node m c.chosen (dtb_structs m dtb) t ≡ some node
      → SlotsAt m dtb node.prop_start slots
      → tree_size t < fuel
      → slots_size slots < fuel
      → find_value m dtb c.bootargs node.prop_start slots ≡ some bootargs
      → Text m bootargs (ktest_run ++ text_of k)
      → Apart (bootargs + 10) (length (text_of k)) ktest_arg 64
      → test_boot fuel m dtb c kmain regs prefix ktest_arg (suites name suite) a
        ≡ some (
          mmode_startup kmain regs,
          ((name k, (ktest_suite_run (suite k) a).0) ∷ [], (ktest_suite_run (suite k) a).1),
        )
  unfolding test_boot
  test_boot_lem strings at found slots_at lt lt' value text out =
      rw
        (
          test_startup_lem fuel m dtb c kmain regs t node slots strings at found slots_at lt lt',
          test_boot,
          value,
          test_kmain-one fuel m prefix bootargs ktest_arg name suite a bytes zeros word names apart
              enough k text out,
        )
        refl
