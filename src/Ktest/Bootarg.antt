-- ===== src/Ktest/Bootarg.antt =====
-- The boot argument that names a suite.
use lab.Ktest.{parse_bootarg_ktest}
use lab.Memory.{Mem}
use lab.Prelude.{ℕ, suc, ◌+◌, ◌<◌, ◌≡◌, refl, some, List, [], ◌∷◌, ◌++◌, length, arith}
use lab.Str.{strncpy}
use lab.Str.Compare.{strncmp-prefix}
use lab.Str.Copy.{Apart, IsCopied, strncpy_lem}
use lab.Str.Text.{Text, strlen_lem}

-- The part of a text behind a word.
pub Text-behind : (m : Mem) (p : ℕ) (ws s : List ℕ) → Text m p (ws ++ s) → Text m (p + length ws) s
Text-behind m p [] s t = let e : p + 0 ≡ p = omega arith in rw e t
Text-behind m p (w ∷ ws) s t =
    let e : p + suc (length ws) ≡ p + 1 + length ws = omega arith in
    rw e (Text-behind m (p + 1) ws s t.2)

-- For boot arguments that begin with the word "ktest_run=", `parse_bootarg_ktest` ends, and copies
-- what follows the word as `strncpy` does: at most `size - 1` characters, with the NUL at
-- `buf + size`.
pub parse_bootarg_ktest_lem :
    (fuel : ℕ) (m : Mem) (prefix bootargs buf k : ℕ) (ws s : List ℕ)
    → Text m prefix ws
    → Text m bootargs (ws ++ s)
    → length ws < fuel
    → Apart (bootargs + length ws) (length s) buf (suc k)
    → (r : Mem × ℕ) × (parse_bootarg_ktest fuel m prefix bootargs buf (suc k) ≡ some r.0)
      × IsCopied m buf (suc k) s (bootargs + length ws) r
unfolding parse_bootarg_ktest
parse_bootarg_ktest_lem fuel m prefix bootargs buf k ws s t u lt apart = (
  strncpy m buf (bootargs + length ws) (suc k),
  rw
      (
        strlen_lem fuel m prefix ws t lt,
        parse_bootarg_ktest,
        strncmp-prefix fuel m bootargs prefix ws s u t lt,
      )
      refl,
  strncpy_lem m buf (bootargs + length ws) k s (Text-behind m bootargs ws s u) apart,
)
