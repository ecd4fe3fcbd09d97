-- ===== src/Ktest/Choice.antt =====
-- Which suites `kmain` runs, by the boot arguments.
use lab.Dtb.{is_zero}
use lab.Dtb.Tree.{compared}
use lab.Ktest.{Result, ktest_suite_run, parse_bootarg_ktest}
use lab.Ktest.Main.{ktest_arg_max_size, is_chosen, Named, run_suites, test_kmain}
use lab.Memory.{Mem, store8}
use lab.Prelude.{
  ℕ, zero, suc, ◌+◌, ◌%◌, ◌<◌, ◌≡◌, refl, ◌≢◌, inl, inr, Bool, true, false, Option, none, some,
  List, [], ◌∷◌, length, leb, ◌==◌, if◌then◌else◌, arith, ◌∙◌, eq_or_ne, eq→==, ne→==,
}
use lab.Str.{strncmp, byte_difference}
use lab.Str.Text.{Text, strlen_lem}

-- What `strcmp` tells of two texts: whether it takes them for equal, and nothing where it reads
-- behind the NUL of the second one.
abbrev pub first : List ℕ → ℕ
first [] = 0
first (c ∷ s) = c

abbrev pub verdict : List ℕ → List ℕ → Option Bool
verdict [] t = some (0 == first t)
verdict (c ∷ s) [] = none
verdict (c ∷ s) (d ∷ t) =
    let rest = verdict s t in if c == d then rest else some (first s == first t)

Text-first : (m : Mem) (p : ℕ) (s : List ℕ) → Text m p s → m p ≡ first s
Text-first m p [] t = t
Text-first m p (c ∷ s) t = t.0

-- A difference of bytes is zero where they are equal.
is_zero-difference :
    (m : Mem) (p q a b : ℕ) → m p ≡ a → m q ≡ b → is_zero (byte_difference m p q) ≡ (a == b)
is_zero-difference m p q a b ep eq = rw (ep, eq) (ground arith)

pub compared-verdict :
    (m : Mem) (p q : ℕ) (s t : List ℕ) (b : Bool)
    → Text m p s
    → Text m q t
    → verdict s t ≡ some b
    → is_zero (compared m p q s) ≡ b
unfolding compared
compared-verdict m p q [] t b at at' v =
    is_zero-difference m p q 0 (first t) at (Text-first m q t at') ∙ cc v
compared-verdict m p q (c ∷ s) [] b at at' v = cc v
compared-verdict m p q (c ∷ s) (d ∷ t) b at at' v = elim (eq_or_ne c d) [
  | inl same ↦
      rw (at.0, at'.0, eq→== c d same)
        (compared-verdict m (p + 1) (q + 1) s t b at.2 at'.2 (rw (eq→== c d same) at v))
  | inr ne ↦
      rw (at.0, at'.0, ne→== c d ne)
        (is_zero-difference m (p + 1) (q + 1) (first s) (first t) (Text-first m (p + 1) s at.2)
            (Text-first m (q + 1) t at'.2)
          ∙ cc (rw (ne→== c d ne) at v))
]

-- The suites, and what is reported of them.
module _ {A : Type 0} where
  abbrev pub run_all : List (Named A) → A → List (ℕ × Result) × A
  run_all [] a = ([], a)
  run_all (s ∷ suites) a =
      let (result, a') = ktest_suite_run s.suite a in
      let (results, b) = run_all suites a' in ((s.name, result) ∷ results, b)

  abbrev pub pick : List Bool → List (Named A) → List (Named A)
  pick [] suites = []
  pick (b ∷ bs) [] = []
  pick (b ∷ bs) (s ∷ suites) = if b then s ∷ pick bs suites else pick bs suites

  -- The choice that is made for each suite.
  abbrev pub Choices : ℕ → Mem → ℕ → Bool → List Bool → List (Named A) → Type 0
  Choices fuel m ktest_arg single [] [] = Unit {0}
  Choices fuel m ktest_arg single [] (s ∷ suites) = ⊥
  Choices fuel m ktest_arg single (b ∷ bs) [] = ⊥
  Choices fuel m ktest_arg single (b ∷ bs) (s ∷ suites) =
      (is_chosen fuel m ktest_arg single s.name ≡ some b)
      × Choices fuel m ktest_arg single bs suites

  pub run_suites_lem :
      (fuel : ℕ) (m : Mem) (ktest_arg : ℕ) (single : Bool) (bs : List Bool)
      (suites : List (Named A)) (a : A)
      → Choices fuel m ktest_arg single bs suites
      → run_suites fuel m ktest_arg single suites a ≡ some (run_all (pick bs suites) a)
  unfolding run_suites
  run_suites_lem fuel m ktest_arg single [] [] a choices = refl
  run_suites_lem fuel m ktest_arg single [] (s ∷ suites) a choices = absurd choices
  run_suites_lem fuel m ktest_arg single (b ∷ bs) [] a choices = absurd choices
  run_suites_lem fuel m ktest_arg single (true ∷ bs) (s ∷ suites) a choices =
      rw
        (
          choices.0,
          run_suites,
          run_suites_lem fuel m ktest_arg single bs suites (ktest_suite_run s.suite a).1 choices.1,
        )
        refl
  run_suites_lem fuel m ktest_arg single (false ∷ bs) (s ∷ suites) a choices =
      rw (choices.0, run_suites) (run_suites_lem fuel m ktest_arg single bs suites a choices.1)

  abbrev everything : List (Named A) → List Bool
  everything [] = []
  everything (s ∷ suites) = true ∷ everything suites

  pick-everything : (suites : List (Named A)) → pick (everything suites) suites ≡ suites
  pick-everything [] = refl
  pick-everything (s ∷ suites) = rw (pick-everything suites) refl

  everything-Choices :
      (fuel : ℕ) (m : Mem) (ktest_arg : ℕ) (suites : List (Named A))
      → Choices fuel m ktest_arg false (everything suites) suites
  unfolding is_chosen
  everything-Choices fuel m ktest_arg [] = tt
  everything-Choices fuel m ktest_arg (s ∷ suites) =
      (refl, everything-Choices fuel m ktest_arg suites)

leb-zero : (x : ℕ) → x ≢ 0 → leb x 0 ≡ false
leb-zero x ne = ground arith

-- Empty boot arguments leave an empty word behind.
parse_bootarg_ktest-empty :
    (fuel : ℕ) (m : Mem) (prefix bootargs buf size c : ℕ) (ws : List ℕ)
    → Text m prefix (c ∷ ws)
    → m bootargs ≡ 0
    → length (c ∷ ws) < fuel
    → parse_bootarg_ktest fuel m prefix bootargs buf size ≡ some (store8 m buf 0)
unfolding parse_bootarg_ktest strncmp
parse_bootarg_ktest-empty zero m prefix bootargs buf size c ws t e lt = absurd (omega arith)
parse_bootarg_ktest-empty (suc fuel) m prefix bootargs buf size c ws t e lt =
    rw (strlen_lem (suc fuel) m prefix (c ∷ ws) t lt, parse_bootarg_ktest, e, t.0, leb-zero c t.1)
      refl

store8-at : (m : Mem) (a v : ℕ) → store8 m a v a ≡ v % 256
unfolding store8
store8-at m a v = ground arith

-- With empty boot arguments, as a kernel started without any has, `kmain` runs every suite, in the
-- order of the array, each in the state that the ones before it leave.
pub test_kmain-all :
    {A : Type 0} (fuel : ℕ) (m : Mem) (prefix bootargs ktest_arg c : ℕ) (ws : List ℕ)
    (suites : List (Named A)) (a : A)
    → Text m prefix (c ∷ ws)
    → m bootargs ≡ 0
    → length (c ∷ ws) < fuel
    → test_kmain fuel m prefix bootargs ktest_arg suites a ≡ some (run_all suites a)
unfolding test_kmain
test_kmain-all fuel m prefix bootargs ktest_arg c ws suites a t e lt =
    rw
      (
        parse_bootarg_ktest-empty fuel m prefix bootargs ktest_arg ktest_arg_max_size c ws t e lt,
        test_kmain,
        strlen_lem fuel (store8 m ktest_arg 0) ktest_arg [] (store8-at m ktest_arg 0) (omega arith),
        run_suites_lem fuel (store8 m ktest_arg 0) ktest_arg false (everything suites) suites a
            (everything-Choices fuel (store8 m ktest_arg 0) ktest_arg suites),
        pick-everything suites,
      )
      refl
