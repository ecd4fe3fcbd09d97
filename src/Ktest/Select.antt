-- ===== src/Ktest/Select.antt =====
-- The suite that the boot arguments name.
use lab.Dtb.Search.{strcmp_lem}
use lab.Ktest.Bootarg.{parse_bootarg_ktest_lem, Text-behind}
use lab.Ktest.Choice.{verdict, compared-verdict, Choices, pick, run_all, run_suites_lem}
use lab.Ktest.Main.{is_chosen, Named, test_kmain}
use lab.Memory.{Mem}
use lab.Prelude.{
  ℕ, suc, ◌+◌, ◌%◌, ◌≤◌, ◌<◌, ◌≡◌, refl, ◌⊎◌, inr, Bool, true, some, List, [], ◌∷◌, ◌++◌, length,
  arith, ◌∙◌, lt→ltb,
}
use lab.Str.Copy.{Apart}
use lab.Str.Text.{Text, strlen_lem}

-- A copied text whose NUL was there before.
copied-Text :
    (m m' : Mem) (p q : ℕ) (s : List ℕ)
    → Text m p s
    → ((x : ℕ) → m x < 256)
    → ((i : ℕ) → i < length s → m' (q + i) ≡ m (p + i) % 256)
    → m' (q + length s) ≡ 0
    → Text m' q s
copied-Text m m' p q [] t bytes same end = let e : q + 0 ≡ q = omega arith in rw e at end
copied-Text m m' p q (c ∷ s) t bytes same end =
    let zp : p + 0 ≡ p = omega arith in
    let zq : q + 0 ≡ q = omega arith in
    let here : m' q ≡ m p % 256 = rw (zp, zq) at (same 0 (omega arith)) in
    let e : q + suc (length s) ≡ q + 1 + length s = omega arith in
    (
      omega (arith, here, bytes p, t.0),
      t.1,
      copied-Text m m' (p + 1) (q + 1) s t.2 bytes
          (λ i lt.
            let ep : p + suc i ≡ p + 1 + i = omega arith in
            let eq : q + suc i ≡ q + 1 + i = omega arith in
            (rw (ep, eq) at (same (suc i) (omega arith))))
          (rw e at end),
    )

-- A text apart from what has changed.
Text-kept :
    (m m' : Mem) (p : ℕ) (s : List ℕ)
    → ((x : ℕ) → p ≤ x → x ≤ p + length s → m' x ≡ m x)
    → Text m p s
    → Text m' p s
Text-kept m m' p [] same t = same p (omega arith) (omega arith) ∙ t
Text-kept m m' p (c ∷ s) same t = (
  same p (omega arith) (omega arith) ∙ t.0,
  t.1,
  Text-kept m m' (p + 1) s (λ x lo hi. same x (omega arith) (omega arith)) t.2,
)

-- The names of the suites lie apart from the buffer, and `strcmp` tells them from the word or takes
-- them for it.
module _ {A : Type 0} where
  abbrev pub Verdicts : Mem → ℕ → List ℕ → List Bool → List (Named A) → Type 0
  Verdicts m ktest_arg s [] [] = Unit {0}
  Verdicts m ktest_arg s [] (n ∷ suites) = ⊥
  Verdicts m ktest_arg s (b ∷ bs) [] = ⊥
  Verdicts m ktest_arg s (b ∷ bs) (n ∷ suites) =
      ((t : List ℕ) × Text m n.name t
        × (verdict s t ≡ some b)
        × Apart n.name (length t) ktest_arg 64)
      × Verdicts m ktest_arg s bs suites

  Choices-Verdicts :
      (fuel : ℕ) (m m' : Mem) (ktest_arg : ℕ) (s : List ℕ) (bs : List Bool)
      (suites : List (Named A))
      → length s < fuel
      → Text m' ktest_arg s
      → ((x : ℕ) → (x < ktest_arg) ⊎ (ktest_arg + 64 < x) → m' x ≡ m x)
      → Verdicts m ktest_arg s bs suites
      → Choices fuel m' ktest_arg true bs suites
  unfolding is_chosen
  Choices-Verdicts fuel m m' ktest_arg s [] [] lt t same v = tt
  Choices-Verdicts fuel m m' ktest_arg s [] (n ∷ suites) lt t same v = absurd v
  Choices-Verdicts fuel m m' ktest_arg s (b ∷ bs) [] lt t same v = absurd v
  Choices-Verdicts fuel m m' ktest_arg s (b ∷ bs) (n ∷ suites) lt t same v =
      let (u, at, told, apart) = v.0 in
      let at' = Text-kept m m' n.name u (λ x lo hi. same x (omega (arith, apart))) at in
      (
        rw
            (
              strcmp_lem fuel m' ktest_arg n.name s t lt,
              is_chosen,
              compared-verdict m' ktest_arg n.name s u b t at' told,
            )
            refl,
        Choices-Verdicts fuel m m' ktest_arg s bs suites lt t same v.1,
      )

-- On boot arguments that are the word at `prefix` and then `s`, of one to 63 characters, with a
-- buffer of zeros and the names of the suites apart from it, `kmain` runs the suites that `strcmp`
-- takes for `s`, in the order of the array, and no others.
pub test_kmain-named :
    {A : Type 0} (fuel : ℕ) (m : Mem) (prefix bootargs ktest_arg c : ℕ) (ws s : List ℕ)
    (bs : List Bool) (suites : List (Named A)) (a : A)
    → ((x : ℕ) → m x < 256)
    → ((x : ℕ) → ktest_arg ≤ x → x < ktest_arg + 64 → m x ≡ 0)
    → Text m prefix ws
    → Text m bootargs (ws ++ c ∷ s)
    → Apart (bootargs + length ws) (length (c ∷ s)) ktest_arg 64
    → length (c ∷ s) < 64
    → length ws < fuel
    → length (c ∷ s) < fuel
    → Verdicts m ktest_arg (c ∷ s) bs suites
    → test_kmain fuel m prefix bootargs ktest_arg suites a ≡ some (run_all (pick bs suites) a)
unfolding test_kmain
test_kmain-named fuel m prefix bootargs ktest_arg c ws s bs suites a bytes zeros t u apart fits lt
      lt' v =
    let (r, parsed, copy) =
      parse_bootarg_ktest_lem fuel m prefix bootargs ktest_arg 63 ws (c ∷ s) t u lt apart in
    let word =
      copied-Text m r.0 (bootargs + length ws) ktest_arg (c ∷ s)
        (Text-behind m bootargs ws (c ∷ s) u) bytes (λ i small. copy.characters i (omega arith))
        (copy.others (ktest_arg + length (c ∷ s)) (inr (omega arith)) (omega arith)
          ∙ zeros (ktest_arg + length (c ∷ s)) (omega arith) (omega arith)) in
    let choices =
      Choices-Verdicts fuel m r.0 ktest_arg (c ∷ s) bs suites lt' word
        (λ x out. copy.others x (omega (arith, out)) (omega (arith, out))) v in
    rw
      (
        parsed,
        test_kmain,
        strlen_lem fuel r.0 ktest_arg (c ∷ s) word lt',
        lt→ltb 0 (length (c ∷ s)) (omega arith),
        run_suites_lem fuel r.0 ktest_arg true bs suites a choices,
      )
      refl
