-- ===== src/Prelude/Lists.antt =====
-- Lists measured by native numbers, and membership of numbers as a Boolean test.
use Prim.Native.Nat.{ℕ, suc, ◌+◌}
use mathlib.Core.Path.{◌≡◌, refl}
use mathlib.Core.Bool.{Bool, true, false, ◌||◌}
use mathlib.Core.List.{List, [], ◌∷◌, ◌++◌}
use native.Mathlib.Omega.{arith}
use lab.Prelude.Tests.{◌==◌}

module _ {ℓ} {A : Type ℓ} where
  abbrev pub length : List A → ℕ
  length [] = 0
  length (x ∷ xs) = suc (length xs)

  pub length-append : (xs ys : List A) → length (xs ++ ys) ≡ length xs + length ys
  length-append [] ys = omega arith
  length-append (x ∷ xs) ys = omega (arith, length-append xs ys)

abbrev pub has : ℕ → List ℕ → Bool
has a [] = false
has a (x ∷ xs) = (a == x) || has a xs

infix 40 ◌∈◌ ◌∉◌
abbrev pub ◌∈◌ : ℕ → List ℕ → Type 0
a ∈ xs = has a xs ≡ true

abbrev pub ◌∉◌ : ℕ → List ℕ → Type 0
a ∉ xs = has a xs ≡ false

or-false : (a b : Bool) → (a || b) ≡ false → (a ≡ false) × (b ≡ false)
or-false true b e = absurd (cc e)
or-false false b e = (refl, e)

pub append-not_in : (a : ℕ) (xs ys : List ℕ) → a ∉ xs ++ ys → (a ∉ xs) × (a ∉ ys)
append-not_in a [] ys out = (refl, out)
append-not_in a (x ∷ xs) ys out =
    let both = or-false (a == x) (has a (xs ++ ys)) out in
    let later = append-not_in a xs ys both.1 in (rw (both.0, later.0) refl, later.1)

pub not_in-append : (a : ℕ) (xs ys : List ℕ) → a ∉ xs → a ∉ ys → a ∉ xs ++ ys
not_in-append a [] ys out out' = out'
not_in-append a (x ∷ xs) ys out out' =
    let both = or-false (a == x) (has a xs) out in
    rw (both.0, not_in-append a xs ys both.1 out') refl
