-- ===== src/Str/Text.antt =====
-- A text in memory, and the length that `strlen` finds.
use lab.Memory.{Mem}
use lab.Prelude.{
  ℕ, zero, suc, ◌+◌, ◌<◌, ◌≡◌, ◌≢◌, some, List, [], ◌∷◌, length, arith, eq→==, ne→==, ap, ◌∙◌,
}
use lab.Str.{strlen_loop, strlen}

-- The characters `s`, none of them NUL, and a NUL behind them.
abbrev pub Text : Mem → ℕ → List ℕ → Type 0
Text m p [] = m p ≡ 0
Text m p (c ∷ s) = (m p ≡ c) × (c ≢ 0) × Text m (p + 1) s

strlen_loop_lem :
    (fuel : ℕ) (m : Mem) (p len : ℕ) (s : List ℕ)
    → Text m p s
    → length s < fuel
    → strlen_loop fuel m p len ≡ some (len + length s)
unfolding strlen_loop
strlen_loop_lem zero m p len s t lt = absurd (omega arith)
strlen_loop_lem (suc fuel) m p len [] t lt =
    rw (eq→== (m p) 0 t) (ap (λ (n : ℕ). some n) (omega arith))
strlen_loop_lem (suc fuel) m p len (c ∷ s) t lt = rw (ne→== (m p) 0 (rw t.0 t.1)) (
    strlen_loop_lem fuel m (p + 1) (len + 1) s t.2 (omega arith)
    ∙ ap (λ (n : ℕ). some n) (omega arith))

-- `strlen` ends within one round more than the text has characters, and returns their number.
pub strlen_lem :
    (fuel : ℕ) (m : Mem) (p : ℕ) (s : List ℕ)
    → Text m p s
    → length s < fuel
    → strlen fuel m p ≡ some (length s)
unfolding strlen
strlen_lem fuel m p s t lt =
    strlen_loop_lem fuel m p 0 s t lt ∙ ap (λ (n : ℕ). some n) (omega arith)
