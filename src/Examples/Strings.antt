-- ===== src/Examples/Strings.antt =====
-- Memory that is given as a list of bytes, with zeros behind them, and tests that decide what it
-- holds.
use lab.Examples.Text.{byte_at}
use lab.Memory.{Mem}
use lab.Prelude.{
  ℕ, zero, suc, ◌+◌, ◌≤◌, ◌<◌, ◌≡◌, refl, Bool, true, false, not, ◌&&◌, List, [], ◌∷◌, length, ltb,
  ◌==◌, arith,
}
use lab.Str.Text.{Text}

abbrev pub is_text : Mem → ℕ → List ℕ → Bool
is_text m p [] = m p == 0
is_text m p (c ∷ s) = (m p == c) && (not (c == 0) && is_text m (p + 1) s)

both : (a b : Bool) → (a && b) ≡ true → (a ≡ true) × (b ≡ true)
both true b e = (refl, e)
both false b e = absurd (cc e)

pub is_text-Text : (m : Mem) (p : ℕ) (s : List ℕ) → is_text m p s ≡ true → Text m p s
is_text-Text m p [] e = ground arith
is_text-Text m p (c ∷ s) e =
    let e1 = both (m p == c) (not (c == 0) && is_text m (p + 1) s) e in
    let e2 = both (not (c == 0)) (is_text m (p + 1) s) e1.1 in
    (ground (arith, e1.0), ground (arith, e2.0), is_text-Text m (p + 1) s e2.1)

abbrev pub are_bytes : List ℕ → Bool
are_bytes [] = true
are_bytes (b ∷ bs) = ltb b 256 && are_bytes bs

pub byte_at-bytes : (bs : List ℕ) → are_bytes bs ≡ true → (x : ℕ) → byte_at bs x < 256
byte_at-bytes [] e x = omega arith
byte_at-bytes (b ∷ bs) e zero = let f = both (ltb b 256) (are_bytes bs) e in ground (arith, f.0)
byte_at-bytes (b ∷ bs) e (suc x) = byte_at-bytes bs (both (ltb b 256) (are_bytes bs) e).1 x

pub byte_at-behind : (bs : List ℕ) (x : ℕ) → length bs ≤ x → byte_at bs x ≡ 0
byte_at-behind [] x le = refl
byte_at-behind (b ∷ bs) zero le = absurd (omega arith)
byte_at-behind (b ∷ bs) (suc x) le = byte_at-behind bs x (omega arith)
