-- ===== src/Str/Compare.antt =====
-- What `strcmp` and `strncmp` return on texts.
use lab.Memory.{Mem}
use lab.Prelude.{
  ℕ, zero, suc, ◌+◌, ◌-◌, ◌<◌, ◌≡◌, refl, ◌≢◌, some, List, [], ◌∷◌, ◌++◌, length, arith, eq→==,
  ne→==, ap, ◌∙◌, sym, ℤ, pos, sub_ℕ,
}
use lab.Str.{strcmp, strncmp, byte_difference}
use lab.Str.Text.{Text}

-- Two addresses hold the same characters `ws`, none of them NUL.
abbrev pub Common : Mem → ℕ → ℕ → List ℕ → Type 0
Common m p q [] = Unit {0}
Common m p q (w ∷ ws) = (m p ≡ w) × (m q ≡ w) × (w ≢ 0) × Common m (p + 1) (q + 1) ws

module _ (fuel : ℕ) (m : Mem) (p q : ℕ) where
  strcmp-end : m p ≡ 0 → strcmp (suc fuel) m p q ≡ some (byte_difference m p q)
  unfolding strcmp
  strcmp-end e = ground arith

  strcmp-same : m p ≢ 0 → m p ≡ m q → strcmp (suc fuel) m p q ≡ strcmp fuel m (p + 1) (q + 1)
  unfolding strcmp
  strcmp-same ne e = ground arith

  strcmp-differ :
      m p ≢ 0 → m p ≢ m q → strcmp (suc fuel) m p q ≡ some (byte_difference m (p + 1) (q + 1))
  unfolding strcmp
  strcmp-differ ne ne' = ground arith

-- Two equal texts compare as equal with `strcmp`: the result is 0.
pub strcmp-equal :
    (fuel : ℕ) (m : Mem) (p q : ℕ) (s : List ℕ)
    → Text m p s
    → Text m q s
    → length s < fuel
    → strcmp fuel m p q ≡ some (pos 0)
strcmp-equal zero m p q s t u lt = absurd (omega arith)
strcmp-equal (suc fuel) m p q [] t u lt = strcmp-end fuel m p q t ∙ rw (t, u) refl
strcmp-equal (suc fuel) m p q (c ∷ s) t u lt =
    strcmp-same fuel m p q (rw t.0 t.1) (t.0 ∙ sym u.0)
    ∙ strcmp-equal fuel m (p + 1) (q + 1) s t.2 u.2 (omega arith)

-- Where the first text goes on and the second does not agree, `strcmp` returns the difference of
-- the two bytes behind the first difference, not of the bytes that differ.
pub strcmp-difference :
    (fuel : ℕ) (m : Mem) (p q x y : ℕ) (ws : List ℕ)
    → Common m p q ws
    → m (p + length ws) ≡ x
    → m (q + length ws) ≡ y
    → x ≢ 0
    → x ≢ y
    → length ws < fuel
    → strcmp fuel m p q ≡ some (byte_difference m (p + length ws + 1) (q + length ws + 1))
strcmp-difference zero m p q x y ws shared ex ey nz ne lt = absurd (omega arith)
strcmp-difference (suc fuel) m p q x y [] shared ex ey nz ne lt =
    let zp : p + 0 ≡ p = omega arith in
    let zq : q + 0 ≡ q = omega arith in
    let ex' : m p ≡ x = rw zp at ex in
    let ey' : m q ≡ y = rw zq at ey in
    rw (zp, zq) (strcmp-differ fuel m p q (rw ex' nz) (rw (ex', ey') ne))
strcmp-difference (suc fuel) m p q x y (w ∷ ws) shared ex ey nz ne lt =
    let zp : p + suc (length ws) ≡ p + 1 + length ws = omega arith in
    let zq : q + suc (length ws) ≡ q + 1 + length ws = omega arith in
    rw (zp, zq)
      (strcmp-same fuel m p q (rw shared.0 shared.2) (shared.0 ∙ sym shared.1)
        ∙ strcmp-difference fuel m (p + 1) (q + 1) x y ws shared.3 (rw zp at ex) (rw zq at ey) nz ne
            (omega arith))

-- The parts of a text with the character `x` behind `ws`.
Text-split :
    (m : Mem) (p x : ℕ) (ws zs : List ℕ)
    → Text m p (ws ++ x ∷ zs)
    → (m (p + length ws) ≡ x) × (x ≢ 0) × Text m (p + length ws + 1) zs
Text-split m p x [] zs t = let e : p + 0 ≡ p = omega arith in rw e t
Text-split m p x (w ∷ ws) zs t =
    let e : p + suc (length ws) ≡ p + 1 + length ws = omega arith in
    rw e (Text-split m (p + 1) x ws zs t.2)

Text-Common :
    (m : Mem) (p q : ℕ) (ws xs ys : List ℕ)
    → Text m p (ws ++ xs)
    → Text m q (ws ++ ys)
    → Common m p q ws
Text-Common m p q [] xs ys t u = tt
Text-Common m p q (w ∷ ws) xs ys t u =
    (t.0, u.0, t.1, Text-Common m (p + 1) (q + 1) ws xs ys t.2 u.2)

-- The first byte of a text, NUL included, is determined by its characters.
Text-first : (m : Mem) (p q : ℕ) (s : List ℕ) → Text m p s → Text m q s → m p ≡ m q
Text-first m p q [] t u = t ∙ sym u
Text-first m p q (c ∷ s) t u = t.0 ∙ sym u.0

sub_self : (a : ℕ) → sub_ℕ a a ≡ pos 0
sub_self a = ground arith

-- For two texts of the same length that differ in one character only, `strcmp` returns 0.
pub strcmp-one_difference :
    (fuel : ℕ) (m : Mem) (p q x y : ℕ) (ws zs : List ℕ)
    → Text m p (ws ++ x ∷ zs)
    → Text m q (ws ++ y ∷ zs)
    → x ≢ y
    → length ws < fuel
    → strcmp fuel m p q ≡ some (pos 0)
strcmp-one_difference fuel m p q x y ws zs t u ne lt =
    let a = Text-split m p x ws zs t in
    let b = Text-split m q y ws zs u in
    let behind = Text-first m (p + length ws + 1) (q + length ws + 1) zs a.2 b.2 in
    strcmp-difference fuel m p q x y ws (Text-Common m p q ws (x ∷ zs) (y ∷ zs) t u) a.0 b.0 a.1 ne
      lt
    ∙ ap (λ (d : ℤ). some d)
        (ap (λ (b : ℕ). sub_ℕ b (m (q + length ws + 1))) behind ∙ sub_self (m (q + length ws + 1)))

module _ (fuel : ℕ) (m : Mem) (p q : ℕ) where
  strncmp-zero : m q ≡ 0 → strncmp (suc fuel) m p q 0 ≡ some (pos 0)
  unfolding strncmp
  strncmp-zero e = ground arith

  strncmp-same :
      (n : ℕ)
      → m p ≢ 0
      → m p ≡ m q
      → strncmp (suc fuel) m p q (suc n) ≡ strncmp fuel m (p + 1) (q + 1) n
  unfolding strncmp
  strncmp-same n ne e =
      let less : suc n - 1 ≡ n = omega arith in
      rw (less, ne→== (m p) 0 ne, ne→== (suc n) 0 (omega arith), eq→== (m p) (m q) e) refl

-- A text that begins with the word at `q` compares as equal to it with `strncmp`, over the word's
-- length.
pub strncmp-prefix :
    (fuel : ℕ) (m : Mem) (p q : ℕ) (ws zs : List ℕ)
    → Text m p (ws ++ zs)
    → Text m q ws
    → length ws < fuel
    → strncmp fuel m p q (length ws) ≡ some (pos 0)
strncmp-prefix zero m p q ws zs t u lt = absurd (omega arith)
strncmp-prefix (suc fuel) m p q [] zs t u lt = strncmp-zero fuel m p q u
strncmp-prefix (suc fuel) m p q (w ∷ ws) zs t u lt =
    strncmp-same fuel m p q (length ws) (rw t.0 t.1) (t.0 ∙ sym u.0)
    ∙ strncmp-prefix fuel m (p + 1) (q + 1) ws zs t.2 u.2 (omega arith)
