-- ===== src/Str/Find.antt =====
-- What `strstr` finds.
use lab.Memory.{Mem}
use lab.Prelude.{
  ℕ, zero, suc, ◌+◌, ◌≤◌, ◌<◌, ◌≡◌, refl, ◌≢◌, Bool, true, false, Option, none, some, List, [], ◌∷◌,
  ◌++◌, length, arith, if◌then◌else◌, ◌==◌, eq→==, ne→==, ap, ◌∙◌, sym, Bool-cases, eq_or_ne, inl,
  inr,
}
use lab.Str.{strstr_match, strstr}
use lab.Str.Text.{Text}

-- The two agree as far as both go: one is a prefix of the other.
pub agree : List ℕ → List ℕ → Bool
agree [] ys = true
agree (x ∷ xs) [] = true
agree (x ∷ xs) (y ∷ ys) = if x == y then agree xs ys else false

next_offset : Option ℕ → Option ℕ
next_offset none = none
next_offset (some i) = some (suc i)

-- The first offset, short of the end, from where the text agrees with the word.
pub find : List ℕ → List ℕ → Option ℕ
unfolding agree next_offset
find [] ys = none
find (x ∷ xs) ys = if agree (x ∷ xs) ys then some 0 else next_offset (find xs ys)

-- The pointer that stands for an offset; NULL is 0.
pub pointer : ℕ → Option ℕ → ℕ
pointer p none = 0
pointer p (some i) = p + i

module _ (fuel : ℕ) (m : Mem) (p q : ℕ) where
  match-end : m p ≡ 0 → strstr_match (suc fuel) m p q ≡ some true
  unfolding strstr_match
  match-end e = ground arith

  match-word_end : m q ≡ 0 → strstr_match (suc fuel) m p q ≡ some true
  unfolding strstr_match
  match-word_end e = ground arith

  match-same :
      m p ≢ 0
      → m q ≢ 0
      → m p ≡ m q
      → strstr_match (suc fuel) m p q ≡ strstr_match fuel m (p + 1) (q + 1)
  unfolding strstr_match
  match-same np nq e = ground arith

  match-differ : m p ≢ 0 → m q ≢ 0 → m p ≢ m q → strstr_match (suc fuel) m p q ≡ some false
  unfolding strstr_match
  match-differ np nq ne = ground arith

match_lem :
    (fuel : ℕ) (m : Mem) (p q : ℕ) (xs ys : List ℕ)
    → Text m p xs
    → Text m q ys
    → length xs < fuel
    → strstr_match fuel m p q ≡ some (agree xs ys)
unfolding agree
match_lem zero m p q xs ys t u lt = absurd (omega arith)
match_lem (suc fuel) m p q [] ys t u lt = match-end fuel m p q t
match_lem (suc fuel) m p q (x ∷ xs) [] t u lt = match-word_end fuel m p q u
match_lem (suc fuel) m p q (x ∷ xs) (y ∷ ys) t u lt =
    let np : m p ≢ 0 = rw t.0 t.1 in
    let nq : m q ≢ 0 = rw u.0 u.1 in
    elim (eq_or_ne x y) [
      | inl e ↦ rw (eq→== x y e) (
          match-same fuel m p q np nq (t.0 ∙ (e ∙ sym u.0))
          ∙ match_lem fuel m (p + 1) (q + 1) xs ys t.2 u.2 (omega arith))
      | inr ne ↦ rw (ne→== x y ne) (match-differ fuel m p q np nq (rw (t.0, u.0) ne))
    ]

module _ (fuel : ℕ) (m : Mem) (p q : ℕ) where
  strstr-end : m p ≡ 0 → strstr (suc fuel) m p q ≡ some 0
  unfolding strstr
  strstr-end e = rw (eq→== (m p) 0 e) refl

  strstr-hit :
      m p ≢ 0 → strstr_match (suc fuel) m p q ≡ some true → strstr (suc fuel) m p q ≡ some p
  unfolding strstr
  strstr-hit ne e = rw (ne→== (m p) 0 ne, e) refl

  strstr-miss :
      m p ≢ 0
      → strstr_match (suc fuel) m p q ≡ some false
      → strstr (suc fuel) m p q ≡ strstr fuel m (p + 1) q
  unfolding strstr
  strstr-miss ne e = rw (ne→== (m p) 0 ne, e) refl

pointer-next : (p : ℕ) (o : Option ℕ) → pointer (p + 1) o ≡ pointer p (next_offset o)
unfolding pointer next_offset
pointer-next p none = refl
pointer-next p (some i) = omega arith

-- `strstr` ends within one round more than the text has characters. It returns the first place,
-- before the end of the text, from where text and word agree as far as both go, or NULL.
pub strstr_lem :
    (fuel : ℕ) (m : Mem) (p q : ℕ) (xs ys : List ℕ)
    → Text m p xs
    → Text m q ys
    → length xs < fuel
    → strstr fuel m p q ≡ some (pointer p (find xs ys))
unfolding pointer find
strstr_lem zero m p q xs ys t u lt = absurd (omega arith)
strstr_lem (suc fuel) m p q [] ys t u lt = strstr-end fuel m p q t
strstr_lem (suc fuel) m p q (x ∷ xs) ys t u lt =
    let np : m p ≢ 0 = rw t.0 t.1 in
    let inner = match_lem (suc fuel) m p q (x ∷ xs) ys t u lt in
    elim (Bool-cases (agree (x ∷ xs) ys)) [
      | inl hit ↦
          rw hit
            (strstr-hit fuel m p q np (inner ∙ rw hit refl) ∙ ap (λ (n : ℕ). some n) (omega arith))
      | inr miss ↦ rw miss (
          strstr-miss fuel m p q np (inner ∙ rw miss refl)
          ∙ (strstr_lem fuel m (p + 1) q xs ys t.2 u (omega arith)
              ∙ ap (λ (n : ℕ). some n) (pointer-next p (find xs ys))))
    ]

agree-prefix : (xs zs : List ℕ) → agree xs (xs ++ zs) ≡ true
unfolding agree
agree-prefix [] zs = refl
agree-prefix (x ∷ xs) zs = rw (eq→== x x refl, agree-prefix xs zs) refl

agree-occurrence : (ys zs : List ℕ) → agree (ys ++ zs) ys ≡ true
unfolding agree
agree-occurrence [] [] = refl
agree-occurrence [] (z ∷ zs) = refl
agree-occurrence (y ∷ ys) zs = rw (eq→== y y refl, agree-occurrence ys zs) refl

-- What is found lies no further on than any occurrence.
find-occurrence :
    (pre ys zs : List ℕ) (y : ℕ)
    → (i : ℕ) × (find (pre ++ (y ∷ ys ++ zs)) (y ∷ ys) ≡ some i) × (i ≤ length pre)
unfolding find next_offset
find-occurrence [] ys zs y = (0, rw (agree-occurrence (y ∷ ys) zs) refl, omega arith)
find-occurrence (w ∷ pre) ys zs y =
    let below = find-occurrence pre ys zs y in
    elim (Bool-cases (agree (w ∷ (pre ++ (y ∷ ys ++ zs))) (y ∷ ys))) [
      | inl hit ↦ (0, rw hit refl, omega arith)
      | inr miss ↦ (suc below.0, rw (miss, below.1) refl, omega arith)
    ]

-- If the word, which is not empty, stands in the text behind `pre`, `strstr` returns a place in
-- the text no further on than that.
pub strstr-occurrence :
    (fuel : ℕ) (m : Mem) (p q y : ℕ) (pre ys zs : List ℕ)
    → Text m p (pre ++ (y ∷ ys ++ zs))
    → Text m q (y ∷ ys)
    → length (pre ++ (y ∷ ys ++ zs)) < fuel
    → (i : ℕ) × (strstr fuel m p q ≡ some (p + i)) × (i ≤ length pre)
unfolding pointer
strstr-occurrence fuel m p q y pre ys zs t u lt =
    let found = find-occurrence pre ys zs y in
    (
      found.0,
      strstr_lem fuel m p q (pre ++ (y ∷ ys ++ zs)) (y ∷ ys) t u lt ∙ rw found.1 refl,
      found.2,
    )

-- A text that is cut off inside the word counts as holding the word: where a text that is not
-- empty is a prefix of the word, `strstr` returns the text's own start.
pub strstr-truncated :
    (fuel : ℕ) (m : Mem) (p q x : ℕ) (xs zs : List ℕ)
    → Text m p (x ∷ xs)
    → Text m q (x ∷ xs ++ zs)
    → suc (length xs) < fuel
    → strstr fuel m p q ≡ some p
unfolding find pointer
strstr-truncated fuel m p q x xs zs t u lt =
    strstr_lem fuel m p q (x ∷ xs) ((x ∷ xs) ++ zs) t u lt
    ∙ rw (agree-prefix (x ∷ xs) zs) (ap (λ (n : ℕ). some n) (omega arith))
