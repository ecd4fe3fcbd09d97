-- ===== src/Str/Copy.antt =====
-- What `strncpy` writes.
use lab.Memory.{Mem, store8}
use lab.Prelude.{
  ℕ, zero, suc, ◌+◌, ◌-◌, ◌%◌, ◌≤◌, ◌<◌, ◌≡◌, refl, ◌≢◌, ◌⊎◌, inl, List, [], ◌∷◌, length, arith,
  ◌∙◌, min,
}
use lab.Str.{strncpy, terminate}
use lab.Str.Text.{Text}

-- The number of characters that are copied from a text of length `len` into `n` bytes.
abbrev pub copied : ℕ → ℕ → ℕ
copied len n = min len (n - 1)

module _ (m : Mem) (dst src k : ℕ) where
  strncpy-more :
      1 ≤ k
      → m src ≢ 0
      → strncpy m dst src (suc k) ≡ strncpy (store8 m dst (m src)) (dst + 1) (src + 1) k
  unfolding strncpy
  strncpy-more room ne = ground arith

  strncpy-last : strncpy m dst src 1 ≡ terminate m dst 1
  unfolding strncpy
  strncpy-last = refl

  strncpy-stop : m src ≡ 0 → strncpy m dst src (suc k) ≡ terminate m dst (suc k)
  unfolding strncpy
  strncpy-stop e = ground arith

-- The source, its NUL included, and the bytes from `dst` to `dst + n` do not overlap.
abbrev pub Apart : ℕ → ℕ → ℕ → ℕ → Type 0
Apart src len dst n = (src + len < dst) ⊎ (dst + n < src)

-- A text is as it was after a write outside of it.
pub Text-store8 :
    (m : Mem) (p a v : ℕ) (s : List ℕ)
    → (a < p) ⊎ (p + length s < a)
    → Text m p s
    → Text (store8 m a v) p s
unfolding store8
Text-store8 m p a v [] out t = ground arith
Text-store8 m p a v (c ∷ s) out t =
    (ground arith, t.1, Text-store8 m (p + 1) a v s (omega arith) t.2)

-- The result of a copy: the pointer behind the last character copied, the characters at their
-- places, a NUL at `dst + n`, and nothing else written.
pub record IsCopied (m : Mem) (dst n : ℕ) (s : List ℕ) (src : ℕ) (r : Mem × ℕ) : Type 0 where
  pub returned : r.1 ≡ dst + copied (length s) n
  pub characters : (i : ℕ) → i < copied (length s) n → r.0 (dst + i) ≡ m (src + i) % 256
  pub terminator : r.0 (dst + n) ≡ 0
  pub others : (x : ℕ) → (x < dst) ⊎ (dst + copied (length s) n ≤ x) → x ≢ dst + n → r.0 x ≡ m x

store8-at : (m : Mem) (a v : ℕ) → store8 m a v a ≡ v % 256
unfolding store8
store8-at m a v = ground arith

store8-off : (m : Mem) (a v x : ℕ) → x ≢ a → store8 m a v x ≡ m x
unfolding store8
store8-off m a v x ne = ground arith

-- Nothing is copied.
terminate-IsCopied :
    (m : Mem) (dst src n : ℕ) (s : List ℕ)
    → copied (length s) n ≡ 0
    → IsCopied m dst n s src (terminate m dst n)
terminate-IsCopied m dst src n s e = record {
  returned = omega arith;
  characters = λ i lt. absurd (omega arith);
  terminator = store8-at m (dst + n) 0;
  others = λ x out ne. store8-off m (dst + n) 0 x ne;
}

module _ (m : Mem) (dst src k c : ℕ) (s : List ℕ) (r : Mem × ℕ) (first : m src ≡ c)
    (apart : Apart src (suc (length s)) dst (suc (suc k)))
    (rest : IsCopied (store8 m dst c) (dst + 1) (suc k) s (src + 1) r) where
  character :
      (i : ℕ) → i < copied (suc (length s)) (suc (suc k)) → r.0 (dst + i) ≡ m (src + i) % 256
  character zero lt =
      let e : dst + 0 ≡ dst = omega arith in
      let e' : src + 0 ≡ src = omega arith in
      rw (e, e', first) (rest.others dst (inl (omega arith)) (omega arith) ∙ store8-at m dst c)
  character (suc i) lt =
      let e : dst + suc i ≡ dst + 1 + i = omega arith in
      let e' : src + suc i ≡ src + 1 + i = omega arith in
      rw (e, e')
        (rest.characters i (omega arith) ∙ rw (store8-off m dst c (src + 1 + i) (omega arith)) refl)

  other :
      (x : ℕ)
      → (x < dst) ⊎ (dst + copied (suc (length s)) (suc (suc k)) ≤ x)
      → x ≢ dst + suc (suc k)
      → r.0 x ≡ m x
  other x out ne = rest.others x (omega arith) (omega arith) ∙ store8-off m dst c x (omega arith)

  IsCopied-cons : IsCopied m dst (suc (suc k)) (c ∷ s) src r
  IsCopied-cons = record {
    returned = omega (arith, rest.returned);
    characters = character;
    terminator = let e : dst + suc (suc k) ≡ dst + 1 + suc k = omega arith in rw e rest.terminator;
    others = other;
  }

-- `strncpy` with a size of at least 1 copies at most `n - 1` characters of a text that does not
-- overlap the target, and returns the pointer behind them. The NUL is written at `dst + n`,
-- whatever the number of characters copied, and no other byte changes.
pub strncpy_lem :
    (m : Mem) (dst src k : ℕ) (s : List ℕ)
    → Text m src s
    → Apart src (length s) dst (suc k)
    → IsCopied m dst (suc k) s src (strncpy m dst src (suc k))
strncpy_lem m dst src k [] t apart =
    rw (strncpy-stop m dst src k t) (terminate-IsCopied m dst src (suc k) [] (omega arith))
strncpy_lem m dst src zero (c ∷ s) t apart =
    rw (strncpy-last m dst src 0) (terminate-IsCopied m dst src 1 (c ∷ s) (omega arith))
strncpy_lem m dst src (suc k) (c ∷ s) t apart =
    rw (strncpy-more m dst src (suc k) (omega arith) (rw t.0 t.1), t.0)
      (IsCopied-cons m dst src k c s _ t.0 apart (
        strncpy_lem (store8 m dst c) (dst + 1) (src + 1) k s
          (Text-store8 m (src + 1) dst c s (omega arith) t.2) (omega arith)))
