-- ===== src/Printf/Rounds.antt =====
-- One round of the loop of `vsnprintf`, by the state and the character it meets.
use lab.Memory.{Mem, store8}
use lab.Prelude.{
  ℕ, suc, ◌+◌, ◌-◌, ◌%◌, ◌^◌, ◌≤◌, ◌<◌, ◌≡◌, refl, ◌≢◌, some, List, [], ◌∷◌, arith, eq→==, ne→==,
  lt→ltb,
}
use lab.Printf.{
  fmt_state_none, fmt_state_percentage, FmtState, Fmt, formatted, vsnprintf_loop, plain_round,
  number, string,
}

abbrev pub scan : FmtState → Mem → ℕ → ℕ → List ℕ → Fmt
scan state m fmt str args = record { mem = m; fmt = fmt; state = state; str = str; args = args }

-- The space that `remaining` stands for.
pub left_over :
    (buf size str : ℕ)
    → buf ≤ str
    → str - buf < size
    → size < 2 ^ 64
    → (size + 2 ^ 64 - (str - buf)) % 2 ^ 64 ≡ size - (str - buf)
left_over buf size str lo room fits = omega arith

-- The rounds of the loop, with room in the buffer.
module _ (fuel buf size : ℕ) (m : Mem) (fmt str : ℕ) (more : 1 < size) where
  pub round-end :
      (args : List ℕ)
      → m fmt ≡ 0
      → vsnprintf_loop (suc fuel) buf size (scan fmt_state_none m fmt str args)
        ≡ formatted (store8 m str 0)
  unfolding vsnprintf_loop
  round-end args e = rw (eq→== (m fmt) 0 e) refl

  pub round-character :
      (args : List ℕ) (c : ℕ)
      → m fmt ≡ c
      → c ≢ 0
      → c ≢ b'%'
      → vsnprintf_loop (suc fuel) buf size (scan fmt_state_none m fmt str args)
        ≡ vsnprintf_loop fuel buf size
            (scan fmt_state_none (store8 m str c) (fmt + 1) (str + 1) args)
  unfolding vsnprintf_loop plain_round
  round-character args c e nz np = rw (e, ne→== c 0 nz, ne→== c b'%' np, lt→ltb 1 size more) refl

  pub round-percent :
      (args : List ℕ)
      → m fmt ≡ b'%'
      → vsnprintf_loop (suc fuel) buf size (scan fmt_state_none m fmt str args)
        ≡ vsnprintf_loop fuel buf size (scan fmt_state_percentage m (fmt + 1) str args)
  unfolding vsnprintf_loop plain_round
  round-percent args e = rw (e, lt→ltb 1 size more) refl

  pub round-decimal :
      (args : List ℕ) (n : ℕ) (m' : Mem) (str' : ℕ)
      → m fmt ≡ b'd'
      → number m str ((size + 2 ^ 64 - (str - buf)) % 2 ^ 64) n 10 ≡ some (m', str')
      → vsnprintf_loop (suc fuel) buf size (scan fmt_state_percentage m fmt str (n ∷ args))
        ≡ vsnprintf_loop fuel buf size (scan fmt_state_none m' (fmt + 1) str' args)
  unfolding vsnprintf_loop
  round-decimal args n m' str' e put = rw (e, lt→ltb 1 size more, put) refl

  pub round-hexadecimal :
      (args : List ℕ) (n : ℕ) (m' : Mem) (str' : ℕ)
      → m fmt ≡ b'x'
      → number m str ((size + 2 ^ 64 - (str - buf)) % 2 ^ 64) n 16 ≡ some (m', str')
      → vsnprintf_loop (suc fuel) buf size (scan fmt_state_percentage m fmt str (n ∷ args))
        ≡ vsnprintf_loop fuel buf size (scan fmt_state_none m' (fmt + 1) str' args)
  unfolding vsnprintf_loop
  round-hexadecimal args n m' str' e put = rw (e, lt→ltb 1 size more, put) refl

  pub round-inserted :
      (args : List ℕ) (p : ℕ) (m' : Mem) (str' : ℕ)
      → m fmt ≡ b's'
      → string m str ((size + 2 ^ 64 - (str - buf)) % 2 ^ 64) p ≡ (m', str')
      → vsnprintf_loop (suc fuel) buf size (scan fmt_state_percentage m fmt str (p ∷ args))
        ≡ vsnprintf_loop fuel buf size (scan fmt_state_none m' (fmt + 1) str' args)
  unfolding vsnprintf_loop
  round-inserted args p m' str' e put = rw (e, lt→ltb 1 size more, put) refl

  pub round-escaped :
      (args : List ℕ) (c : ℕ)
      → m fmt ≡ c
      → c ≢ 0
      → c ≢ b'd'
      → c ≢ b'x'
      → c ≢ b's'
      → vsnprintf_loop (suc fuel) buf size (scan fmt_state_percentage m fmt str args)
        ≡ vsnprintf_loop fuel buf size (scan fmt_state_none m fmt str args)
  unfolding vsnprintf_loop
  round-escaped [] c e nz nd nx ns =
      rw (e, ne→== c 0 nz, ne→== c b'd' nd, ne→== c b'x' nx, ne→== c b's' ns, lt→ltb 1 size more)
        refl
  round-escaped (n ∷ args) c e nz nd nx ns =
      rw (e, ne→== c 0 nz, ne→== c b'd' nd, ne→== c b'x' nx, ne→== c b's' ns, lt→ltb 1 size more)
        refl
