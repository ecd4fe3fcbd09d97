-- ===== src/Printf/Literal.antt =====
-- `vsnprintf` on a format without conversions: it is copied whole, whatever the size of the buffer.
use lab.Memory.{Mem, store8}
use lab.Printf.{fmt_state_none, Fmt, Formatted, formatted, vsnprintf_loop, vsnprintf, plain_round}
use lab.Printf.Write.{Holds, stored, elsewhere}
use lab.Prelude.{
  ℕ, zero, suc, ◌+◌, ◌<◌, ◌≡◌, refl, ◌≢◌, List, [], ◌∷◌, length, arith, eq→==, ne→==, lt→ltb, ◌∙◌,
}
use lab.Str.Copy.{Apart, Text-store8}
use lab.Str.Text.{Text}

-- No character is a `%`, and each is a byte.
abbrev pub Literal : List ℕ → Type 0
Literal [] = Unit {0}
Literal (c ∷ s) = (c ≢ b'%') × (c < 256) × Literal s

-- The text and its NUL at `str`, and nothing written before.
pub record IsLiteral (m : Mem) (str : ℕ) (s : List ℕ) (r : Formatted) : Type 0 where
  pub after : Mem
  pub returns : r ≡ formatted after
  pub holds : Holds after str s
  pub terminator : after (str + length s) ≡ 0
  pub before : (x : ℕ) → x < str → after x ≡ m x

abbrev scan : Mem → ℕ → ℕ → List ℕ → Fmt
scan m fmt str args = record { mem = m; fmt = fmt; state = fmt_state_none; str = str; args = args }

module _ (fuel buf size : ℕ) (m : Mem) (fmt str : ℕ) (args : List ℕ) where
  loop-end :
      m fmt ≡ 0
      → vsnprintf_loop (suc fuel) buf size (scan m fmt str args) ≡ formatted (store8 m str 0)
  unfolding vsnprintf_loop
  loop-end e = rw (eq→== (m fmt) 0 e) refl

  loop-plain :
      (c : ℕ)
      → m fmt ≡ c
      → c ≢ 0
      → c ≢ b'%'
      → 1 < size
      → vsnprintf_loop (suc fuel) buf size (scan m fmt str args)
        ≡ vsnprintf_loop fuel buf size (scan (store8 m str c) (fmt + 1) (str + 1) args)
  unfolding vsnprintf_loop plain_round
  loop-plain c e nz np room = rw (e, ne→== c 0 nz, ne→== c b'%' np, lt→ltb 1 size room) refl

loop_lem :
    (fuel buf size : ℕ) (m : Mem) (fmt str : ℕ) (args s : List ℕ)
    → Text m fmt s
    → Literal s
    → 1 < size
    → Apart fmt (length s) str (length s)
    → length s < fuel
    → IsLiteral m str s (vsnprintf_loop fuel buf size (scan m fmt str args))
loop_lem zero buf size m fmt str args s t l room apart lt = absurd (omega arith)
loop_lem (suc fuel) buf size m fmt str args [] t l room apart lt = record {
  after = store8 m str 0;
  returns = loop-end fuel buf size m fmt str args t;
  holds = tt;
  terminator = let e : str + 0 ≡ str = omega arith in rw e (stored m str 0 (omega arith));
  before = λ x below. elsewhere m str 0 x below;
}
loop_lem (suc fuel) buf size m fmt str args (c ∷ s) t l room apart lt =
    let rest =
      loop_lem fuel buf size (store8 m str c) (fmt + 1) (str + 1) args s
        (Text-store8 m (fmt + 1) str c s (omega arith) t.2) l.2 room (omega arith) (omega arith) in
    record {
      after = rest.after;
      returns = loop-plain fuel buf size m fmt str args c t.0 t.1 l.0 room ∙ rest.returns;
      holds = (rest.before str (omega arith) ∙ stored m str c l.1, rest.holds);
      terminator =
          let e : str + suc (length s) ≡ str + 1 + length s = omega arith in rw e rest.terminator;
      before = λ x below. rest.before x (omega arith) ∙ elsewhere m str c x below;
    }

-- A format without `%` that does not overlap the buffer is copied whole with its NUL, for every
-- size above 1: a text that is longer than the buffer is written past its end.
pub vsnprintf-Literal :
    (fuel : ℕ) (m : Mem) (buf size fmt : ℕ) (args s : List ℕ)
    → Text m fmt s
    → Literal s
    → 1 < size
    → Apart fmt (length s) buf (length s)
    → length s < fuel
    → IsLiteral m buf s (vsnprintf fuel m buf size fmt args)
unfolding vsnprintf
vsnprintf-Literal fuel m buf size fmt args s t l room apart lt =
    loop_lem fuel buf size m fmt buf args s t l room apart lt
