-- ===== src/Printf/Render.antt =====
-- `vsnprintf` on any format: the buffer holds the rendered text with its NUL, if that fits.
use lab.Memory.{Mem, store8}
use lab.Prelude.{
  ℕ, zero, suc, ◌+◌, ◌-◌, ◌*◌, ◌%◌, ◌^◌, ◌≤◌, ◌<◌, ◌≡◌, refl, List, [], ◌∷◌, ◌++◌, length,
  length-append, arith, sym, ◌∙◌, some,
}
use lab.Printf.{
  fmt_state_none, fmt_state_percentage, Formatted, formatted, vsnprintf_loop, vsnprintf, number,
  string,
}
use lab.Printf.Emit.{emit, emit-append, Text-emit, string-emit}
use lab.Printf.Items.{
  Item, character, decimal, hexadecimal, inserted, escaped, numeral, number-numeral, code_of,
  text_of, format_of, rendered, arguments, Away, AreItems,
}
use lab.Printf.Rounds.{
  scan, left_over, round-end, round-character, round-percent, round-decimal, round-hexadecimal,
  round-inserted, round-escaped,
}
use lab.Str.Text.{Text}

-- What is written inside of the buffer leaves the texts that are inserted.
AreItems-emit :
    (m : Mem) (buf size p : ℕ) (s : List ℕ) (xs : List Item)
    → buf ≤ p
    → p + length s ≤ buf + size
    → AreItems m buf size xs
    → AreItems (emit m p s) buf size xs
AreItems-emit m buf size p s [] lo hi h = tt
AreItems-emit m buf size p s (character c ∷ xs) lo hi h =
    (h.0, AreItems-emit m buf size p s xs lo hi h.1)
AreItems-emit m buf size p s (decimal n ∷ xs) lo hi h =
    (h.0, AreItems-emit m buf size p s xs lo hi h.1)
AreItems-emit m buf size p s (hexadecimal n ∷ xs) lo hi h =
    (h.0, AreItems-emit m buf size p s xs lo hi h.1)
AreItems-emit m buf size p s (inserted q t ∷ xs) lo hi h = (
  (Text-emit m p q s t (omega (arith, h.0.2)) h.0.0, h.0.1, h.0.2),
  AreItems-emit m buf size p s xs lo hi h.1,
)
AreItems-emit m buf size p s (escaped c ∷ xs) lo hi h =
    (h.0, AreItems-emit m buf size p s xs lo hi h.1)

-- Where the loop stands when the items `xs` are left.
record Ready (m : Mem) (buf size fmt str fuel : ℕ) (xs : List Item) : Type 0 where
  format : Text m fmt (format_of xs)
  items : AreItems m buf size xs
  away : Away fmt (length (format_of xs)) buf size
  low : buf ≤ str
  room : str - buf + length (rendered xs) < size
  fits : size < 2 ^ 64
  enough : 2 * length (format_of xs) < fuel

-- What it returns from there.
abbrev ending : Mem → ℕ → List ℕ → Formatted
ending m str s = formatted (store8 (emit m str s) (str + length s) 0)

abbrev Renders : ℕ → ℕ → ℕ → Type 0
Renders fuel buf size =
    (m : Mem) (fmt str : ℕ) (xs : List Item)
    → Ready m buf size fmt str fuel xs
    → vsnprintf_loop fuel buf size (scan fmt_state_none m fmt str (arguments xs))
      ≡ ending m str (rendered xs)

-- The texts of an item and of the items behind it, one after the other.
ending-append :
    (m : Mem) (str : ℕ) (s t : List ℕ)
    → ending (emit m str s) (str + length s) t ≡ ending m str (s ++ t)
ending-append m str s t =
    let e : str + length s + length t ≡ str + length (s ++ t) = omega (arith, length-append s t) in
    rw (e, sym (emit-append m str s t)) refl

-- Where the loop stands behind an item.
Ready-next :
    (m : Mem) (buf size fmt str fuel fuel' : ℕ) (x : Item) (xs : List Item)
    → Ready m buf size fmt str fuel (x ∷ xs)
    → Text m (fmt + length (code_of x)) (format_of xs)
    → fuel ≤ fuel' + 2 * length (code_of x)
    → Ready
        (emit m str (text_of x))
        buf
        size
        (fmt + length (code_of x))
        (str + length (text_of x))
        fuel'
        xs
Ready-next m buf size fmt str fuel fuel' x xs r t le =
    let texts = length-append (text_of x) (rendered xs) in
    let codes = length-append (code_of x) (format_of xs) in
    record {
      format =
          Text-emit m str (fmt + length (code_of x)) (text_of x) (format_of xs)
            (omega (arith, r.away, r.low, r.room, texts, codes)) t;
      items =
          AreItems-emit m buf size str (text_of x) xs r.low (omega (arith, r.room, r.low, texts))
            r.items.1;
      away = omega (arith, r.away, codes);
      low = omega (arith, r.low);
      room = omega (arith, r.room, r.low, texts);
      fits = r.fits;
      enough = omega (arith, r.enough, le, codes);
    }

module _ (buf size : ℕ) (more : 1 < size) where
  -- A number that fits is written with the space that is left.
  put_numeral :
      (m : Mem) (str n base : ℕ)
      → n < 2 ^ 64
      → 10 ≤ base
      → base ≤ 16
      → buf ≤ str
      → str - buf + length (numeral base n) < size
      → size < 2 ^ 64
      → number m str ((size + 2 ^ 64 - (str - buf)) % 2 ^ 64) n base
        ≡ some (emit m str (numeral base n), str + length (numeral base n))
  put_numeral m str n base small lo hi low room fits =
      rw (left_over buf size str low (omega (arith, room)) fits) (
        number-numeral m str (size - (str - buf)) n base small lo hi (omega (arith, room))
          (omega (arith, fits)))

  inserted_string :
      (m : Mem) (fmt str fuel p : ℕ) (s : List ℕ) (xs : List Item)
      → Ready m buf size fmt str fuel (inserted p s ∷ xs)
      → string m str ((size + 2 ^ 64 - (str - buf)) % 2 ^ 64) p ≡ (emit m str s, str + length s)
  inserted_string m fmt str fuel p s xs r =
      let texts = length-append s (rendered xs) in
      rw (left_over buf size str r.low (omega (arith, r.room)) r.fits) (
        string-emit m str (size - (str - buf)) p s r.items.0.0 (omega (arith, r.room, texts))
          (omega (arith, r.room, r.low, r.items.0.2, texts)))

  -- Behind an item the loop stands as the induction wants it.
  continue :
      (fuel fuel' : ℕ) (m : Mem) (fmt str : ℕ) (x : Item) (xs : List Item)
      → Renders fuel' buf size
      → Ready m buf size fmt str fuel (x ∷ xs)
      → Text m (fmt + length (code_of x)) (format_of xs)
      → fuel ≤ fuel' + 2 * length (code_of x)
      → vsnprintf_loop fuel' buf size (
          scan fmt_state_none
            (emit m str (text_of x))
            (fmt + length (code_of x))
            (str + length (text_of x))
            (arguments xs))
        ≡ ending m str (rendered (x ∷ xs))
  continue fuel fuel' m fmt str x xs ih r t le =
      ih (emit m str (text_of x)) (fmt + length (code_of x)) (str + length (text_of x)) xs
        (Ready-next m buf size fmt str fuel fuel' x xs r t le)
      ∙ ending-append m str (text_of x) (rendered xs)

  -- A conversion takes two rounds.
  converted :
      (fuel : ℕ) (m : Mem) (fmt str : ℕ) (x : Item) (xs : List Item)
      → Renders fuel buf size
      → Ready m buf size fmt str (suc (suc fuel)) (x ∷ xs)
      → m fmt ≡ b'%'
      → length (code_of x) ≡ 2
      → Text m (fmt + 1 + 1) (format_of xs)
      → vsnprintf_loop
          (suc fuel)
          buf
          size
          (scan fmt_state_percentage m (fmt + 1) str (arguments (x ∷ xs)))
        ≡ vsnprintf_loop fuel buf size (
            scan fmt_state_none
              (emit m str (text_of x))
              (fmt + 1 + 1)
              (str + length (text_of x))
              (arguments xs))
      → vsnprintf_loop
          (suc (suc fuel))
          buf
          size
          (scan fmt_state_none m fmt str (arguments (x ∷ xs)))
        ≡ ending m str (rendered (x ∷ xs))
  converted fuel m fmt str x xs ih r percent two t step =
      let e : fmt + 1 + 1 ≡ fmt + length (code_of x) = omega (arith, two) in
      round-percent (suc fuel) buf size m fmt str more (arguments (x ∷ xs)) percent
      ∙ step
      ∙ rw e (continue (suc (suc fuel)) fuel m fmt str x xs ih r (rw e at t) (omega (arith, two)))

  rounds : (fuel : ℕ) → Renders fuel buf size
  rounds zero m fmt str xs r = absurd (omega (arith, r.enough))
  rounds (suc fuel) m fmt str [] r =
      let e : str + 0 ≡ str = omega arith in
      round-end fuel buf size m fmt str more [] r.format ∙ rw e refl
  rounds (suc fuel) m fmt str (character c ∷ xs) r =
      round-character fuel buf size m fmt str more (arguments xs) c r.format.0 r.items.0.0
        r.items.0.1
      ∙ continue (suc fuel) fuel m fmt str (character c) xs (rounds fuel) r r.format.2 (omega arith)
  rounds (suc zero) m fmt str (decimal n ∷ xs) r = absurd (omega (arith, r.enough))
  rounds (suc zero) m fmt str (hexadecimal n ∷ xs) r = absurd (omega (arith, r.enough))
  rounds (suc zero) m fmt str (inserted p s ∷ xs) r = absurd (omega (arith, r.enough))
  rounds (suc zero) m fmt str (escaped c ∷ xs) r = absurd (omega (arith, r.enough))
  rounds (suc (suc fuel)) m fmt str (decimal n ∷ xs) r =
      converted fuel m fmt str (decimal n) xs (rounds fuel) r r.format.0 refl r.format.2.2 (
        round-decimal fuel buf size m (fmt + 1) str more (arguments xs) n
          (emit m str (numeral 10 n)) (str + length (numeral 10 n)) r.format.2.0
          (put_numeral m str n 10 r.items.0 (omega arith) (omega arith) r.low
            (omega (arith, r.room, length-append (numeral 10 n) (rendered xs))) r.fits))
  rounds (suc (suc fuel)) m fmt str (hexadecimal n ∷ xs) r =
      converted fuel m fmt str (hexadecimal n) xs (rounds fuel) r r.format.0 refl r.format.2.2 (
        round-hexadecimal fuel buf size m (fmt + 1) str more (arguments xs) n
          (emit m str (numeral 16 n)) (str + length (numeral 16 n)) r.format.2.0
          (put_numeral m str n 16 r.items.0 (omega arith) (omega arith) r.low
            (omega (arith, r.room, length-append (numeral 16 n) (rendered xs))) r.fits))
  rounds (suc (suc fuel)) m fmt str (inserted p s ∷ xs) r =
      converted fuel m fmt str (inserted p s) xs (rounds fuel) r r.format.0 refl r.format.2.2 (
        round-inserted fuel buf size m (fmt + 1) str more (arguments xs) p (emit m str s)
          (str + length s) r.format.2.0 (inserted_string m fmt str (suc (suc fuel)) p s xs r))
  rounds (suc (suc zero)) m fmt str (escaped c ∷ xs) r = absurd (omega (arith, r.enough))
  rounds (suc (suc (suc fuel))) m fmt str (escaped c ∷ xs) r =
      let (nz, np, nd, nx, ns, byte) = r.items.0 in
      let e : fmt + 1 + 1 ≡ fmt + 2 = omega arith in
      round-percent (suc (suc fuel)) buf size m fmt str more (arguments xs) r.format.0
      ∙ round-escaped (suc fuel) buf size m (fmt + 1) str more (arguments xs) c r.format.2.0 nz nd
          nx ns
      ∙ round-character fuel buf size m (fmt + 1) str more (arguments xs) c r.format.2.0 nz np
      ∙ rw e (
          continue (suc (suc (suc fuel))) fuel m fmt str (escaped c) xs (rounds fuel) r
            (rw e at r.format.2.2) (omega arith))

-- For a message of characters, numbers in base 10 and 16, inserted texts and escaped characters,
-- whose rendered text fits the buffer with its NUL, and whose format and texts stand away from the
-- buffer, `vsnprintf` with the message's format and arguments ends, and writes the rendered text and
-- a NUL behind it to the buffer, and nothing else.
pub vsnprintf_lem :
    (fuel : ℕ) (m : Mem) (buf size fmt : ℕ) (xs : List Item)
    → Text m fmt (format_of xs)
    → AreItems m buf size xs
    → Away fmt (length (format_of xs)) buf size
    → 1 < size
    → size < 2 ^ 64
    → length (rendered xs) < size
    → 2 * length (format_of xs) < fuel
    → vsnprintf fuel m buf size fmt (arguments xs)
      ≡ formatted (store8 (emit m buf (rendered xs)) (buf + length (rendered xs)) 0)
unfolding vsnprintf
vsnprintf_lem fuel m buf size fmt xs t items away more fits room enough =
    rounds buf size more fuel m fmt buf xs (record {
      format = t;
      items = items;
      away = away;
      low = omega arith;
      room = omega (arith, room);
      fits = fits;
      enough = enough;
    })
