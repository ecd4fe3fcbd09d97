-- ===== src/Printf/Emit.antt =====
-- A text written character by character, and that `number` and `string` do just that where there
-- is room.
use lab.Memory.{Mem, store8}
use lab.Prelude.{
  ℕ, zero, suc, ◌+◌, ◌-◌, ◌^◌, ◌≤◌, ◌<◌, ◌≡◌, refl, ◌≢◌, ◌⊎◌, List, [], ◌∷◌, ◌++◌, length, arith,
  eq→==, ne→==, ap, ◌∙◌,
}
use lab.Printf.{write_digits, string}
use lab.Printf.Number.{Chars}
use lab.Printf.Write.{stored, write_digits-cons}
use lab.Str.Text.{Text}
use lab.Str.Copy.{Text-store8}

abbrev pub emit : Mem → ℕ → List ℕ → Mem
emit m p [] = m
emit m p (c ∷ cs) = emit (store8 m p c) (p + 1) cs

pub emit-append :
    (m : Mem) (p : ℕ) (xs ys : List ℕ) → emit m p (xs ++ ys) ≡ emit (emit m p xs) (p + length xs) ys
emit-append m p [] ys = let e : p + 0 ≡ p = omega arith in rw e refl
emit-append m p (x ∷ xs) ys =
    let e : p + suc (length xs) ≡ p + 1 + length xs = omega arith in
    rw e (emit-append (store8 m p x) (p + 1) xs ys)

-- A text away from what is written stays.
pub Text-emit :
    (m : Mem) (p q : ℕ) (xs s : List ℕ)
    → (p + length xs ≤ q) ⊎ (q + length s < p)
    → Text m q s
    → Text (emit m p xs) q s
Text-emit m p q [] s away t = t
Text-emit m p q (x ∷ xs) s away t =
    Text-emit (store8 m p x) (p + 1) q xs s (omega arith) (Text-store8 m q p x s (omega arith) t)

store8-off : (m : Mem) (a v x : ℕ) → x ≢ a → store8 m a v x ≡ m x
unfolding store8
store8-off m a v x ne = ground arith

pub emit-outside :
    (m : Mem) (p : ℕ) (xs : List ℕ) (x : ℕ) → (x < p) ⊎ (p + length xs ≤ x) → emit m p xs x ≡ m x
emit-outside m p [] x out = refl
emit-outside m p (c ∷ cs) x out =
    emit-outside (store8 m p c) (p + 1) cs x (omega arith) ∙ store8-off m p c x (omega arith)

pub Chars-append : (xs ys : List ℕ) → Chars xs → Chars ys → Chars (xs ++ ys)
Chars-append [] ys hx hy = hy
Chars-append (x ∷ xs) ys hx hy = (hx.0, hx.1, Chars-append xs ys hx.2 hy)

-- What has been written, with a NUL behind it, is a text.
pub Text-written :
    (m : Mem) (p end : ℕ) (xs : List ℕ)
    → Chars xs
    → end ≡ p + length xs
    → Text (store8 (emit m p xs) end 0) p xs
Text-written m p end [] h e =
    let same : end ≡ p = omega arith in rw same (stored m p 0 (omega arith))
Text-written m p end (x ∷ xs) h e = (
  store8-off (emit (store8 m p x) (p + 1) xs) end 0 p (omega arith)
      ∙ emit-outside (store8 m p x) (p + 1) xs p (omega arith)
      ∙ stored m p x h.1,
  h.0,
  Text-written (store8 m p x) (p + 1) end xs h.2 (omega arith),
)

pub write_digits-emit :
    (m : Mem) (str size : ℕ) (cs : List ℕ)
    → length cs < size
    → size < 2 ^ 64
    → write_digits m str size cs ≡ (emit m str cs, str + length cs)
unfolding write_digits
write_digits-emit m str size [] room fits = ap (λ (p : ℕ). (m, p)) (omega arith)
write_digits-emit m str size (c ∷ cs) room fits =
    write_digits-cons m str size c cs (omega arith) fits
    ∙ write_digits-emit (store8 m str c) (str + 1) (size - 1) cs (omega arith) (omega arith)
    ∙ ap (λ (p : ℕ). (emit m str (c ∷ cs), p)) (omega arith)

-- `string` copies a text that fits and is away from the target.
pub string-emit :
    (m : Mem) (buf size src : ℕ) (s : List ℕ)
    → Text m src s
    → length s < size
    → (src + length s < buf) ⊎ (buf + length s ≤ src)
    → string m buf size src ≡ (emit m buf s, buf + length s)
unfolding string
string-emit m buf zero src s t room away = absurd (omega arith)
string-emit m buf (suc size) src [] t room away =
    rw (eq→== (m src) 0 t) (ap (λ (p : ℕ). (m, p)) (omega arith))
string-emit m buf (suc size) src (c ∷ s) t room away =
    rw (ne→== (m src) 0 (rw t.0 t.1), t.0)
      (string-emit (store8 m buf c) (buf + 1) size (src + 1) s
          (Text-store8 m (src + 1) buf c s (omega arith) t.2) (omega arith) (omega arith)
        ∙ ap (λ (p : ℕ). (emit m buf (c ∷ s), p)) (omega arith))
