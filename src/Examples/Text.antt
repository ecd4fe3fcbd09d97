-- ===== src/Examples/Text.antt =====
-- The string functions on a small memory.
use lab.Memory.{Mem}
use lab.Prelude.{ℕ, zero, suc, ◌≡◌, refl, some, List, [], ◌∷◌, arith, pos, inl}
use lab.Str.{strcmp, strncpy, strstr, byte_difference}
use lab.Str.Compare.{strcmp-difference, strcmp-one_difference}
use lab.Str.Copy.{IsCopied, strncpy_lem}
use lab.Str.Find.{find, pointer, strstr_lem, strstr-truncated}

abbrev pub byte_at : List ℕ → ℕ → ℕ
byte_at [] i = 0
byte_at (b ∷ bs) zero = b
byte_at (b ∷ bs) (suc i) = byte_at bs i

-- "ab" at 1 and 4, "cb" at 7, "a" at 10, "xab" at 12.
abbrev pub small : Mem
small = byte_at (
    0 ∷ b'a' ∷ b'b' ∷ 0 ∷ b'a' ∷ b'b' ∷ 0 ∷ b'c' ∷ b'b' ∷ 0 ∷ b'a' ∷ 0 ∷ b'x' ∷ b'a' ∷ b'b' ∷ 0
    ∷ [])

-- "a" against "cb": the bytes behind the first are compared.
strcmp-difference_example : strcmp 1 small 10 7 ≡ some (byte_difference small 11 8)
strcmp-difference_example =
    strcmp-difference 1 small 10 7 b'a' b'c' [] tt refl refl (omega arith) (omega arith)
      (omega arith)

-- "ab" and "cb" compare as equal.
strcmp-one_difference_example : strcmp 1 small 1 7 ≡ some (pos 0)
strcmp-one_difference_example =
    strcmp-one_difference 1 small 1 7 b'a' b'c' [] (b'b' ∷ []) (omega arith) (omega arith)
      (omega arith) (omega arith)

strncpy_example : IsCopied small 100 8 (b'a' ∷ b'b' ∷ []) 1 (strncpy small 100 1 8)
strncpy_example = strncpy_lem small 100 1 7 (b'a' ∷ b'b' ∷ []) (omega arith) (inl (omega arith))

strstr_example :
    strstr 4 small 12 1 ≡ some (pointer 12 (find (b'x' ∷ b'a' ∷ b'b' ∷ []) (b'a' ∷ b'b' ∷ [])))
strstr_example =
    strstr_lem 4 small 12 1 (b'x' ∷ b'a' ∷ b'b' ∷ []) (b'a' ∷ b'b' ∷ []) (omega arith) (omega arith)
      (omega arith)

-- "a" counts as holding "ab".
strstr-truncated_example : strstr 2 small 10 1 ≡ some 10
strstr-truncated_example =
    strstr-truncated 2 small 10 1 b'a' [] (b'b' ∷ []) (omega arith) (omega arith) (omega arith)
