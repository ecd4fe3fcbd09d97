-- ===== src/Str.antt =====
-- The string functions of src/string.c, over memory. `memset` and `memset64` are in Memory/Set.
-- A loop that ends at a terminator takes fuel, and `none` means that it ran out; the length of the
-- text and one more round are enough (Str/Compare, Str/Copy, Str/Find).
pub mod Text
pub mod Compare
pub mod Copy
pub mod Find
use lab.Memory.{Mem, store8}
use lab.Prelude.{
  ℕ, zero, suc, ◌+◌, ◌-◌, Bool, true, false, not, ◌&&◌, ◌||◌, Option, none, some, ltb, ◌==◌,
  if◌then◌else◌, ℤ, pos, sub_ℕ,
}

-- `while (*str++ != '\0') len++;`
strlen_loop : ℕ → Mem → ℕ → ℕ → Option ℕ
strlen_loop zero m str len = none
strlen_loop (suc fuel) m str len =
    let rest = strlen_loop fuel m (str + 1) (len + 1) in if m str == 0 then some len else rest

unfoldable pub strlen : ℕ → Mem → ℕ → Option ℕ
unfolding strlen_loop
strlen fuel m str = strlen_loop fuel m str 0

-- `*(unsigned char*)str1 - *(unsigned char*)str2`
abbrev pub byte_difference : Mem → ℕ → ℕ → ℤ
byte_difference m str1 str2 = sub_ℕ (m str1) (m str2)

-- Both pointers have moved on when the loop stops at a difference.
unfoldable pub strcmp : ℕ → Mem → ℕ → ℕ → Option ℤ
strcmp zero m str1 str2 = none
strcmp (suc fuel) m str1 str2 =
    let rest = strcmp fuel m (str1 + 1) (str2 + 1) in
    if m str1 == 0
    then some (byte_difference m str1 str2)
    else if m str1 == m str2
    then rest
    else some (byte_difference m (str1 + 1) (str2 + 1))

unfoldable pub strncmp : ℕ → Mem → ℕ → ℕ → ℕ → Option ℤ
strncmp zero m str1 str2 n = none
strncmp (suc fuel) m str1 str2 n =
    let rest = strncmp fuel m (str1 + 1) (str2 + 1) (n - 1) in
    if m str1 == 0
    then some (byte_difference m str1 str2)
    else if n == 0
    then some (pos 0)
    else if m str1 == m str2
    then rest
    else some (byte_difference m (str1 + 1) (str2 + 1))

-- `dst[n] = 0; return dst;`, after the loop.
abbrev pub terminate : Mem → ℕ → ℕ → Mem × ℕ
terminate m dst n = (store8 m (dst + n) 0, dst)

-- The loop runs while `n > 1`, and `n` falls in each round.
unfoldable pub strncpy : Mem → ℕ → ℕ → ℕ → Mem × ℕ
strncpy m dst src zero = terminate m dst 0
strncpy m dst src (suc k) =
    let rest = strncpy (store8 m dst (m src)) (dst + 1) (src + 1) k in
    if ltb 1 (suc k) && not (m src == 0) then rest else terminate m dst (suc k)

-- The inner loop of `strstr`: whether `match` is still true at its end.
unfoldable pub strstr_match : ℕ → Mem → ℕ → ℕ → Option Bool
strstr_match zero m text substring = none
strstr_match (suc fuel) m text substring =
    let rest = strstr_match fuel m (text + 1) (substring + 1) in
    if m substring == 0 || m text == 0
    then some true
    else if m text == m substring
    then rest
    else some false

-- The outer loop; 0 is NULL.
unfoldable pub strstr : ℕ → Mem → ℕ → ℕ → Option ℕ
strstr zero m str substring = none
strstr (suc fuel) m str substring =
    let rest = strstr fuel m (str + 1) substring in
    if m str == 0 then some 0 else elim (strstr_match (suc fuel) m str substring) [
      | none ↦ none
      | some true ↦ some str
      | some false ↦ rest
    ]
