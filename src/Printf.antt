-- ===== src/Printf.antt =====
-- The formatter of src/printf.c: `print`, `number`, `string`, `vsnprintf`, `printk` and `vprintk`.
-- Text is written to memory; what reaches the serial device is the list of its bytes. Variable
-- arguments are a list of u64 values, where a pointer is its address.
pub mod Number
pub mod Write
pub mod Literal
pub mod Emit
pub mod Items
pub mod Rounds
pub mod Render
pub mod Device
use lab.Memory.{Mem, store8}
use lab.Prelude.{
  ℕ, zero, suc, ◌+◌, ◌-◌, ◌*◌, ◌/◌, ◌%◌, ◌^◌, Bool, true, false, not, ◌&&◌, ◌||◌, Option, none,
  some, List, [], ◌∷◌, ltb, ◌==◌, if◌then◌else◌,
}

-- `while (*str != '\0') { putchar(*str); str++; }`, the bytes sent to the device.
unfoldable pub print : ℕ → Mem → ℕ → Option (List ℕ)
print zero m str = none
print (suc fuel) m str =
    let rest = print fuel m (str + 1) in
    if m str == 0 then some [] else (elim rest [ none ↦ none | some out ↦ some (m str ∷ out) ])

-- `digits[d]` of "0123456789abcdef".
unfoldable pub digit : ℕ → ℕ
digit d = if ltb d 10 then b'0' + d else b'a' + (d - 10)

-- The loop that fills `tmp`, the last digit first; the list has `i` elements at its end.
unfoldable pub fill_digits : ℕ → ℕ → ℕ → Option (List ℕ)
fill_digits zero number base = none
fill_digits (suc fuel) number base =
    let rest = fill_digits fuel (number / base) base in
    if number == 0
    then some []
    else (elim rest [ none ↦ none | some tmp ↦ some (digit (number % base) ∷ tmp) ])

unfoldable pub push_back : List ℕ → ℕ → List ℕ
push_back [] c = c ∷ []
push_back (x ∷ xs) c = x ∷ push_back xs c

-- The digits from `tmp[i - 1]` down to `tmp[0]`.
unfoldable pub backwards : List ℕ → List ℕ
unfolding push_back
backwards [] = []
backwards (x ∷ xs) = push_back (backwards xs) x

-- `while (i-- > 0 && --size > 0) *str++ = tmp[i];`; `size` wraps below 0.
unfoldable pub write_digits : Mem → ℕ → ℕ → List ℕ → Mem × ℕ
write_digits m str size [] = (m, str)
write_digits m str size (c ∷ cs) =
    let rest = write_digits (store8 m str c) (str + 1) ((size + 2 ^ 64 - 1) % 2 ^ 64) cs in
    if (size + 2 ^ 64 - 1) % 2 ^ 64 == 0 then (m, str) else rest

-- A u64 has at most 64 digits in any base from 2 on, so 65 rounds are enough.
unfoldable pub number : Mem → ℕ → ℕ → ℕ → ℕ → Option (Mem × ℕ)
number m str size value base =
    if value == 0 then some (store8 m str b'0', str + 1) else (elim (fill_digits 65 value base) [
      | none ↦ none
      | some tmp ↦ some (write_digits m str size (backwards tmp))
    ])

-- `while (size > 0 && *str != 0) …`; `size` falls in each round.
unfoldable pub string : Mem → ℕ → ℕ → ℕ → Mem × ℕ
string m buf zero str = (m, buf)
string m buf (suc size) str =
    let rest = string (store8 m buf (m str)) (buf + 1) size (str + 1) in
    if m str == 0 then (m, buf) else rest

pub data FmtState : Type 0 where
  fmt_state_none : FmtState
  fmt_state_percentage : FmtState
  -- never entered
  fmt_state_number : FmtState

-- The variables of the loop of `vsnprintf`.
pub record Fmt : Type 0 where
  pub mem : Mem
  pub fmt : ℕ
  pub state : FmtState
  pub str : ℕ
  pub args : List ℕ

pub data Formatted : Type 0 where
  formatted : Mem → Formatted
  -- `va_arg` without an argument left
  no_argument : Formatted
  out_of_fuel : Formatted

pub data Round : Type 0 where
  go_on : Fmt → Round
  stop : Formatted → Round

-- `*str++ = *fmt.str++`, or a `%`.
unfoldable pub plain_round : Fmt → Round
plain_round f =
    if f.mem f.fmt == b'%'
    then go_on (record f { fmt = f.fmt + 1; state = fmt_state_percentage })
    else go_on
        (record f { mem = store8 f.mem f.str (f.mem f.fmt); fmt = f.fmt + 1; str = f.str + 1 })

put_number : Fmt → List ℕ → Option (Mem × ℕ) → Round
put_number f args none = stop out_of_fuel
put_number f args (some (m, str)) =
    go_on (record f { mem = m; fmt = f.fmt + 1; state = fmt_state_none; str = str; args = args })

-- The conversion, with the space that is left.
conversion_round : ℕ → Fmt → List ℕ → Round
conversion_round remaining f [] =
    if f.mem f.fmt == b'd' || (f.mem f.fmt == b'x' || f.mem f.fmt == b's')
    then stop no_argument
    else go_on (record f { state = fmt_state_none })
conversion_round remaining f (n ∷ args) =
    if f.mem f.fmt == b'd'
    then put_number f args (number f.mem f.str remaining n 10)
    else if f.mem f.fmt == b'x'
    then put_number f args (number f.mem f.str remaining n 16)
    else if f.mem f.fmt == b's'
    then put_number f args (some (string f.mem f.str remaining n))
    else go_on (record f { state = fmt_state_none })

fmt_round : ℕ → FmtState → Fmt → Round
unfolding plain_round conversion_round put_number
fmt_round remaining fmt_state_none f = plain_round f
fmt_round remaining fmt_state_percentage f = conversion_round remaining f f.args
fmt_round remaining fmt_state_number f = go_on f

-- The loop; `size - (str - buf)` wraps.
unfoldable pub vsnprintf_loop : ℕ → ℕ → ℕ → Fmt → Formatted
unfolding fmt_round
vsnprintf_loop zero buf size f = out_of_fuel
vsnprintf_loop (suc fuel) buf size f =
    if f.mem f.fmt == 0 || not (ltb 1 size)
    then formatted (store8 f.mem f.str 0)
    else (elim (fmt_round ((size + 2 ^ 64 - (f.str - buf)) % 2 ^ 64) f.state f) [
      | stop r ↦ r
      | go_on f' ↦ vsnprintf_loop fuel buf size f'
    ])

unfoldable pub vsnprintf : ℕ → Mem → ℕ → ℕ → ℕ → List ℕ → Formatted
unfolding vsnprintf_loop
vsnprintf fuel m buf size fmt_str args =
    vsnprintf_loop fuel buf size
      (record { mem = m; fmt = fmt_str; state = fmt_state_none; str = buf; args = args })

-- The levels of include/kernel/printf.h that the repository sets.
abbrev pub log_info : ℕ
log_info = 3

abbrev pub log_debug : ℕ
log_debug = 4

-- On the static variable, which is `log_info` at boot.
abbrev pub printk_set_level : ℕ → ℕ → ℕ
printk_set_level level current_level = level

abbrev pub printk_buf_size : ℕ
printk_buf_size = 4096

pub data Printed : Type 0 where
  printed : Mem → List ℕ → Printed
  fault : Printed

unfoldable pub print_result : ℕ → ℕ → Formatted → Printed
print_result fuel g_buf (formatted m) = (elim (print fuel m g_buf) [
  | none ↦ fault
  | some out ↦ printed m out
])
print_result fuel g_buf no_argument = fault
print_result fuel g_buf out_of_fuel = fault

-- `printk` and `vprintk`: a message above the current level is dropped.
unfoldable pub vprintk : ℕ → ℕ → ℕ → Mem → ℕ → ℕ → List ℕ → Printed
unfolding vsnprintf print_result
vprintk fuel current_level g_buf m level fmt_str args =
    if ltb current_level level
    then printed m []
    else print_result fuel g_buf (vsnprintf fuel m g_buf printk_buf_size fmt_str args)
