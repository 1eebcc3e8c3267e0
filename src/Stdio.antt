-- ===== src/Stdio.antt =====
-- lib/stdio.c over the memory of lib/string.c. The arguments behind the format are the words that
-- stand on the stack, in their order; to read more of them than there are is `fault`.
pub mod Numerals
pub mod Formats
use goos.Prelude.{
  ℕ, zero, suc, ◌+◌, ◌-◌, ◌/◌, ◌%◌, ◌^◌, Bool, not, List, [], ◌∷◌, Outcome, ok, fault, hang, ◌>>=◌,
  ◌>>◌, ltb, leb, ◌==◌, if◌then◌else◌,
}
use goos.Strings.{Bytes, poke, strcpy, strlen}

-- `m + '0'` or `m - 10 + 'A'`, as a byte.
abbrev pub char_of : (m : ℕ) → ℕ
char_of m = if ltb m 10 then (m + 48) % 2 ^ 8 else (m - 10 + 65) % 2 ^ 8

-- Where the text ends is the first part of the result. A base of 0 is a division by zero.
unfoldable pub itoa : (fuel : ℕ) → Bytes → (value buf_ptr base : ℕ) → Outcome (ℕ × Bytes)
itoa zero mem value buf_ptr base = hang
itoa (suc fuel) mem value buf_ptr base =
    let rest = itoa fuel mem (value / base) buf_ptr base in
    if base == 0 then fault else do
      (buf_ptr', mem') ← (if value / base == 0 then ok (buf_ptr, mem) else rest)
      ok (buf_ptr' + 1, poke mem' buf_ptr' (char_of (value % base)))

-- `va_arg`, with what is left.
abbrev pub va_arg : List ℕ → Outcome (ℕ × List ℕ)
va_arg [] = fault
va_arg (a ∷ ap) = ok (a, ap)

-- The memory, `dst` and `ap`.
pub record Output : Type 0 where
  pub mem : Bytes
  pub dst : ℕ
  pub ap : List ℕ

-- A value of 32 bits has at most 32 digits.
abbrev pub digits_fuel : ℕ
digits_fuel = 32

-- `-`, and then the value without its sign, if it has one.
unfoldable pub put_signed : Bytes → (dst arg_int : ℕ) → Outcome (ℕ × Bytes)
put_signed mem dst arg_int =
    if leb (2 ^ 31) arg_int
    then itoa digits_fuel (poke mem dst 45) ((2 ^ 32 - arg_int) % 2 ^ 32) (dst + 1) 10
    else itoa digits_fuel mem arg_int dst 10

-- The cases behind `%`: `x`, `s`, `c`, `d` and the rest.
unfoldable pub directive : (fuel : ℕ) → (ch : ℕ) → Output → Outcome Output
directive fuel ch o =
    if ch == 120
    then (do
      (arg_int, ap) ← va_arg o.ap
      (dst, mem) ← itoa digits_fuel o.mem arg_int o.dst 16
      ok (record { mem = mem; dst = dst; ap = ap }))
    else if ch == 115
    then (do
      (arg_str, ap) ← va_arg o.ap
      (_, mem) ← strcpy fuel o.mem o.dst arg_str
      n ← strlen fuel mem arg_str
      ok (record { mem = mem; dst = o.dst + n; ap = ap }))
    else if ch == 99
    then (do
      (arg, ap) ← va_arg o.ap
      ok (record { mem = poke o.mem o.dst (arg % 2 ^ 8); dst = o.dst + 1; ap = ap }))
    else if ch == 100
    then (do
      (arg_int, ap) ← va_arg o.ap
      (dst, mem) ← put_signed o.mem o.dst arg_int
      ok (record { mem = mem; dst = dst; ap = ap }))
    else ok o

-- The loop of `vsprintf`.
unfoldable pub format_from : (fuel : ℕ) → (src : ℕ) → Output → Outcome Output
format_from zero src o = hang
format_from (suc fuel) src o =
    let plain =
      format_from fuel (src + 1)
        (record { mem = poke o.mem o.dst (o.mem src); dst = o.dst + 1; ap = o.ap }) in
    if o.mem src == 0
    then ok o
    else if not (o.mem src == 37)
    then plain
    else (do o' ← directive fuel (o.mem (src + 1)) o; format_from fuel (src + 2) o')

unfoldable pub vsprintf : (fuel : ℕ) → Bytes → (str format : ℕ) → List ℕ → Outcome (ℕ × Bytes)
vsprintf fuel mem str format ap = do
  o ← format_from fuel format (record { mem = mem; dst = str; ap = ap })
  n ← strlen fuel o.mem str
  ok (n, o.mem)

-- `va_start` sets `ap` to the address of the format; the words behind it are the arguments.
abbrev pub sprintf : (fuel : ℕ) → Bytes → (buf format : ℕ) → List ℕ → Outcome (ℕ × Bytes)
sprintf fuel mem buf format args = vsprintf fuel mem buf format args
