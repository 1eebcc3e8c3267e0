-- ===== src/Tests/Formats.antt =====
-- The formatted output of lib/stdio.c at one format.
use goos.Prelude.{ℕ, ◌+◌, ◌≡◌, refl, arith, ok, List, [], ◌∷◌, length, ◌==◌, if◌then◌else◌}
use goos.Strings.{Bytes}
use goos.Stdio.{itoa, digits_fuel, vsprintf}
use goos.Stdio.Numerals.{numeral, write, digits_of, IsNumeral, itoa-IsNumeral}
use goos.Stdio.Formats.{NoneZero, Piece, byte, hex, decimal, FormatAt, render, vsprintf-render}

-- `a%x=%d` at 0x10, and zeros.
abbrev memory : Bytes
memory a =
    if a == 0x10
    then 97
    else if a == 0x11
    then 37
    else if a == 0x12
    then 120
    else if a == 0x13
    then 61
    else if a == 0x14
    then 37
    else if a == 0x15
    then 100
    else 0

abbrev pieces : List Piece
pieces = byte 97 ∷ hex ∷ byte 61 ∷ decimal ∷ []

format-FormatAt : FormatAt memory 0x10 pieces
format-FormatAt = (
  (refl, omega arith, omega arith),
  ((refl, refl), ((refl, omega arith, omega arith), ((refl, refl), refl))),
)

itoa-IsNumeral_example :
    (cs : List ℕ) × (itoa digits_fuel memory 0xbeef 0x40 16
      ≡ ok (0x40 + length cs, write memory 0x40 cs))
    × IsNumeral 16 0xbeef (digits_of cs)
itoa-IsNumeral_example =
    itoa-IsNumeral 16 0xbeef memory 0x40 (omega arith) (omega arith) (omega arith)

-- `a%x=%d` with 255 and -10 gives `aFF=-10`.
rendered : render pieces (255 ∷ 0xfffffff6 ∷ []) ≡ 97 ∷ 70 ∷ 70 ∷ 61 ∷ 45 ∷ 49 ∷ 48 ∷ []
unfolding numeral
rendered = refl

none_zero : NoneZero (render pieces (255 ∷ 0xfffffff6 ∷ []))
unfolding numeral
none_zero = (
  omega arith,
  (omega arith, (omega arith, (omega arith, (omega arith, (omega arith, (omega arith, tt)))))),
)

vsprintf-render_example :
    vsprintf 20 memory 0x40 0x10 (255 ∷ 0xfffffff6 ∷ [])
    ≡ ok (
      length (render pieces (255 ∷ 0xfffffff6 ∷ [])),
      write memory 0x40 (render pieces (255 ∷ 0xfffffff6 ∷ [])),
    )
unfolding numeral
vsprintf-render_example =
    vsprintf-render pieces 20 0x40 0x10 memory (255 ∷ 0xfffffff6 ∷ []) format-FormatAt (omega arith)
      (tt, (omega arith, (tt, (omega arith, tt)))) (omega arith) (omega arith) none_zero refl
