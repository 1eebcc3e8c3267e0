-- ===== src/Stdio/Formats.antt =====
-- `vsprintf` of lib/stdio.c against a description of its output: the text of each piece of the format.
-- The pieces are single bytes, `%x`, `%d` and `%c`.
use mathlib.Core.Path.{ap₂}
use goos.Prelude.{
  ℕ, zero, suc, false, ◌+◌, ◌-◌, ◌%◌, ◌^◌, ◌≤◌, ◌<◌, ◌≡◌, ◌≢◌, refl, sym, ap, ◌∙◌, arith, ne→==,
  eq→==, if◌then◌else◌, leb, List, [], ◌∷◌, ◌++◌, length, length-append, ok, dec_lt, le→leb,
}
use goos.Strings.{Bytes, poke}
use goos.Strings.Scans.{IsString, strlen-length}
use goos.Stdio.{Output, itoa, digits_fuel, put_signed, directive, format_from, vsprintf}
use goos.Stdio.Numerals.{
  write, write_append, write_outside, numeral, chars, length-chars, itoa_writes,
}

pub data Piece : Type 0 where
  byte : (c : ℕ) → Piece
  hex decimal char : Piece

abbrev pub size : Piece → ℕ
size (byte c) = 1
size p = 2

abbrev pub sizes : List Piece → ℕ
sizes [] = 0
sizes (p ∷ ps) = size p + sizes ps

-- The piece stands in the memory.
abbrev pub PieceAt : Bytes → (src : ℕ) → Piece → Type 0
PieceAt mem src (byte c) = (mem src ≡ c) × (c ≢ 0) × (c ≢ 37)
PieceAt mem src hex = (mem src ≡ 37) × (mem (src + 1) ≡ 120)
PieceAt mem src decimal = (mem src ≡ 37) × (mem (src + 1) ≡ 100)
PieceAt mem src char = (mem src ≡ 37) × (mem (src + 1) ≡ 99)

abbrev pub FormatAt : Bytes → (src : ℕ) → List Piece → Type 0
FormatAt mem src [] = mem src ≡ 0
FormatAt mem src (p ∷ ps) = PieceAt mem src p × FormatAt mem (src + size p) ps

-- The text of an argument of 32 bits with its sign.
abbrev pub signed : ℕ → List ℕ
signed a =
    if leb (2 ^ 31) a
    then 45 ∷ chars (numeral digits_fuel 10 ((2 ^ 32 - a) % 2 ^ 32))
    else chars (numeral digits_fuel 10 a)

abbrev pub text : Piece → List ℕ → List ℕ
text (byte c) args = c ∷ []
text p [] = []
text hex (a ∷ args) = chars (numeral digits_fuel 16 a)
text decimal (a ∷ args) = signed a
text char (a ∷ args) = (a % 2 ^ 8) ∷ []

abbrev pub left : Piece → List ℕ → List ℕ
left (byte c) args = args
left p [] = []
left p (a ∷ args) = args

-- There is an argument of 32 bits for the piece.
abbrev pub HasArg : Piece → List ℕ → Type 0
HasArg (byte c) args = Unit {0}
HasArg p [] = ⊥
HasArg p (a ∷ args) = a < 2 ^ 32

abbrev pub HasArgs : List Piece → List ℕ → Type 0
HasArgs [] args = Unit {0}
HasArgs (p ∷ ps) args = HasArg p args × HasArgs ps (left p args)

abbrev pub render : List Piece → List ℕ → List ℕ
render [] args = []
render (p ∷ ps) args = text p args ++ render ps (left p args)

abbrev pub left_over : List Piece → List ℕ → List ℕ
left_over [] args = args
left_over (p ∷ ps) args = left_over ps (left p args)

-- The output when a text has been written.
abbrev pub written : Bytes → (dst : ℕ) → (xs args : List ℕ) → Output
written mem dst xs args = record { mem = write mem dst xs; dst = dst + length xs; ap = args }

itoa_text :
    (base value : ℕ)
    → 1 < base
    → value < 2 ^ 32
    → (mem : Bytes) (dst : ℕ)
    → itoa digits_fuel mem value dst base
      ≡ ok (
        dst + length (chars (numeral digits_fuel base value)),
        write mem dst (chars (numeral digits_fuel base value)),
      )
itoa_text base value two h mem dst =
    itoa_writes digits_fuel base value two h (omega arith) mem dst
    ∙ ap (λ n. ok (dst + n, write mem dst (chars (numeral digits_fuel base value))))
        (sym (length-chars (numeral digits_fuel base value)))

put_signed_text :
    (a : ℕ)
    → a < 2 ^ 32
    → (mem : Bytes) (dst : ℕ)
    → put_signed mem dst a ≡ ok (dst + length (signed a), write mem dst (signed a))
unfolding put_signed
put_signed_text a h mem dst = elim (dec_lt a (2 ^ 31)) [
  | yes low ↦
      let plus : leb (2 ^ 31) a ≡ false = ground (arith, low) in
      rw plus (itoa_text 10 a (omega arith) h mem dst)
  | no high ↦
      let t = chars (numeral digits_fuel 10 ((2 ^ 32 - a) % 2 ^ 32)) in
      rw (le→leb (2 ^ 31) a (omega (arith, high))) (
        itoa_text 10 ((2 ^ 32 - a) % 2 ^ 32) (omega arith) (omega arith) (poke mem dst 45) (dst + 1)
        ∙ ap (λ n. ok (n, write (poke mem dst 45) (dst + 1) t)) (omega arith))
]

-- One round of the loop writes the text of a piece.
piece_round :
    (fuel src dst : ℕ) (mem : Bytes) (p : Piece) (args : List ℕ)
    → PieceAt mem src p
    → HasArg p args
    → format_from (suc fuel) src (record { mem = mem; dst = dst; ap = args })
      ≡ format_from fuel (src + size p) (written mem dst (text p args) (left p args))
unfolding format_from directive
piece_round fuel src dst mem (byte c) args (e, ne, plain) h = rw (e, ne→== ne, ne→== plain) refl
piece_round fuel src dst mem hex (a ∷ args) (e, e') h =
    rw (e, e', itoa_text 16 a (omega arith) h mem dst) refl
piece_round fuel src dst mem decimal (a ∷ args) (e, e') h =
    rw (e, e', put_signed_text a h mem dst) refl
piece_round fuel src dst mem char (a ∷ args) (e, e') h = rw (e, e') refl
piece_round fuel src dst mem hex [] w h = absurd h
piece_round fuel src dst mem decimal [] w h = absurd h
piece_round fuel src dst mem char [] w h = absurd h

-- A format below the buffer stays as it is.
PieceAt-write :
    (mem : Bytes) (src dst : ℕ) (p : Piece) (xs : List ℕ)
    → src + size p ≤ dst
    → PieceAt mem src p
    → PieceAt (write mem dst xs) src p
PieceAt-write mem src dst (byte c) xs h (e, ne, plain) =
    (write_outside mem dst xs src (omega arith) ∙ e, ne, plain)
PieceAt-write mem src dst hex xs h (e, e') = (
  write_outside mem dst xs src (omega arith) ∙ e,
  write_outside mem dst xs (src + 1) (omega arith) ∙ e',
)
PieceAt-write mem src dst decimal xs h (e, e') = (
  write_outside mem dst xs src (omega arith) ∙ e,
  write_outside mem dst xs (src + 1) (omega arith) ∙ e',
)
PieceAt-write mem src dst char xs h (e, e') = (
  write_outside mem dst xs src (omega arith) ∙ e,
  write_outside mem dst xs (src + 1) (omega arith) ∙ e',
)

FormatAt-write :
    (mem : Bytes) (src dst : ℕ) (ps : List Piece) (xs : List ℕ)
    → src + sizes ps < dst
    → FormatAt mem src ps
    → FormatAt (write mem dst xs) src ps
FormatAt-write mem src dst [] xs h e = write_outside mem dst xs src (omega arith) ∙ e
FormatAt-write mem src dst (p ∷ ps) xs h (w, rest) = (
  PieceAt-write mem src dst p xs (omega arith) w,
  FormatAt-write mem (src + size p) dst ps xs (omega arith) rest,
)

pub format_from-render :
    (ps : List Piece) (fuel src dst : ℕ) (mem : Bytes) (args : List ℕ)
    → FormatAt mem src ps
    → src + sizes ps < dst
    → HasArgs ps args
    → length ps < fuel
    → format_from fuel src (record { mem = mem; dst = dst; ap = args })
      ≡ ok (written mem dst (render ps args) (left_over ps args))
unfolding format_from
format_from-render [] zero src dst mem args w below h enough = absurd (omega arith)
format_from-render [] (suc fuel) src dst mem args w below h enough =
    rw w (ap (λ d. ok (record { mem = mem; dst = d; ap = args })) (omega arith))
format_from-render (p ∷ ps) zero src dst mem args w below h enough = absurd (omega arith)
format_from-render (p ∷ ps) (suc fuel) src dst mem args (w, rest) below (h, hs) enough =
    let t = text p args in
    let r = render ps (left p args) in
    piece_round fuel src dst mem p args w h
    ∙ format_from-render ps fuel (src + size p) (dst + length t) (write mem dst t) (left p args)
        (FormatAt-write mem (src + size p) dst ps t (omega arith) rest) (omega arith) hs
        (omega arith)
    ∙ ap₂ (λ (m : Bytes) (n : ℕ). ok (record { mem = m; dst = n; ap = left_over ps (left p args) }))
        (sym (write_append mem dst t r)) (omega (arith, length-append t r))

abbrev pub NoneZero : List ℕ → Type 0
NoneZero [] = Unit {0}
NoneZero (x ∷ xs) = (x ≢ 0) × NoneZero xs

-- A text before a zero is a string.
write-IsString :
    (mem : Bytes) (dst : ℕ) (xs : List ℕ)
    → NoneZero xs
    → mem (dst + length xs) ≡ 0
    → IsString (write mem dst xs) dst xs
write-IsString mem dst [] none e = ap mem (omega arith) ∙ e
write-IsString mem dst (x ∷ xs) (ne, none) e =
    let off : dst + 1 + length xs ≢ dst = omega arith in
    let behind : poke mem dst x (dst + 1 + length xs) ≡ 0 =
      rw (ne→== off) (ap mem (omega arith) ∙ e) in
    (
      write_outside (poke mem dst x) (dst + 1) xs dst (omega arith)
          ∙ rw (eq→== {a = dst} refl) refl,
      ne,
      write-IsString (poke mem dst x) (dst + 1) xs none behind,
    )

-- For a format of bytes, `%x`, `%d` and `%c` that ends below the buffer, with an argument of 32 bits
-- for each directive, `vsprintf` returns, if it has more rounds than the format has pieces and the text
-- has bytes, and if the buffer holds a zero just behind the text, which has none. It has then written
-- the texts of the pieces one after the other, without a terminator, and returns their length.
pub vsprintf-render :
    (ps : List Piece) (fuel str format : ℕ) (mem : Bytes) (args : List ℕ)
    → FormatAt mem format ps
    → format + sizes ps < str
    → HasArgs ps args
    → length ps < fuel
    → length (render ps args) < fuel
    → NoneZero (render ps args)
    → mem (str + length (render ps args)) ≡ 0
    → vsprintf fuel mem str format args
      ≡ ok (length (render ps args), write mem str (render ps args))
unfolding vsprintf
vsprintf-render ps fuel str format mem args w below h enough room none zero_behind =
    let out = render ps args in
    let string = write-IsString mem str out none zero_behind in
    rw (format_from-render ps fuel format str mem args w below h enough)
      (rw (strlen-length (write mem str out) out fuel str string (omega (arith, below)) room) refl)
