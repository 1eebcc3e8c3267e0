-- ===== src/Stdio/Numerals.antt =====
-- The digits that `itoa` of lib/stdio.c writes, as a list, and what they are worth.
use mathlib.Core.Path.{ap₂}
use native.Mathlib.Nat.{mod-lt, div-add-mod', div-mul-le_self, mul-le-mul_left, pow-suc}
use goos.Prelude.{
  ℕ, zero, suc, ◌+◌, ◌-◌, ◌*◌, ◌/◌, ◌%◌, ◌^◌, ◌≤◌, ◌<◌, ◌≡◌, ◌≢◌, refl, sym, ap, ◌∙◌, arith, ◌==◌,
  eq→==, ne→==, if◌then◌else◌, ltb, List, [], ◌∷◌, ◌++◌, length, length-append, ok, ℕ_discrete,
}
use goos.Strings.{Bytes, poke}
use goos.Stdio.{char_of, itoa, digits_fuel}

-- A text put into the memory.
abbrev pub write : Bytes → (dst : ℕ) → List ℕ → Bytes
write mem dst [] = mem
write mem dst (x ∷ xs) = write (poke mem dst x) (dst + 1) xs

pub write_append :
    (mem : Bytes) (dst : ℕ) (xs ys : List ℕ)
    → write mem dst (xs ++ ys) ≡ write (write mem dst xs) (dst + length xs) ys
write_append mem dst [] ys = ap (λ a. write mem a ys) (omega arith)
write_append mem dst (x ∷ xs) ys =
    write_append (poke mem dst x) (dst + 1) xs ys
    ∙ ap (λ a. write (write (poke mem dst x) (dst + 1) xs) a ys) (omega arith)

-- What stands outside is kept.
pub write_outside :
    (mem : Bytes) (dst : ℕ) (xs : List ℕ) (a : ℕ) → a < dst → write mem dst xs a ≡ mem a
write_outside mem dst [] a h = refl
write_outside mem dst (x ∷ xs) a h =
    let off : a ≢ dst = omega arith in
    write_outside (poke mem dst x) (dst + 1) xs a (omega arith) ∙ rw (ne→== off) refl

-- The digits of a value, the highest first.
unfoldable pub numeral : (fuel base value : ℕ) → List ℕ
numeral zero base value = []
numeral (suc fuel) base value =
    let rest = numeral fuel base (value / base) in
    (if value / base == 0 then [] else rest) ++ ((value % base) ∷ [])

abbrev pub chars : List ℕ → List ℕ
chars [] = []
chars (d ∷ ds) = char_of d ∷ chars ds

chars_append : (xs ys : List ℕ) → chars (xs ++ ys) ≡ chars xs ++ chars ys
chars_append [] ys = refl
chars_append (x ∷ xs) ys = ap (λ r. char_of x ∷ r) (chars_append xs ys)

pub length-chars : (ds : List ℕ) → length (chars ds) ≡ length ds
length-chars [] = refl
length-chars (d ∷ ds) = ap suc (length-chars ds)

-- The value of a text of digits, of which `v` is the value of those before.
abbrev pub read_on : (base v : ℕ) → List ℕ → ℕ
read_on base v [] = v
read_on base v (d ∷ ds) = read_on base (v * base + d) ds

read_on_append :
    (base v : ℕ) (xs ys : List ℕ) → read_on base v (xs ++ ys) ≡ read_on base (read_on base v xs) ys
read_on_append base v [] ys = refl
read_on_append base v (x ∷ xs) ys = read_on_append base (v * base + x) xs ys

abbrev pub AllBelow : (base : ℕ) → List ℕ → Type 0
AllBelow base [] = Unit {0}
AllBelow base (d ∷ ds) = (d < base) × AllBelow base ds

AllBelow-last :
    (base d : ℕ) (ds : List ℕ) → AllBelow base ds → d < base → AllBelow base (ds ++ (d ∷ []))
AllBelow-last base d [] all h = (h, tt)
AllBelow-last base d (x ∷ ds) (p, all) h = (p, AllBelow-last base d ds all h)

-- A quotient by at least 2 has one binary digit less.
quotient_shrinks : (value base k : ℕ) → 1 < base → value < 2 ^ suc k → value / base < 2 ^ k
quotient_shrinks value base k two h =
    let q : value / base * base ≤ value = div-mul-le_self value base in
    let r : value / base * 2 ≤ value / base * base = mul-le-mul_left (value / base) two in
    omega (arith, q, r, pow-suc 2 k)

positive_fuel : (n q : ℕ) → q ≢ 0 → q < 2 ^ n → 0 < n
positive_fuel zero q ne h = absurd (omega arith)
positive_fuel (suc n) q ne h = omega arith

-- The digits of a value are below the base, and worth the value.
pub record IsNumeral (base value : ℕ) (ds : List ℕ) : Type 0 where
  pub worth : read_on base 0 ds ≡ value
  pub below : AllBelow base ds
  pub some_digit : 0 < length ds

pub numeral-IsNumeral :
    (fuel base value : ℕ)
    → 1 < base
    → value < 2 ^ fuel
    → 0 < fuel
    → IsNumeral base value (numeral fuel base value)
unfolding numeral
numeral-IsNumeral zero base value two h pos = absurd (omega arith)
numeral-IsNumeral (suc fuel) base value two h pos =
    let r : value % base < base = mod-lt value (omega arith) in
    let whole : value / base * base + value % base ≡ value = div-add-mod' value base in
    elim (ℕ_discrete (value / base) 0) [
      | yes e ↦ rw (eq→== e) (record {
        worth = ap (λ q. q * base + value % base) (sym e) ∙ whole;
        below = (r, tt);
        some_digit = omega arith;
      })
      | no ne ↦
          let small : value / base < 2 ^ fuel = quotient_shrinks value base fuel two h in
          let more : 0 < fuel = positive_fuel fuel (value / base) ne small in
          let ih = numeral-IsNumeral fuel base (value / base) two small more in
          let ds = numeral fuel base (value / base) in
          rw (ne→== ne) (record {
            worth =
                read_on_append base 0 ds ((value % base) ∷ [])
                ∙ ap (λ q. q * base + value % base) ih.worth
                ∙ whole;
            below = AllBelow-last base (value % base) ds ih.below r;
            some_digit = omega (arith, length-append ds ((value % base) ∷ []));
          })
    ]

pub itoa_writes :
    (fuel base value : ℕ)
    → 1 < base
    → value < 2 ^ fuel
    → 0 < fuel
    → (mem : Bytes) (dst : ℕ)
    → itoa fuel mem value dst base
      ≡ ok (dst + length (numeral fuel base value), write mem dst (chars (numeral fuel base value)))
unfolding itoa numeral
itoa_writes zero base value two h pos mem dst = absurd (omega arith)
itoa_writes (suc fuel) base value two h pos mem dst =
    let there : base ≢ 0 = omega arith in
    elim (ℕ_discrete (value / base) 0) [
      | yes e ↦ rw (ne→== there, eq→== e) refl
      | no ne ↦
          let small : value / base < 2 ^ fuel = quotient_shrinks value base fuel two h in
          let more : 0 < fuel = positive_fuel fuel (value / base) ne small in
          let ds = numeral fuel base (value / base) in
          let d = value % base in
          rw (ne→== there, ne→== ne)
            (rw (itoa_writes fuel base (value / base) two small more mem dst) (
              ap₂ (λ a w. ok (a, w)) (omega (arith, length-append ds (d ∷ [])))
                (sym (
                  ap (write mem dst) (chars_append ds (d ∷ []))
                  ∙ write_append mem dst (chars ds) (char_of d ∷ [])
                  ∙ ap (λ n. poke (write mem dst (chars ds)) (dst + n) (char_of d))
                      (length-chars ds)))))
    ]

-- What a character of a text of digits stands for.
abbrev pub digit_of : ℕ → ℕ
digit_of c = if ltb c 65 then c - 48 else c - 55

abbrev pub digits_of : List ℕ → List ℕ
digits_of [] = []
digits_of (c ∷ cs) = digit_of c ∷ digits_of cs

digit_of-char_of : (d : ℕ) → d < 36 → digit_of (char_of d) ≡ d
digit_of-char_of d h = ground arith

digits_of-chars :
    (base : ℕ) (ds : List ℕ) → base ≤ 36 → AllBelow base ds → digits_of (chars ds) ≡ ds
digits_of-chars base [] h all = refl
digits_of-chars base (d ∷ ds) h (p, all) =
    ap₂ (λ x xs. x ∷ xs) (digit_of-char_of d (omega arith)) (digits_of-chars base ds h all)

-- `itoa` of a value of 32 bits to a base from 2 to 36 returns; it writes at `dst` a text of at least one
-- digit and nothing else, and the pointer is then behind it. Read back, the characters are digits below
-- the base, and their number is the value.
pub itoa-IsNumeral :
    (base value : ℕ) (mem : Bytes) (dst : ℕ)
    → 1 < base
    → base ≤ 36
    → value < 2 ^ 32
    → (cs : List ℕ) × (itoa digits_fuel mem value dst base ≡ ok (dst + length cs, write mem dst cs))
      × IsNumeral base value (digits_of cs)
itoa-IsNumeral base value mem dst two most h =
    let ds = numeral digits_fuel base value in
    let w = numeral-IsNumeral digits_fuel base value two h (omega arith) in
    (
      chars ds,
      itoa_writes digits_fuel base value two h (omega arith) mem dst
          ∙ ap (λ n. ok (dst + n, write mem dst (chars ds))) (sym (length-chars ds)),
      rw (digits_of-chars base ds most w.below) w,
    )
