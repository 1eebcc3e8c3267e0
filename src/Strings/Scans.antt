-- ===== src/Strings/Scans.antt =====
-- The routines of lib/string.c on strings that end with a zero byte.
use goos.Prelude.{
  ℕ, zero, suc, ◌+◌, ◌≤◌, ◌<◌, ◌≡◌, ◌≢◌, refl, sym, ap, ◌∙◌, false, arith, ok, List, [], ◌∷◌,
  length, ◌==◌, ne→==, eq→==, if◌then◌else◌,
}
use goos.Strings.{Bytes, char_is, end_of, strlen, count_char, strchrs}

-- The bytes `xs`, none of them 0, and a 0 behind them stand at `p`.
abbrev pub IsString : Bytes → (p : ℕ) → List ℕ → Type 0
IsString m p [] = m p ≡ 0
IsString m p (x ∷ xs) = (m p ≡ x) × (x ≢ 0) × IsString m (p + 1) xs

end_of_lem :
    (m : Bytes) (xs : List ℕ) (fuel p : ℕ)
    → IsString m p xs
    → length xs < fuel
    → end_of fuel m p ≡ ok (p + length xs)
unfolding end_of
end_of_lem m xs zero p s h = elim h [ ]
end_of_lem m [] (suc fuel) p s h = rw (eq→== s) (ap ok (omega arith))
end_of_lem m (x ∷ xs) (suc fuel) p (e, ne, s) h =
    rw (ne→== (λ z. ne (sym e ∙ z)))
      (end_of_lem m xs fuel (p + 1) s (omega arith) ∙ ap ok (omega arith))

-- `strlen` ends within one round more than the string has bytes, and returns their number.
pub strlen-length :
    (m : Bytes) (xs : List ℕ) (fuel str : ℕ)
    → IsString m str xs
    → str ≢ 0
    → length xs < fuel
    → strlen fuel m str ≡ ok (length xs)
unfolding strlen
strlen-length m xs fuel str s ne h =
    rw (ne→== ne, end_of_lem m xs fuel str s h) (ap ok (omega arith))

-- How often `ch` is among the bytes, by an independent count.
abbrev pub occurrences : List ℕ → (ch : ℕ) → ℕ
occurrences [] ch = 0
occurrences (x ∷ xs) ch = (if x == ch then 1 else 0) + occurrences xs ch

char_is-== : (x ch : ℕ) → ch < 0x80 → char_is x ch ≡ (x == ch)
char_is-== x ch h = ground arith

count_char_lem :
    (m : Bytes) (ch : ℕ)
    → ch < 0x80
    → (xs : List ℕ) (fuel p cnt : ℕ) → IsString m p xs
    → length xs < fuel
    → count_char fuel m p ch cnt ≡ ok (cnt + occurrences xs ch)
unfolding count_char
count_char_lem m ch ascii xs zero p cnt s h = elim h [ ]
count_char_lem m ch ascii [] (suc fuel) p cnt s h = rw (eq→== s) (ap ok (omega arith))
count_char_lem m ch ascii (x ∷ xs) (suc fuel) p cnt (e, ne, s) h =
    rw (ne→== (λ z. ne (sym e ∙ z)), char_is-== (m p) ch ascii)
      (count_char_lem m ch ascii xs fuel (p + 1) _ s (omega arith) ∙ ap ok (ground (arith, e)))

-- For an ASCII character `strchrs` ends within one round more than the string has bytes, and returns
-- how often the character is among them.
pub strchrs-occurrences :
    (m : Bytes) (ch : ℕ)
    → ch < 0x80
    → (xs : List ℕ) (fuel str : ℕ) → IsString m str xs
    → str ≢ 0
    → length xs < fuel
    → strchrs fuel m str ch ≡ ok (occurrences xs ch)
unfolding strchrs
strchrs-occurrences m ch ascii xs fuel str s ne h =
    rw (ne→== ne) (count_char_lem m ch ascii xs fuel str 0 s h ∙ ap ok (omega arith))

count_char_negative :
    (m : Bytes) (ch : ℕ)
    → 0x80 ≤ ch
    → (xs : List ℕ) (fuel p cnt : ℕ) → IsString m p xs
    → length xs < fuel
    → count_char fuel m p ch cnt ≡ ok cnt
unfolding count_char
count_char_negative m ch high xs zero p cnt s h = elim h [ ]
count_char_negative m ch high [] (suc fuel) p cnt s h = rw (eq→== s) refl
count_char_negative m ch high (x ∷ xs) (suc fuel) p cnt (e, ne, s) h =
    let never : char_is (m p) ch ≡ false = ground arith in
    rw (ne→== (λ z. ne (sym e ∙ z)), never)
      (count_char_negative m ch high xs fuel (p + 1) cnt s (omega arith))

-- For a byte from 0x80 on `strchrs` returns 0, whatever the string holds: its bytes are compared as
-- signed characters.
pub strchrs_negative :
    (m : Bytes) (ch : ℕ)
    → 0x80 ≤ ch
    → (xs : List ℕ) (fuel str : ℕ) → IsString m str xs
    → str ≢ 0
    → length xs < fuel
    → strchrs fuel m str ch ≡ ok 0
unfolding strchrs
strchrs_negative m ch high xs fuel str s ne h =
    rw (ne→== ne) (count_char_negative m ch high xs fuel str 0 s h)
