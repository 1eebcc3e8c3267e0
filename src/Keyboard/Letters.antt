-- ===== src/Keyboard/Letters.antt =====
-- Which character the letters' keys of device/keyboard.c type.
use goos.Prelude.{
  ℕ, ◌-◌, ◌≤◌, ◌<◌, ◌≡◌, refl, sym, ap, ◌∙◌, ◌≢◌, List, [], ◌∷◌, ◌++◌, Bool, true, false, not, ◌&&◌,
  ◌||◌, arith, ok, ◌==◌, ne→==, ==_iff, if◌then◌else◌, length, bit_and, leb, leb→le, get_or,
}
use goos.Prelude.Table.{passes, test_of_passes}
use goos.Interrupt.{intr_off}
use goos.Thread.{Kernel}
use goos.Thread.Invariant.{IsSched}
use goos.IoQueue.Fifo.{IsValid, CanWake, contents}
use goos.Keyboard.{
  Keyboard, keymap, xor, is_break, is_known, has_two_chars, shifted, key_down,
  intr_keyboard_handler,
}
use goos.Keyboard.Typing.{char_of, known_row, keymap_at-char_of, type_char-Typed}

-- The three rows of letters.
abbrev pub is_letter : ℕ → Bool
is_letter code =
    (leb 0x10 code && leb code 0x19)
    || (leb 0x1e code && leb code 0x26)
    || (leb 0x2c code && leb code 0x32)

-- The letters on the keys of each row, by their ASCII codes: qwertyuiop, asdfghjkl, zxcvbnm.
abbrev top_row : List ℕ
top_row = 113 ∷ 119 ∷ 101 ∷ 114 ∷ 116 ∷ 121 ∷ 117 ∷ 105 ∷ 111 ∷ 112 ∷ []

abbrev home_row : List ℕ
home_row = 97 ∷ 115 ∷ 100 ∷ 102 ∷ 103 ∷ 104 ∷ 106 ∷ 107 ∷ 108 ∷ []

abbrev bottom_row : List ℕ
bottom_row = 122 ∷ 120 ∷ 99 ∷ 118 ∷ 98 ∷ 110 ∷ 109 ∷ []

-- The small letter of a key, by its row and its place in the row.
abbrev pub letter_of : ℕ → ℕ
letter_of code =
    if leb code 0x19
    then get_or top_row (code - 0x10) 0
    else if leb code 0x26
    then get_or home_row (code - 0x1e) 0
    else get_or bottom_row (code - 0x2c) 0

low : ℕ → ℕ
low code = (get_or keymap code (0, 0)).0

-- A test that every letter's code passes.
on_letters : (ℕ → Bool) → ℕ → Bool
on_letters test c = not (is_letter c) || test c

letter_test :
    (test : ℕ → Bool)
    → passes (on_letters test) 59 ≡ true
    → (c : ℕ) → is_letter c ≡ true
    → test c ≡ true
unfolding on_letters
letter_test test table c h =
    let small : c < 59 = ground (arith, h) in
    let t = test_of_passes (on_letters test) 59 table c small in ground (arith, t, h)

-- What the tables say of a letter's key.
record Letter (c : ℕ) : Type 0 where
  other : c ≢ 0xe0
  make : is_break c ≡ false
  known : is_known c ≡ true
  index : bit_and c 0xff ≡ c
  one_char : has_two_chars c ≡ false
  named : low c ≡ letter_of c
  lower : (97 ≤ low c) × (low c ≤ 122)
  upper : (get_or keymap c (0, 0)).1 ≡ low c - 32

not-true : (b : Bool) → not b ≡ true → b ≡ false
not-true true h = cc
not-true false h = refl

Letter-of_code : (c : ℕ) → is_letter c ≡ true → Letter c
unfolding passes on_letters low
Letter-of_code c h = record {
  other = ground (arith, h);
  make = not-true _ (letter_test (λ c. not (is_break c)) refl c h);
  known = letter_test is_known refl c h;
  index = (==_iff _ _).0 (letter_test (λ c. bit_and c 0xff == c) refl c h);
  one_char = not-true _ (letter_test (λ c. not (has_two_chars c)) refl c h);
  named = (==_iff _ _).0 (letter_test (λ c. low c == letter_of c) refl c h);
  lower = (
    leb→le _ _ (letter_test (λ c. leb 97 (low c)) refl c h),
    leb→le _ _ (letter_test (λ c. leb (low c) 122) refl c h),
  );
  upper = (==_iff _ _).0 (letter_test (λ c. (get_or keymap c (0, 0)).1 == low c - 32) refl c h);
}

-- The case of a letter: shift and caps lock turn each other off.
char_of-Letter :
    (b : Keyboard) (c : ℕ)
    → Letter c
    → char_of (bit_and c 0xff) (shifted b c)
      ≡ (if xor b.shift_status b.caps_lock_status then low c - 32 else low c)
unfolding char_of low
char_of-Letter b c l = rw (l.index, l.one_char) (rw l.upper refl)

Letter-nonzero : (up : Bool) {c : ℕ} → Letter c → (if up then low c - 32 else low c) ≢ 0
Letter-nonzero true l e = absurd (omega (arith, l.lower.0, e))
Letter-nonzero false l e = absurd (omega (arith, l.lower.0, e))

module _ {k : Kernel} (s : IsSched k) (off : k.intr ≡ intr_off) where
  -- With room in the ring and no prefix before it, the make code of a letter types the letter that
  -- the rows of the keyboard have at that place: the capital, 32 below the small letter, when either
  -- shift is down or caps lock is on, and not both; else the small one.
  pub letter-Typed :
      (b : Keyboard)
      → IsValid b.kbd_buf
      → CanWake k b.kbd_buf.consumer
      → b.ext_scancode ≡ false
      → length (contents b.kbd_buf) ≢ 63
      → (code : ℕ) → is_letter code ≡ true
      → (k' : Kernel) × (b' : Keyboard) × (intr_keyboard_handler k b code ≡ ok (k', b'))
        × (contents b'.kbd_buf
            ≡ contents b.kbd_buf
              ++ ((if xor b.shift_status b.caps_lock_status
                    then letter_of code - 32
                    else letter_of code)
                  ∷ []))
  unfolding intr_keyboard_handler key_down
  letter-Typed b v can no_ext room code h =
      let l = Letter-of_code code h in
      let b₀ : Keyboard = record b { ext_scancode = false } in
      let e₀ = char_of-Letter b₀ code l in
      let some : char_of (bit_and code 0xff) (shifted b₀ code) ≢ 0 =
        λ z. Letter-nonzero (xor b.shift_status b.caps_lock_status) l (sym e₀ ∙ z) in
      let (k', b', e, w) = type_char-Typed s off b₀ v can _ some in
      (
        k',
        b',
        rw
            (
              ne→== l.other,
              no_ext,
              l.make,
              l.known,
              keymap_at-char_of (bit_and code 0xff) (shifted b₀ code) (known_row code l.known),
              ne→== some,
            )
            e,
        w.bytes
            ∙ rw (ne→== room) (ap (λ c. contents b.kbd_buf ++ (c ∷ [])) e₀)
            ∙ ap
                (λ c.
                  contents b.kbd_buf
                  ++ ((if xor b.shift_status b.caps_lock_status then c - 32 else c) ∷ []))
                l.named,
      )
