-- ===== src/Keyboard/Typing.antt =====
-- What the keyboard handler of device/keyboard.c puts into its ring.
use goos.Prelude.{
  ℕ, ◌<◌, ◌≡◌, refl, sym, ap, ◌∙◌, ◌≢◌, [], ◌∷◌, ◌++◌, Bool, true, false, arith, ok, ◌==◌, eq→==,
  ne→==, if◌then◌else◌, ℕ_discrete, length, ◌⊎◌, inl, inr, Bool-cases, bit_and, ltb, ltb→lt, dec_lt,
  get_or, get_elem?-eq-get_or,
}
use goos.Prelude.Table.{passes, test_of_passes}
use goos.Interrupt.{intr_off}
use goos.Thread.{Kernel}
use goos.Thread.Invariant.{IsSched}
use goos.IoQueue.{ioq_full}
use goos.IoQueue.Fifo.{IsValid, CanWake, contents, full_empty, ioq_putchar-Put}
use goos.Keyboard.{
  Keyboard, keymap, keymap_at, scancode_of, is_break, is_known, shifted, key_up, hold, type_char,
  key_down, intr_keyboard_handler, unknown_key,
}

-- Every known scan code has a row in the key map.
row_check : ℕ → Bool
row_check sc = ltb (bit_and sc 0xff) 59

row_table : passes row_check 59 ≡ true
unfolding row_check passes
row_table = refl

pub known_row : (sc : ℕ) → is_known sc ≡ true → bit_and sc 0xff < 59
unfolding row_check
known_row sc h = elim (dec_lt sc 59) [
  | yes lt ↦ ltb→lt _ _ (test_of_passes row_check 59 row_table sc lt)
  | no ge ↦ elim (ℕ_discrete sc 0xe038) [
    | yes e ↦ rw e (omega arith)
    | no n ↦ elim (ℕ_discrete sc 0xe01d) [
      | yes e ↦ rw e (omega arith)
      | no n' ↦ absurd (ground (arith, h))
    ]
  ]
]

unfoldable pub char_of : (i : ℕ) (s : Bool) → ℕ
char_of i s = if s then (get_or keymap i (0, 0)).1 else (get_or keymap i (0, 0)).0

pub keymap_at-char_of : (i : ℕ) (s : Bool) → i < 59 → keymap_at i s ≡ ok (char_of i s)
unfolding char_of
keymap_at-char_of i s lt = rw (keymap_at, get_elem?-eq-get_or keymap i (0, 0) (omega arith)) refl

hold_ring : (b : Keyboard) (c : ℕ) → (hold b c).kbd_buf ≡ b.kbd_buf
hold_ring b c = ground arith

key_up_ring : (b : Keyboard) (c : ℕ) → (key_up b c).kbd_buf ≡ b.kbd_buf
key_up_ring b c = ground arith

-- What a byte from the port has done: the ring takes up one character at most.
pub record Handled (k : Kernel) (b : Keyboard) (k' : Kernel) (b' : Keyboard) : Type 0 where
  pub sched : IsSched k'
  pub intr : k'.intr ≡ intr_off
  pub valid : IsValid b'.kbd_buf
  pub can_wake : CanWake k' b'.kbd_buf.consumer
  pub typed :
      (contents b'.kbd_buf ≡ contents b.kbd_buf)
      ⊎ ((c : ℕ) × (c ≢ 0) × (contents b'.kbd_buf ≡ contents b.kbd_buf ++ (c ∷ [])))

-- What pressing a key with the character `c` has done.
pub record Typed (k : Kernel) (b : Keyboard) (c : ℕ) (k' : Kernel) (b' : Keyboard) : Type 0 where
  pub handled : Handled k b k' b'
  pub bytes : contents b'.kbd_buf ≡ (
      if length (contents b.kbd_buf) == 63
      then contents b.kbd_buf
      else contents b.kbd_buf ++ (c ∷ []))
  pub others : b' ≡ record b { kbd_buf = b'.kbd_buf }

module _ {k : Kernel} (s : IsSched k) (off : k.intr ≡ intr_off) where
  same :
      (b b' : Keyboard)
      → b'.kbd_buf ≡ b.kbd_buf
      → IsValid b.kbd_buf
      → CanWake k b.kbd_buf.consumer
      → Handled k b k b'
  same b b' e v can = record {
    sched = s;
    intr = off;
    valid = rw e v;
    can_wake = rw e can;
    typed = inl (ap contents e);
  }

  off_full :
      (b : Keyboard)
      → IsValid b.kbd_buf
      → ioq_full k.intr b.kbd_buf ≡ ok (length (contents b.kbd_buf) == 63)
  off_full b v = rw off ((full_empty v).0)

  pub type_char-Typed :
      (b : Keyboard)
      → IsValid b.kbd_buf
      → CanWake k b.kbd_buf.consumer
      → (c : ℕ) → c ≢ 0
      → (k' : Kernel) × (b' : Keyboard) × (type_char k b c ≡ ok (k', b')) × Typed k b c k' b'
  unfolding type_char
  type_char-Typed b v can c some = elim (ioq_putchar-Put s off v c can) [
    | inl (at_end, e) ↦ (
      k,
      b,
      rw (off_full b v, eq→== at_end) refl,
      record { handled = same b b refl v can; bytes = rw (eq→== at_end) refl; others = refl },
    )
    | inr (room, (k', q, e, w)) ↦ (
      k',
      record b { kbd_buf = q },
      rw (off_full b v, ne→== room) (rw e refl),
      record {
        handled = record {
          sched = w.woken.sched;
          intr = w.woken.intr ∙ off;
          valid = w.valid;
          can_wake = inl w.consumer;
          typed = inr (c, some, w.bytes);
        };
        bytes = w.bytes ∙ sym (rw (ne→== room) refl);
        others = refl;
      },
    )
  ]

  key_down-Handled :
      (b : Keyboard)
      → IsValid b.kbd_buf
      → CanWake k b.kbd_buf.consumer
      → (sc : ℕ)
      → (k' : Kernel) × (b' : Keyboard) × (key_down k b sc ≡ ok (k', b')) × Handled k b k' b'
  unfolding key_down
  key_down-Handled b v can sc = elim (Bool-cases (is_known sc)) [
    | inr unknown ↦
        (k, record b { screen = unknown_key ∷ b.screen }, rw unknown refl, same b _ refl v can)
    | inl known ↦ elim (ℕ_discrete (char_of (bit_and sc 0xff) (shifted b sc)) 0) [
      | yes none ↦ (
        k,
        hold b (bit_and sc 0xff),
        rw
            (
              known,
              keymap_at-char_of (bit_and sc 0xff) (shifted b sc) (known_row sc known),
              eq→== none,
            )
            refl,
        same b _ (hold_ring b (bit_and sc 0xff)) v can,
      )
      | no some ↦
          let (k', b', e, w) = type_char-Typed b v can _ some in
          (
            k',
            b',
            rw
                (
                  known,
                  keymap_at-char_of (bit_and sc 0xff) (shifted b sc) (known_row sc known),
                  ne→== some,
                )
                e,
            w.handled,
          )
    ]
  ]

  -- Whatever byte the port holds, and with interrupts off, the keyboard handler returns: it neither
  -- waits for room in the ring, nor leaves the key map, nor stops at an assertion. The ring takes up
  -- one character at most, and the scheduler's data stay well formed.
  pub keyboard_handler-Handled :
      (b : Keyboard)
      → IsValid b.kbd_buf
      → CanWake k b.kbd_buf.consumer
      → (port : ℕ)
      → (k' : Kernel) × (b' : Keyboard) × (intr_keyboard_handler k b port ≡ ok (k', b'))
        × Handled k b k' b'
  unfolding intr_keyboard_handler
  keyboard_handler-Handled b v can port = elim (ℕ_discrete port 0xe0) [
    | yes prefix ↦
        (k, record b { ext_scancode = true }, rw (eq→== prefix) refl, same b _ refl v can)
    | no other ↦ elim (Bool-cases (is_break (scancode_of b.ext_scancode port))) [
      | inl up ↦ (
        k,
        key_up (record b { ext_scancode = false })
            (bit_and (scancode_of b.ext_scancode port) 0xff7f),
        rw (ne→== other, up) refl,
        same b _
            (key_up_ring (record b { ext_scancode = false })
              (bit_and (scancode_of b.ext_scancode port) 0xff7f))
            v can,
      )
      | inr down ↦
          let (k', b', e, w) =
            key_down-Handled (record b { ext_scancode = false }) v can
              (scancode_of b.ext_scancode port) in
          (
            k',
            b',
            rw (ne→== other, down) e,
            record {
              sched = w.sched;
              intr = w.intr;
              valid = w.valid;
              can_wake = w.can_wake;
              typed = w.typed;
            },
          )
    ]
  ]
