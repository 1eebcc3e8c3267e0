-- ===== src/Keyboard/Release.antt =====
-- The modifier keys of device/keyboard.c, and keys that are let go.
use goos.Prelude.{
  ℕ, ◌+◌, ◌∙◌, not, ◌≤◌, ◌<◌, ◌≡◌, refl, ◌≢◌, List, [], ◌∷◌, Bool, true, false, ◌||◌, arith, ok,
  ne→==, bit_and, ltb,
}
use goos.Prelude.Table.{passes, test_of_passes}
use goos.Thread.{Kernel}
use goos.IoQueue.{Ioqueue}
use goos.Keyboard.{
  Keyboard, scancode_of, is_break, key_up, key_down, intr_keyboard_handler, keys, Message,
}

high_bit : (ext : Bool) → ℕ → Bool
high_bit ext port = ltb port 0x80 || is_break (scancode_of ext port)

high_table : (ext : Bool) → passes (high_bit ext) 0x100 ≡ true
unfolding passes high_bit
high_table true = refl
high_table false = refl

release_is_break :
    (ext : Bool) (port : ℕ) → 0x80 ≤ port → port < 0x100 → is_break (scancode_of ext port) ≡ true
unfolding high_bit
release_is_break ext port high byte =
    let t = test_of_passes (high_bit ext) 0x100 (high_table ext) port byte in
    let h : ltb port 0x80 ≡ false = ground arith in ground (arith, t, h)

-- The byte of a key that is let go, other than the prefix: it leaves the ring, the screen, caps lock
-- and the tasks as they are, and presses no key.
pub release_quiet :
    (k : Kernel) (b : Keyboard) (port : ℕ)
    → 0x80 ≤ port
    → port < 0x100
    → port ≢ 0xe0
    → (b' : Keyboard) × (intr_keyboard_handler k b port ≡ ok (k, b'))
      × (b'.kbd_buf ≡ b.kbd_buf)
      × (b'.screen ≡ b.screen)
      × (b'.caps_lock_status ≡ b.caps_lock_status)
      × (b'.ext_scancode ≡ false)
      × (b.shift_status ≡ false → b'.shift_status ≡ false)
      × (b.ctrl_status ≡ false → b'.ctrl_status ≡ false)
      × (b.alt_status ≡ false → b'.alt_status ≡ false)
unfolding intr_keyboard_handler
release_quiet k b port high byte other = (
  key_up (record b { ext_scancode = false }) (bit_and (scancode_of b.ext_scancode port) 0xff7f),
  rw (ne→== other, release_is_break b.ext_scancode port high byte) refl,
  ground arith,
  ground arith,
  ground arith,
  ground arith,
  λ h. ground (arith, h),
  λ h. ground (arith, h),
  λ h. ground (arith, h),
)

-- A keyboard without a pending prefix.
abbrev pub keyboard : Ioqueue → List Message → (ctrl shift alt caps : Bool) → Keyboard
keyboard q screen ctrl shift alt caps = record {
  ctrl_status = ctrl;
  shift_status = shift;
  alt_status = alt;
  caps_lock_status = caps;
  ext_scancode = false;
  kbd_buf = q;
  screen = screen;
}

-- The keys that type nothing.
pub data Modifier : Type 0 where
  shift_left shift_right ctrl_left ctrl_right alt_left alt_right caps_lock : Modifier

-- What happens to a key.
pub data KeyEvent : Type 0 where
  pressed released : Modifier → KeyEvent

-- The bytes that the keyboard sends for it, by scan code set 1: the code of the key, 0x80 more when
-- it is let go, behind 0xe0 for the right ctrl and alt.
abbrev pub code_of : Modifier → ℕ
code_of shift_left = 0x2a
code_of shift_right = 0x36
code_of ctrl_left = 0x1d
code_of ctrl_right = 0x1d
code_of alt_left = 0x38
code_of alt_right = 0x38
code_of caps_lock = 0x3a

abbrev pub prefixed : Modifier → List ℕ → List ℕ
prefixed ctrl_right bytes = 0xe0 ∷ bytes
prefixed alt_right bytes = 0xe0 ∷ bytes
prefixed _ bytes = bytes

abbrev pub bytes_of : List KeyEvent → List ℕ
bytes_of [] = []
bytes_of (pressed m ∷ es) = prefixed m (code_of m ∷ bytes_of es)
bytes_of (released m ∷ es) = prefixed m ((code_of m + 0x80) ∷ bytes_of es)

-- Which of them are on.
pub record Flags : Type 0 where
  pub ctrl : Bool
  pub shift : Bool
  pub alt : Bool
  pub caps : Bool

-- A key of either side turns its flag on while it is down; caps lock turns over when it is pressed.
abbrev pub flags_after : Flags → KeyEvent → Flags
flags_after f (pressed shift_left) = record f { shift = true }
flags_after f (pressed shift_right) = record f { shift = true }
flags_after f (pressed ctrl_left) = record f { ctrl = true }
flags_after f (pressed ctrl_right) = record f { ctrl = true }
flags_after f (pressed alt_left) = record f { alt = true }
flags_after f (pressed alt_right) = record f { alt = true }
flags_after f (pressed caps_lock) = record f { caps = not f.caps }
flags_after f (released shift_left) = record f { shift = false }
flags_after f (released shift_right) = record f { shift = false }
flags_after f (released ctrl_left) = record f { ctrl = false }
flags_after f (released ctrl_right) = record f { ctrl = false }
flags_after f (released alt_left) = record f { alt = false }
flags_after f (released alt_right) = record f { alt = false }
flags_after f (released caps_lock) = f

abbrev pub flags_after_all : Flags → List KeyEvent → Flags
flags_after_all f [] = f
flags_after_all f (e ∷ es) = flags_after_all (flags_after f e) es

abbrev pub with_flags : Ioqueue → List Message → Flags → Keyboard
with_flags q screen f = keyboard q screen f.ctrl f.shift f.alt f.caps

module _ (k : Kernel) (q : Ioqueue) (screen : List Message) (rest : List ℕ) where
  -- A key that is let go, before the bytes `rest`.
  keys-released :
      (m : Modifier) (f : Flags)
      → keys k (with_flags q screen f) (prefixed m ((code_of m + 0x80) ∷ rest))
        ≡ keys k (with_flags q screen (flags_after f (released m))) rest
  unfolding keys intr_keyboard_handler
  keys-released shift_left f = refl
  keys-released shift_right f = refl
  keys-released ctrl_left f = refl
  keys-released ctrl_right f = refl
  keys-released alt_left f = refl
  keys-released alt_right f = refl
  keys-released caps_lock f = refl

  -- A key that is pressed, whatever the case of a letter would be.
  keys-pressed :
      (m : Modifier) (ctrl shift alt caps : Bool)
      → keys k (keyboard q screen ctrl shift alt caps) (prefixed m (code_of m ∷ rest))
        ≡ keys k
            (with_flags q screen (
              flags_after
                (record { ctrl = ctrl; shift = shift; alt = alt; caps = caps })
                (pressed m)))
            rest
  unfolding keys intr_keyboard_handler key_down
  keys-pressed shift_left ctrl false alt false = refl
  keys-pressed shift_left ctrl false alt true = refl
  keys-pressed shift_left ctrl true alt false = refl
  keys-pressed shift_left ctrl true alt true = refl
  keys-pressed shift_right ctrl false alt false = refl
  keys-pressed shift_right ctrl false alt true = refl
  keys-pressed shift_right ctrl true alt false = refl
  keys-pressed shift_right ctrl true alt true = refl
  keys-pressed ctrl_left ctrl false alt false = refl
  keys-pressed ctrl_left ctrl false alt true = refl
  keys-pressed ctrl_left ctrl true alt false = refl
  keys-pressed ctrl_left ctrl true alt true = refl
  keys-pressed ctrl_right ctrl false alt false = refl
  keys-pressed ctrl_right ctrl false alt true = refl
  keys-pressed ctrl_right ctrl true alt false = refl
  keys-pressed ctrl_right ctrl true alt true = refl
  keys-pressed alt_left ctrl false alt false = refl
  keys-pressed alt_left ctrl false alt true = refl
  keys-pressed alt_left ctrl true alt false = refl
  keys-pressed alt_left ctrl true alt true = refl
  keys-pressed alt_right ctrl false alt false = refl
  keys-pressed alt_right ctrl false alt true = refl
  keys-pressed alt_right ctrl true alt false = refl
  keys-pressed alt_right ctrl true alt true = refl
  keys-pressed caps_lock ctrl false alt false = refl
  keys-pressed caps_lock ctrl false alt true = refl
  keys-pressed caps_lock ctrl true alt false = refl
  keys-pressed caps_lock ctrl true alt true = refl

-- Whatever modifier keys are pressed and let go, in whatever order, and no prefix being left from
-- before, their bytes leave the ring, the screen and the tasks as they are, and the flags as the
-- events say: shift, ctrl and alt are on exactly if the last event of the two keys of that name is
-- a press, or there is none and they were on before; caps lock turns over with each press.
pub keys-flags_after_all :
    (k : Kernel) (q : Ioqueue) (screen : List Message) (es : List KeyEvent) (f : Flags)
    → keys k (with_flags q screen f) (bytes_of es)
      ≡ ok (k, with_flags q screen (flags_after_all f es))
unfolding keys
keys-flags_after_all k q screen [] f = refl
keys-flags_after_all k q screen (pressed m ∷ es) f =
    keys-pressed k q screen (bytes_of es) m f.ctrl f.shift f.alt f.caps
    ∙ keys-flags_after_all k q screen es (flags_after f (pressed m))
keys-flags_after_all k q screen (released m ∷ es) f =
    keys-released k q screen (bytes_of es) m f
    ∙ keys-flags_after_all k q screen es (flags_after f (released m))
