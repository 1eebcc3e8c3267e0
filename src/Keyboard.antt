-- ===== src/Keyboard.antt =====
-- device/keyboard.c and keyboard.h: the handler of the keyboard's interrupt turns scan codes into
-- characters in the ring `kbd_buf`. A call takes the byte that it reads from the port.
pub mod Typing
pub mod Letters
pub mod Release
use goos.Prelude.{
  ℕ, bit_and, bit_or, Bool, true, false, not, ◌&&◌, ◌||◌, List, [], ◌∷◌, none, some, get_elem?,
  Outcome, ok, fault, hang, ◌>>=◌, ◌==◌, ltb, if◌then◌else◌,
}
use goos.Thread.{Kernel}
use goos.IoQueue.{Ioqueue, ioqueue_init, ioq_full, ioq_putchar, Sent, sent}

-- The row of a make code: the character of the key, and that with shift, by their ASCII codes.
abbrev pub keymap : List (ℕ × ℕ)
keymap =
    (0, 0)
    ∷ (27, 27)
    ∷ (49, 33)
    ∷ (50, 64)
    ∷ (51, 35)
    ∷ (52, 36)
    ∷ (53, 37)
    ∷ (54, 94)
    ∷ (55, 38)
    ∷ (56, 42)
    ∷ (57, 40)
    ∷ (48, 41)
    ∷ (45, 95)
    ∷ (61, 43)
    ∷ (8, 8)
    ∷ (9, 9)
    ∷ (113, 81)
    ∷ (119, 87)
    ∷ (101, 69)
    ∷ (114, 82)
    ∷ (116, 84)
    ∷ (121, 89)
    ∷ (117, 85)
    ∷ (105, 73)
    ∷ (111, 79)
    ∷ (112, 80)
    ∷ (91, 123)
    ∷ (93, 125)
    ∷ (13, 13)
    ∷ (0, 0)
    ∷ (97, 65)
    ∷ (115, 83)
    ∷ (100, 68)
    ∷ (102, 70)
    ∷ (103, 71)
    ∷ (104, 72)
    ∷ (106, 74)
    ∷ (107, 75)
    ∷ (108, 76)
    ∷ (59, 58)
    ∷ (39, 34)
    ∷ (96, 126)
    ∷ (0, 0)
    ∷ (92, 124)
    ∷ (122, 90)
    ∷ (120, 88)
    ∷ (99, 67)
    ∷ (118, 86)
    ∷ (98, 66)
    ∷ (110, 78)
    ∷ (109, 77)
    ∷ (44, 60)
    ∷ (46, 62)
    ∷ (47, 63)
    ∷ (0, 0)
    ∷ (42, 42)
    ∷ (0, 0)
    ∷ (32, 32)
    ∷ (0, 0)
    ∷ []

abbrev pub shift_l_make : ℕ
shift_l_make = 0x2a

abbrev pub shift_r_make : ℕ
shift_r_make = 0x36

abbrev pub alt_l_make : ℕ
alt_l_make = 0x38

abbrev pub alt_r_make : ℕ
alt_r_make = 0xe038

abbrev pub ctrl_l_make : ℕ
ctrl_l_make = 0x1d

abbrev pub ctrl_r_make : ℕ
ctrl_r_make = 0xe01d

abbrev pub caps_lock_make : ℕ
caps_lock_make = 0x3a

-- What the handler writes on the screen.
pub data Message : Type 0 where
  unknown_key : Message

pub record Keyboard : Type 0 where
  pub ctrl_status : Bool
  pub shift_status : Bool
  pub alt_status : Bool
  pub caps_lock_status : Bool
  pub ext_scancode : Bool
  pub kbd_buf : Ioqueue
  pub screen : List Message

abbrev pub xor : Bool → Bool → Bool
xor false b = b
xor true b = not b

-- `keymap[index][shift]`
abbrev pub keymap_at : (index : ℕ) (shift : Bool) → Outcome ℕ
keymap_at index shift = elim (get_elem? keymap index) [
  | none ↦ fault
  | some row ↦ ok (if shift then row.1 else row.0)
]

-- The scan code, joined with the prefix 0xe0 if that came before.
abbrev pub scancode_of : (ext : Bool) → ℕ → ℕ
scancode_of ext port = if ext then bit_or 0xe000 port else port

abbrev pub is_break : ℕ → Bool
is_break scancode = not (bit_and scancode 0x0080 == 0)

-- A key has been let go.
abbrev pub key_up : Keyboard → (make_code : ℕ) → Keyboard
key_up b make_code =
    if make_code == ctrl_l_make || make_code == ctrl_r_make
    then record b { ctrl_status = false }
    else if make_code == shift_l_make || make_code == shift_r_make
    then record b { shift_status = false }
    else if make_code == alt_l_make || make_code == alt_r_make
    then record b { alt_status = false }
    else b

abbrev pub is_known : ℕ → Bool
is_known scancode =
    (ltb 0 scancode && ltb scancode 0x3b) || (scancode == alt_r_make) || (scancode == ctrl_r_make)

-- The keys whose second character depends on shift alone.
abbrev pub has_two_chars : ℕ → Bool
has_two_chars scancode =
    ltb scancode 0x0e
    || (scancode == 0x29)
    || (scancode == 0x1a)
    || (scancode == 0x1b)
    || (scancode == 0x2b)
    || (scancode == 0x27)
    || (scancode == 0x28)
    || (scancode == 0x33)
    || (scancode == 0x34)
    || (scancode == 0x35)

-- `shift` of the handler.
abbrev pub shifted : Keyboard → (scancode : ℕ) → Bool
shifted b scancode =
    if has_two_chars scancode then b.shift_status else xor b.shift_status b.caps_lock_status

-- A character is dropped when the ring is full.
unfoldable pub type_char : Kernel → Keyboard → (cur_char : ℕ) → Outcome (Kernel × Keyboard)
type_char k b cur_char = do
  full ← ioq_full k.intr b.kbd_buf
  if full then ok (k, b) else do
    (r, k', q) ← ioq_putchar k b.kbd_buf cur_char
    elim r [ sent ↦ ok (k', record b { kbd_buf = q }) | Sent.must_wait ↦ hang ]

-- One of the keys without a character has been pressed.
abbrev pub hold : Keyboard → (scancode : ℕ) → Keyboard
hold b scancode =
    if scancode == ctrl_l_make || scancode == ctrl_r_make
    then record b { ctrl_status = true }
    else if scancode == shift_l_make || scancode == shift_r_make
    then record b { shift_status = true }
    else if scancode == alt_l_make || scancode == alt_r_make
    then record b { alt_status = true }
    else if scancode == caps_lock_make
    then record b { caps_lock_status = xor b.caps_lock_status true }
    else b

unfoldable pub key_down : Kernel → Keyboard → (scancode : ℕ) → Outcome (Kernel × Keyboard)
key_down k b scancode =
    if is_known scancode
    then (do
      let index = bit_and scancode 0x00ff
      cur_char ← keymap_at index (shifted b scancode)
      if cur_char == 0 then ok (k, hold b index) else type_char k b cur_char)
    else ok (k, record b { screen = unknown_key ∷ b.screen })

unfoldable pub intr_keyboard_handler : Kernel → Keyboard → (port : ℕ) → Outcome (Kernel × Keyboard)
intr_keyboard_handler k b port =
    if port == 0xe0
    then ok (k, record b { ext_scancode = true })
    else (let scancode = scancode_of b.ext_scancode port in
        let b' = record b { ext_scancode = false } in
        if is_break scancode
        then ok (k, key_up b' (bit_and scancode 0xff7f))
        else key_down k b' scancode)

-- The handler on one byte after the other.
unfoldable pub keys : Kernel → Keyboard → List ℕ → Outcome (Kernel × Keyboard)
keys k b [] = ok (k, b)
keys k b (port ∷ ports) = do (k', b') ← intr_keyboard_handler k b port; keys k' b' ports
