-- ===== src/Tests/Keys.antt =====
-- device/keyboard.c with the ring of Rings.
use goos.Prelude.{List, ◌≡◌, refl, [], ◌∷◌, ◌++◌, true, false, arith, ok}
use goos.Thread.{Kernel}
use goos.Keyboard.{Keyboard, intr_keyboard_handler, keys}
use goos.IoQueue.Fifo.{contents}
use goos.Keyboard.Typing.{Handled, keyboard_handler-Handled}
use goos.Keyboard.Letters.{letter-Typed}
use goos.Keyboard.Release.{keyboard, Modifier, KeyEvent, pressed, released, keys-flags_after_all}
use goos.Tests.Threads.{three_tasks, three_tasks-IsSched}
use goos.Tests.Rings.{ring, ring-IsValid, three-CanWake}

abbrev shift_down : Keyboard
shift_down = keyboard ring [] false true false false

keyboard_handler-Handled_example :
    (k' : Kernel) × (b' : Keyboard) × (intr_keyboard_handler three_tasks shift_down 0x1e
      ≡ ok (k', b'))
    × Handled three_tasks shift_down k' b'
keyboard_handler-Handled_example =
    keyboard_handler-Handled three_tasks-IsSched refl shift_down ring-IsValid three-CanWake 0x1e

letter-Typed_example :
    (k' : Kernel) × (b' : Keyboard) × (intr_keyboard_handler three_tasks shift_down 0x1e
      ≡ ok (k', b'))
    × (contents b'.kbd_buf ≡ contents ring ++ (65 ∷ []))
letter-Typed_example =
    letter-Typed three_tasks-IsSched refl shift_down ring-IsValid three-CanWake refl (omega arith)
      0x1e refl

-- Caps lock, right ctrl and left shift are pressed; ctrl is let go.
abbrev events : List KeyEvent
events =
    pressed Modifier.caps_lock
    ∷ pressed Modifier.ctrl_right
    ∷ pressed Modifier.shift_left
    ∷ released Modifier.ctrl_right
    ∷ []

keys-flags_after_all_example :
    keys three_tasks
      (keyboard ring [] false false true true)
      (0x3a ∷ 0xe0 ∷ 0x1d ∷ 0x2a ∷ 0xe0 ∷ 0x9d ∷ [])
    ≡ ok (three_tasks, keyboard ring [] false true true false)
keys-flags_after_all_example =
    keys-flags_after_all three_tasks ring [] events
      (record { ctrl = false; shift = false; alt = true; caps = true })
