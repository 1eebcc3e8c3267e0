-- ===== src/Start/Chips.antt =====
-- What the two interrupt controllers (8259A) and the clock (8253) make of the bytes that kernel/interrupt.c
-- and device/timer.c send to their ports, as the manuals of the chips say.
use goos.Prelude.{ℕ, ◌+◌, ◌*◌, ◌/◌, ◌%◌, ◌^◌, Bool, true, false, List, [], ◌∷◌, ◌==◌, if◌then◌else◌}

-- An initialization takes three more words at the data port: the first interrupt, the wiring, and the
-- mode. `awaited` counts them; then a word there is the mask.
pub record Pic : Type 0 where
  pub awaited : ℕ
  pub first : ℕ
  pub wiring : ℕ
  pub mode : ℕ
  pub mask : ℕ

-- A new value comes as two bytes, the low one first.
pub record Pit : Type 0 where
  pub counter : ℕ
  pub mode : ℕ
  pub low_next : Bool
  pub value : ℕ

pub record Chips : Type 0 where
  pub master : Pic
  pub slave : Pic
  pub pit : Pit

-- The word 0x11 starts an initialization in which all words are sent.
abbrev pic_ctrl : Pic → (byte : ℕ) → Pic
pic_ctrl p byte = if byte == 0x11 then record p { awaited = 3 } else p

abbrev pic_data : Pic → (byte : ℕ) → Pic
pic_data p byte =
    if p.awaited == 3
    then record p { awaited = 2; first = byte / 8 * 8 }
    else if p.awaited == 2
    then record p { awaited = 1; wiring = byte }
    else if p.awaited == 1
    then record p { awaited = 0; mode = byte }
    else record p { mask = byte }

abbrev pit_ctrl : Pit → (byte : ℕ) → Pit
pit_ctrl p byte = record p { counter = byte / 2 ^ 6; mode = byte / 2 % 2 ^ 3; low_next = true }

abbrev pit_data : Pit → (byte : ℕ) → Pit
pit_data p byte =
    if p.low_next
    then record p { value = byte; low_next = false }
    else record p { value = p.value + byte * 2 ^ 8; low_next = true }

abbrev receive : Chips → ℕ × ℕ → Chips
receive c (port, byte) =
    if port == 0x20
    then record c { master = pic_ctrl c.master byte }
    else if port == 0x21
    then record c { master = pic_data c.master byte }
    else if port == 0xa0
    then record c { slave = pic_ctrl c.slave byte }
    else if port == 0xa1
    then record c { slave = pic_data c.slave byte }
    else if port == 0x43
    then record c { pit = pit_ctrl c.pit byte }
    else if port == 0x40
    then record c { pit = pit_data c.pit byte }
    else c

-- The chips after all the bytes, of which the newest stands first.
abbrev pub receive_all : Chips → List (ℕ × ℕ) → Chips
receive_all c [] = c
receive_all c (w ∷ ws) = receive (receive_all c ws) w

-- Whether a line of a controller is let through.
abbrev pub is_open : Pic → (line : ℕ) → Bool
is_open p line = p.mask / 2 ^ line % 2 == 0
