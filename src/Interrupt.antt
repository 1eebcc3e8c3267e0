-- ===== src/Interrupt.antt =====
-- The interrupt flag of kernel/interrupt.c. The flag is the IF bit of the eflags register, which
-- `get_intr_status` reads, `sti` sets and `cli` clears.
use goos.Prelude.{Bool, true, false, if◌then◌else◌}

-- `enum intr_status`
pub data IntrStatus : Type 0 where
  intr_off intr_on : IntrStatus

abbrev pub is_on : IntrStatus → Bool
is_on intr_off = false
is_on intr_on = true

-- Each returns the status before, and the status after.
abbrev pub intr_enable : IntrStatus → IntrStatus × IntrStatus
intr_enable old_status =
    if is_on old_status then (old_status, old_status) else (old_status, intr_on)

abbrev pub intr_disable : IntrStatus → IntrStatus × IntrStatus
intr_disable old_status =
    if is_on old_status then (old_status, intr_off) else (old_status, old_status)

abbrev pub set_intr_status : (status now : IntrStatus) → IntrStatus × IntrStatus
set_intr_status status now = if is_on status then intr_enable now else intr_disable now
