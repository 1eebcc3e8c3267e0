-- ===== src/Descriptors/Gates.antt =====
-- The gates and the handlers of kernel/interrupt.c.
use goos.Prelude.{
  ℕ, zero, suc, ◌+◌, ◌*◌, ◌/◌, ◌%◌, ◌^◌, ◌<◌, ◌≡◌, refl, ap, ◌∙◌, arith, ◌==◌, eq→==, ne→==,
  if◌then◌else◌, ◌&&◌, leb, ltb, lt→ltb, le→leb, ℕ_discrete, ok,
}
use goos.Prelude.Masks.{bit_and_low, bit_and_high}
use goos.Descriptors.{
  GateDesc, unknown, idt_desc_cnt, idt_desc_attr_dpl0, idt_desc_attr_dpl3, selector_k_code, at,
  init_idt_desc, init_gates, init_idt, Handlers, set_defaults, init_exception, register_handler,
}

-- The address that the processor goes to.
abbrev pub target_of : GateDesc → ℕ
target_of g = g.func_offset_low_word + g.func_offset_high_word * 2 ^ 16

-- A gate to the function, present, in the kernel's code, for callers of a privilege level; it is an
-- interrupt gate of 32 bits, whose target has both words.
pub record LeadsTo (g : GateDesc) (function level : ℕ) : Type 0 where
  pub target : target_of g ≡ function
  pub segment : g.selector ≡ selector_k_code
  pub is_present : g.attribute / 2 ^ 7 ≡ 1
  pub level_of : g.attribute / 2 ^ 5 % 4 ≡ level
  pub kind_of : g.attribute % 2 ^ 5 ≡ 0xe

init_idt_desc-LeadsTo :
    (attr function level : ℕ)
    → function < 2 ^ 32
    → attr / 2 ^ 7 ≡ 1
    → attr / 2 ^ 5 % 4 ≡ level
    → attr % 2 ^ 5 ≡ 0xe
    → LeadsTo (init_idt_desc attr function) function level
unfolding init_idt_desc
init_idt_desc-LeadsTo attr function level fits there of_level kind =
    let low = bit_and_low 16 function in
    let high = bit_and_high 16 16 function (omega arith) in
    record {
      target = rw (low, high) (omega arith);
      segment = refl;
      is_present = there;
      level_of = of_level;
      kind_of = kind;
    }

-- The loops set the entries of a range.
gates_after :
    (idt : ℕ → GateDesc) (entries : ℕ → ℕ) (rounds i x : ℕ)
    → init_gates idt entries rounds i x ≡ (
        if leb i x && ltb x (i + rounds)
        then init_idt_desc idt_desc_attr_dpl0 (entries x)
        else idt x)
unfolding init_gates
gates_after idt entries zero i x = ground arith
gates_after idt entries (suc rounds) i x =
    gates_after (at idt i (init_idt_desc idt_desc_attr_dpl0 (entries i))) entries rounds (i + 1) x
    ∙ elim (ℕ_discrete x i) [
      | yes e ↦ rw e (ground arith)
      | no ne ↦ rw (ne→== ne) (ground (arith, ne))
    ]

handlers_after :
    (h : Handlers) (general rounds i x : ℕ)
    → (set_defaults h general rounds i).handlers x
      ≡ (if leb i x && ltb x (i + rounds) then general else h.handlers x)
unfolding set_defaults
handlers_after h general zero i x = ground arith
handlers_after h general (suc rounds) i x =
    handlers_after
      (record { handlers = at h.handlers i general; intr_name = at h.intr_name i unknown }) general
      rounds (i + 1) x
    ∙ ground arith

-- After `init_idt`, each of the 0x81 gates is a present interrupt gate of 32 bits and leads to its entry,
-- for the kernel only; the last one leads to the handler of system calls, and is open to processes.
pub init_idt-LeadsTo :
    (idt : ℕ → GateDesc) (entries : ℕ → ℕ) (syscall_handler : ℕ)
    → ((x : ℕ) → entries x < 2 ^ 32)
    → syscall_handler < 2 ^ 32
    → (i : ℕ) → i < idt_desc_cnt
    → LeadsTo
        (init_idt idt entries syscall_handler i)
        (if i == 0x80 then syscall_handler else entries i)
        (if i == 0x80 then 3 else 0)
unfolding init_idt
init_idt-LeadsTo idt entries syscall_handler fits call_fits i within = elim (ℕ_discrete i 0x80) [
  | yes e ↦
      rw (eq→== e)
        (init_idt_desc-LeadsTo idt_desc_attr_dpl3 syscall_handler 3 call_fits refl refl refl)
  | no ne ↦
      let set : init_gates idt entries idt_desc_cnt 0 i
          ≡ init_idt_desc idt_desc_attr_dpl0 (entries i) =
        gates_after idt entries idt_desc_cnt 0 i
        ∙ rw (le→leb 0 i (omega arith), lt→ltb i idt_desc_cnt within) refl in
      rw (ne→== ne)
        (rw set (init_idt_desc-LeadsTo idt_desc_attr_dpl0 (entries i) 0 (fits i) refl refl refl))
]

-- After `init_exception` every interrupt has the default handler.
pub init_exception-default :
    (h : Handlers) (general i : ℕ)
    → i < idt_desc_cnt
    → (init_exception h general).handlers i ≡ general
unfolding init_exception
init_exception-default h general i within =
    handlers_after h general idt_desc_cnt 0 i
    ∙ rw (le→leb 0 i (omega arith), lt→ltb i idt_desc_cnt within) refl

-- After `init_exception`, `register_handler` for one of the 0x81 interrupts returns; the interrupt then
-- has that handler, and every other one the default.
pub register_handler-init_exception :
    (h : Handlers) (general intr_num function : ℕ)
    → intr_num < idt_desc_cnt
    → (h' : Handlers) × (register_handler (init_exception h general) intr_num function ≡ ok h')
      × ((i : ℕ) → i < idt_desc_cnt → h'.handlers i ≡ (if i == intr_num then function else general))
unfolding register_handler init_exception
register_handler-init_exception h general intr_num function within = (
  record (init_exception h general) {
    handlers = at (init_exception h general).handlers intr_num function;
  },
  rw (lt→ltb intr_num idt_desc_cnt within) refl,
  λ i p.
      let set = init_exception-default h general i p in
      ap (λ d. if i == intr_num then function else d) set,
)
