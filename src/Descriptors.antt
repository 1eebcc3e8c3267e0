-- ===== src/Descriptors.antt =====
-- The descriptors that the processor reads: the segments and the task state segment of
-- userprog/tss.c, and the gates and handlers of kernel/interrupt.c. Tables are functions of the index
-- or of the address; the addresses of `tss`, of the entries of kernel/kernel.S and of the handlers
-- are arguments.
pub mod Segments
pub mod Gates
use goos.Prelude.{
  ℕ, zero, suc, ◌+◌, ◌-◌, ◌*◌, ◌/◌, ◌%◌, ◌^◌, bit_and, bit_or, Bool, true, false, ◌||◌, Outcome, ok,
  fault, hang, ltb, ◌==◌, if◌then◌else◌, add32, List, [], ◌∷◌,
}
use goos.Memory.{pg_size}

-- The privilege levels of selectors and descriptors.
abbrev pub selector : (index rpl : ℕ) → ℕ
selector index rpl = index * 2 ^ 3 + 0 * 2 ^ 2 + rpl

abbrev pub selector_k_code : ℕ
selector_k_code = selector 1 0

abbrev pub selector_k_data : ℕ
selector_k_data = selector 2 0

abbrev pub selector_k_stack : ℕ
selector_k_stack = selector_k_data

abbrev pub selector_tss : ℕ
selector_tss = selector 4 0

abbrev pub selector_u_code : ℕ
selector_u_code = selector 5 3

abbrev pub selector_u_data : ℕ
selector_u_data = selector 6 3

abbrev pub gdt_attr_high : ℕ
gdt_attr_high = 1 * 2 ^ 7 + 1 * 2 ^ 6 + 0 * 2 ^ 5 + 0 * 2 ^ 4

abbrev pub gdt_code_attr_low_dpl3 : ℕ
gdt_code_attr_low_dpl3 = 1 * 2 ^ 7 + 3 * 2 ^ 5 + 1 * 2 ^ 4 + 8

abbrev pub gdt_data_attr_low_dpl3 : ℕ
gdt_data_attr_low_dpl3 = 1 * 2 ^ 7 + 3 * 2 ^ 5 + 1 * 2 ^ 4 + 2

abbrev pub tss_attr_high : ℕ
tss_attr_high = 1 * 2 ^ 7 + 0 * 2 ^ 6 + 0 * 2 ^ 5 + 0 * 2 ^ 4 + 0

abbrev pub tss_attr_low : ℕ
tss_attr_low = 1 * 2 ^ 7 + 0 * 2 ^ 5 + 0 * 2 ^ 4 + 9

pub record GdtDesc : Type 0 where
  pub limit_low_word : ℕ
  pub base_low_word : ℕ
  pub base_mid_byte : ℕ
  pub attr_low_byte : ℕ
  pub limit_high_attr_high : ℕ
  pub base_high_byte : ℕ

unfoldable pub make_gdt_desc : (desc_addr limit attr_low attr_high : ℕ) → GdtDesc
make_gdt_desc desc_addr limit attr_low attr_high = record {
  limit_low_word = bit_and limit 0x0000ffff;
  base_low_word = bit_and desc_addr 0x0000ffff;
  base_mid_byte = bit_and desc_addr 0x00ff0000 / 2 ^ 16;
  attr_low_byte = attr_low;
  limit_high_attr_high = (bit_and limit 0x000f0000 / 2 ^ 16 + attr_high) % 2 ^ 8;
  base_high_byte = desc_addr / 2 ^ 24;
}

-- The task state segment, by the numbers of its fields: 27 words.
abbrev pub tss_size : ℕ
tss_size = 27 * 4

abbrev pub esp0 : ℕ
esp0 = 1

abbrev pub ss0 : ℕ
ss0 = 2

abbrev pub io_base : ℕ
io_base = 26

-- The global descriptor table by address, and what `lgdt` and `ltr` load.
pub record SegmentTables : Type 0 where
  pub tss : ℕ → ℕ
  pub gdt : ℕ → GdtDesc
  pub gdt_ptr : ℕ
  pub tr : ℕ

abbrev pub at {ℓ} : {A : Type ℓ} → (ℕ → A) → ℕ → A → ℕ → A
at f i a = λ j. if j == i then a else f j

unfoldable pub update_tss_esp : SegmentTables → (pthread : ℕ) → SegmentTables
update_tss_esp s pthread = record s { tss = at s.tss esp0 (add32 pthread pg_size) }

unfoldable pub tss_init : SegmentTables → (tss_addr : ℕ) → SegmentTables
tss_init s tss_addr =
    let tss = at (at (λ i. 0) ss0 selector_k_stack) io_base tss_size in
    let gdt₁ =
      at s.gdt 0xc0000920 (make_gdt_desc tss_addr (tss_size - 1) tss_attr_low tss_attr_high) in
    let gdt₂ = at gdt₁ 0xc0000928 (make_gdt_desc 0 0xfffff gdt_code_attr_low_dpl3 gdt_attr_high) in
    let gdt₃ = at gdt₂ 0xc0000930 (make_gdt_desc 0 0xfffff gdt_data_attr_low_dpl3 gdt_attr_high) in
    record {
      tss = tss;
      gdt = gdt₃;
      gdt_ptr = bit_or (8 * 7 - 1) (0xc0000900 * 2 ^ 16);
      tr = selector_tss;
    }

abbrev pub idt_desc_cnt : ℕ
idt_desc_cnt = 0x81

abbrev pub idt_desc_attr_dpl0 : ℕ
idt_desc_attr_dpl0 = 1 * 2 ^ 7 + 0 * 2 ^ 5 + 0xe

abbrev pub idt_desc_attr_dpl3 : ℕ
idt_desc_attr_dpl3 = 1 * 2 ^ 7 + 3 * 2 ^ 5 + 0xe

pub record GateDesc : Type 0 where
  pub func_offset_low_word : ℕ
  pub selector : ℕ
  pub dcount : ℕ
  pub attribute : ℕ
  pub func_offset_high_word : ℕ

unfoldable pub init_idt_desc : (attr function : ℕ) → GateDesc
init_idt_desc attr function = record {
  func_offset_low_word = bit_and function 0x0000ffff;
  selector = selector_k_code;
  dcount = 0;
  attribute = attr;
  func_offset_high_word = bit_and function 0xffff0000 / 2 ^ 16;
}

-- The loop of `init_idt`, with the rounds left.
unfoldable pub init_gates :
    (ℕ → GateDesc) → (intr_entry_table : ℕ → ℕ) → (rounds i : ℕ) → ℕ → GateDesc
init_gates idt intr_entry_table zero i = idt
init_gates idt intr_entry_table (suc rounds) i =
    init_gates (at idt i (init_idt_desc idt_desc_attr_dpl0 (intr_entry_table i))) intr_entry_table
      rounds (i + 1)

unfoldable pub init_idt :
    (ℕ → GateDesc) → (intr_entry_table : ℕ → ℕ) → (syscall_handler : ℕ) → ℕ → GateDesc
init_idt idt intr_entry_table syscall_handler =
    at (init_gates idt intr_entry_table idt_desc_cnt 0) (idt_desc_cnt - 1)
      (init_idt_desc idt_desc_attr_dpl3 syscall_handler)

-- The texts that `intr_name` points to.
pub data IntrName : Type 0 where
  unknown divide_error debug_exception : IntrName
  nmi_interrupt breakpoint_exception overflow_exception : IntrName
  bound_range_exceeded_exception invalid_opcode_exception device_not_available_exception : IntrName
  double_fault_exception coprocessor_segment_overrun invalid_tss_exception : IntrName
  segment_not_present stack_fault_exception general_protection_exception : IntrName
  page_fault_exception fpu_floating_point_error alignment_check_exception : IntrName
  machine_check_exception simd_floating_point_exception timer_interrupt : IntrName

-- `handlers` and `intr_name`.
pub record Handlers : Type 0 where
  pub handlers : ℕ → ℕ
  pub intr_name : ℕ → IntrName

-- The loop of `init_exception`, with the rounds left.
unfoldable pub set_defaults : Handlers → (general_intr_handler rounds i : ℕ) → Handlers
set_defaults h general_intr_handler zero i = h
set_defaults h general_intr_handler (suc rounds) i =
    set_defaults
      (record {
        handlers = at h.handlers i general_intr_handler;
        intr_name = at h.intr_name i unknown;
      })
      general_intr_handler rounds (i + 1)

abbrev pub exceptions : List (ℕ × IntrName)
exceptions =
    (0, divide_error)
    ∷ (1, debug_exception)
    ∷ (2, nmi_interrupt)
    ∷ (3, breakpoint_exception)
    ∷ (4, overflow_exception)
    ∷ (5, bound_range_exceeded_exception)
    ∷ (6, invalid_opcode_exception)
    ∷ (7, device_not_available_exception)
    ∷ (8, double_fault_exception)
    ∷ (9, coprocessor_segment_overrun)
    ∷ (10, invalid_tss_exception)
    ∷ (11, segment_not_present)
    ∷ (12, stack_fault_exception)
    ∷ (13, general_protection_exception)
    ∷ (14, page_fault_exception)
    ∷ (16, fpu_floating_point_error)
    ∷ (17, alignment_check_exception)
    ∷ (18, machine_check_exception)
    ∷ (19, simd_floating_point_exception)
    ∷ (32, timer_interrupt)
    ∷ []

abbrev pub set_names : (ℕ → IntrName) → List (ℕ × IntrName) → ℕ → IntrName
set_names names [] = names
set_names names ((i, name) ∷ rest) = set_names (at names i name) rest

unfoldable pub init_exception : Handlers → (general_intr_handler : ℕ) → Handlers
init_exception h general_intr_handler =
    let h₁ = set_defaults h general_intr_handler idt_desc_cnt 0 in
    record h₁ { intr_name = set_names h₁.intr_name exceptions }

-- `intr_num` is a byte; the array ends before 0x81.
unfoldable pub register_handler : Handlers → (intr_num function : ℕ) → Outcome Handlers
register_handler h intr_num function =
    if ltb intr_num idt_desc_cnt
    then ok (record h { handlers = at h.handlers intr_num function })
    else fault

-- The handler of an interrupt that no driver has registered: it returns from the two spurious ones
-- only, and else stays in an endless loop behind its message.
unfoldable pub general_intr_handler : (vec_index : ℕ) → Outcome (Unit {0})
general_intr_handler vec_index = if (vec_index == 0x27) || (vec_index == 0x2f) then ok tt else hang
