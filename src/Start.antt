-- ===== src/Start.antt =====
-- The start of the kernel: `init_all` of kernel/init.c and what it calls, over the states of the other
-- parts. The addresses of functions and tables are arguments. The bytes that are written to ports are
-- kept, the newest first; the messages are left out.
pub mod Chips
pub mod Booted
use goos.Prelude.{ℕ, ◌*◌, ◌/◌, ◌%◌, ◌^◌, ◌-◌, bit_or, Outcome, ok, ◌>>=◌, List, ◌∷◌}
use goos.Sync.{Lock, lock_init}
use goos.IoQueue.{Ioqueue, ioqueue_init}
use goos.Descriptors.{
  GateDesc, Handlers, SegmentTables, idt_desc_cnt, at, init_idt, init_exception, register_handler,
  tss_init,
}
use goos.Heap.{Heap, mem_init}
use goos.Thread.{Kernel}
use goos.Thread.Create.{thread_init}

-- Where the linker has put things.
pub record Addresses : Type 0 where
  pub idt : ℕ
  pub intr_entry_table : ℕ → ℕ
  pub syscall_handler : ℕ
  pub general_intr_handler : ℕ
  pub intr_timer_handler : ℕ
  pub intr_keyboard_handler : ℕ
  pub tss : ℕ
  pub sys_getpid : ℕ
  pub sys_write : ℕ
  pub sys_malloc : ℕ
  pub sys_free : ℕ

-- `idtr` is what `lidt` loads.
pub record System : Type 0 where
  pub idt : ℕ → GateDesc
  pub idtr : ℕ
  pub handlers : Handlers
  pub ports : List (ℕ × ℕ)
  pub heap : Heap
  pub kernel : Kernel
  pub console_lock : Lock
  pub kbd_buf : Ioqueue
  pub segments : SegmentTables
  pub syscall_table : ℕ → ℕ

abbrev pub outb : System → (port byte : ℕ) → System
outb s port byte = record s { ports = (port, byte % 2 ^ 8) ∷ s.ports }

abbrev pub pic_m_ctrl : ℕ
pic_m_ctrl = 0x20

abbrev pub pic_m_data : ℕ
pic_m_data = 0x21

abbrev pub pic_s_ctrl : ℕ
pic_s_ctrl = 0xa0

abbrev pub pic_s_data : ℕ
pic_s_data = 0xa1

unfoldable pub init_pic : System → System
init_pic s =
    let s₁ = outb s pic_m_ctrl 0x11 in
    let s₂ = outb s₁ pic_m_data 0x20 in
    let s₃ = outb s₂ pic_m_data 0x04 in
    let s₄ = outb s₃ pic_m_data 0x01 in
    let s₅ = outb s₄ pic_s_ctrl 0x11 in
    let s₆ = outb s₅ pic_s_data 0x28 in
    let s₇ = outb s₆ pic_s_data 0x02 in
    let s₈ = outb s₇ pic_s_data 0x01 in let s₉ = outb s₈ pic_m_data 0xfc in outb s₉ pic_s_data 0xff

-- A gate has 8 bytes.
unfoldable pub init_intr : Addresses → System → System
unfolding init_pic
init_intr a s =
    let s₁ = record s {
      idt = init_idt s.idt a.intr_entry_table a.syscall_handler;
      handlers = init_exception s.handlers a.general_intr_handler;
    } in
    record (init_pic s₁) { idtr = bit_or (a.idt * 2 ^ 16) (idt_desc_cnt * 8 - 1) }

abbrev pub counter0_value : ℕ
counter0_value = 1193180 / 100

abbrev pub counter0_port : ℕ
counter0_port = 0x40

abbrev pub counter0_no : ℕ
counter0_no = 0

abbrev pub counter0_mode : ℕ
counter0_mode = 2

abbrev pub read_write_latch : ℕ
read_write_latch = 3

abbrev pub pit_control_port : ℕ
pit_control_port = 0x43

unfoldable pub set_frequency :
    System → (counter_port counter_no rwl counter_mode counter_value : ℕ) → System
set_frequency s counter_port counter_no rwl counter_mode counter_value =
    let control = bit_or (bit_or (counter_no * 2 ^ 6) (rwl * 2 ^ 4)) (counter_mode * 2 ^ 1) in
    let s₁ = outb s pit_control_port control in
    let s₂ = outb s₁ counter_port counter_value in outb s₂ counter_port (counter_value / 2 ^ 8)

unfoldable pub init_timer : Addresses → System → Outcome System
unfolding set_frequency
init_timer a s = do
  let s₁ = set_frequency s counter0_port counter0_no read_write_latch counter0_mode counter0_value
  handlers ← register_handler s₁.handlers 0x20 a.intr_timer_handler
  ok (record s₁ { handlers = handlers })

unfoldable pub console_init : System → System
console_init s = record s { console_lock = lock_init }

unfoldable pub keyboard_init : Addresses → System → Outcome System
keyboard_init a s = do
  let kbd_buf = ioqueue_init s.kbd_buf
  handlers ← register_handler s.handlers 0x21 a.intr_keyboard_handler
  ok (record s { kbd_buf = kbd_buf; handlers = handlers })

-- `enum SYSCALL_NR`
abbrev pub nr_getpid : ℕ
nr_getpid = 0

abbrev pub nr_write : ℕ
nr_write = 1

abbrev pub nr_malloc : ℕ
nr_malloc = 2

abbrev pub nr_free : ℕ
nr_free = 3

unfoldable pub syscall_init : Addresses → System → System
syscall_init a s = record s {
  syscall_table =
      at
        (at (at (at s.syscall_table nr_getpid a.sys_getpid) nr_write a.sys_write) nr_malloc
          a.sys_malloc)
        nr_free a.sys_free;
}

unfoldable pub init_all : Addresses → System → Outcome System
unfolding init_intr init_timer console_init keyboard_init syscall_init
init_all a s = do
  let s₁ = init_intr a s
  s₂ ← init_timer a s₁
  let s₃ = record s₂ { heap = mem_init s₂.heap }
  kernel ← thread_init s₃.kernel
  let s₄ = console_init (record s₃ { kernel = kernel })
  s₅ ← keyboard_init a s₄
  ok (syscall_init a (record s₅ { segments = tss_init s₅.segments a.tss }))
