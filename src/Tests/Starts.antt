-- ===== src/Tests/Starts.antt =====
-- The start of the kernel with 32 MB of memory.
use goos.Prelude.{[], true}
use goos.Interrupt.{intr_off}
use goos.Sync.{lock_init}
use goos.Thread.{Kernel, task_died}
use goos.Descriptors.{Handlers, unknown}
use goos.Start.{Addresses, System}
use goos.Start.Chips.{Chips, Pic, Pit}
use goos.Start.Booted.{Booted}
use goos.Tests.Threads.{task, empty_stack}
use goos.Tests.Rings.{ring}
use goos.Tests.Gates.{empty_tables, no_gate}
use goos.Tests.Heaps.{loaded}

abbrev addresses : Addresses
addresses = record {
  idt = 0xc0009000;
  intr_entry_table = λ i. 0xc0001500;
  syscall_handler = 0xc0002abc;
  general_intr_handler = 0xc0003000;
  intr_timer_handler = 0xc0003100;
  intr_keyboard_handler = 0xc0003200;
  tss = 0xc0008000;
  sys_getpid = 0xc0004000;
  sys_write = 0xc0004100;
  sys_malloc = 0xc0004200;
  sys_free = 0xc0004300;
}

-- No page holds a task yet.
abbrev no_tasks : Kernel
no_tasks = record {
  tasks = λ t. task 0 task_died;
  stacks = λ _. empty_stack;
  main_thread = 0;
  current = 0xc009e000;
  thread_ready_list = [];
  thread_all_list = [];
  next_pid = 0;
  intr = intr_off;
  ticks = 0;
  cr3 = 0x100000;
  tss_esp0 = 0;
}

abbrev handlers : Handlers
handlers = record { handlers = λ i. 0; intr_name = λ i. unknown }

abbrev before : System
before = record {
  idt = λ i. no_gate;
  idtr = 0;
  handlers = handlers;
  ports = [];
  heap = loaded;
  kernel = no_tasks;
  console_lock = lock_init;
  kbd_buf = ring;
  segments = empty_tables;
  syscall_table = λ i. 0;
}

abbrev pic : Pic
pic = record { awaited = 0; first = 8; wiring = 0; mode = 0; mask = 0 }

abbrev pit : Pit
pit = record { counter = 0; mode = 3; low_next = true; value = 65535 }

abbrev chips : Chips
chips = record { master = pic; slave = pic; pit = pit }
