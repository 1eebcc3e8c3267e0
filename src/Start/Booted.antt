-- ===== src/Start/Booted.antt =====
-- What the kernel of kernel/init.c has when `init_all` returns.
use goos.Prelude.{
  ℕ, ◌-◌, ◌*◌, ◌/◌, ◌%◌, ◌^◌, ◌<◌, ◌≡◌, false, List, [], ◌==◌, if◌then◌else◌, ltb, bit_or,
}
use goos.Memory.{k_heap_start}
use goos.Sync.{lock_init}
use goos.IoQueue.{ioqueue_init}
use goos.IoQueue.Fifo.{contents}
use goos.Descriptors.{Handlers, idt_desc_cnt, at, init_exception, init_idt, tss_init}
use goos.Descriptors.Segments.{Loaded}
use goos.Descriptors.Gates.{LeadsTo}
use goos.Thread.{Kernel}
use goos.Thread.First.{FirstThread}
use goos.Heap.{mem_init}
use goos.Heap.Owned.Reach.{IsFresh}
use goos.Memory.Pools.{ArraysFit}
use goos.Heap.Owned.Boot.{all_pages}
use goos.Start.{Addresses, System, init_pic, set_frequency, nr_getpid, nr_write, nr_malloc, nr_free}
use goos.Start.Chips.{Chips, receive_all, is_open}

-- The kernel after `init_all`, by its parts.
pub record Booted (a : Addresses) (c : Chips) (s s' : System) : Type 0 where
  pub gates :
      (i : ℕ)
      → i < idt_desc_cnt
      → LeadsTo
          (s'.idt i)
          (if i == 0x80 then a.syscall_handler else a.intr_entry_table i)
          (if i == 0x80 then 3 else 0)
  pub gates_loaded : (s'.idtr / 2 ^ 16 ≡ a.idt) × (s'.idtr % 2 ^ 16 ≡ 8 * idt_desc_cnt - 1)
  pub first_line : (receive_all c s'.ports).master.first ≡ 0x20
  pub lines :
      (line : ℕ)
      → line < 8
      → (is_open (receive_all c s'.ports).master line ≡ ltb line 2)
        × (is_open (receive_all c s'.ports).slave line ≡ false)
  pub handlers :
      (i : ℕ)
      → i < idt_desc_cnt
      → s'.handlers.handlers i ≡ (
          if i == 0x21
          then a.intr_keyboard_handler
          else if i == 0x20
          then a.intr_timer_handler
          else a.general_intr_handler)
  pub clock :
      ((receive_all c s'.ports).pit.counter ≡ 0)
      × ((receive_all c s'.ports).pit.mode ≡ 2)
      × ((receive_all c s'.ports).pit.value ≡ 1193180 / 100)
  pub heap : IsFresh k_heap_start (all_pages s.heap) s'.heap
  pub arrays : ArraysFit s'.heap.machine.memory
  pub first_thread : FirstThread s.kernel s'.kernel
  pub console : s'.console_lock ≡ lock_init
  pub keys : contents s'.kbd_buf ≡ []
  pub segments : Loaded s'.segments a.tss
  pub calls :
      (s'.syscall_table nr_getpid ≡ a.sys_getpid)
      × (s'.syscall_table nr_write ≡ a.sys_write)
      × (s'.syscall_table nr_malloc ≡ a.sys_malloc)
      × (s'.syscall_table nr_free ≡ a.sys_free)

module _ (a : Addresses) (c : Chips) (s : System) where
  abbrev sent : List (ℕ × ℕ)
  sent = (set_frequency (init_pic s) 0x40 0 3 2 (1193180 / 100)).ports

  -- The handlers, as the drivers have registered them.
  abbrev registered : Handlers
  registered =
      let h = init_exception s.handlers a.general_intr_handler in
      record h {
        handlers = at (at h.handlers 0x20 a.intr_timer_handler) 0x21 a.intr_keyboard_handler;
      }

  abbrev ready : Kernel → System
  ready k = record {
    idt = init_idt s.idt a.intr_entry_table a.syscall_handler;
    idtr = bit_or (a.idt * 2 ^ 16) (idt_desc_cnt * 8 - 1);
    handlers = registered;
    ports = sent;
    heap = mem_init s.heap;
    kernel = k;
    console_lock = lock_init;
    kbd_buf = ioqueue_init s.kbd_buf;
    segments = tss_init s.segments a.tss;
    syscall_table =
        at
          (at (at (at s.syscall_table nr_getpid a.sys_getpid) nr_write a.sys_write) nr_malloc
            a.sys_malloc)
          nr_free a.sys_free;
  }
