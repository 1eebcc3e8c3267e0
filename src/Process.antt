-- ===== src/Process.antt =====
-- userprog/process.c: the page directory and the virtual addresses of a new process, and the frame from
-- which it enters user mode. The running task and its stack are arguments.
pub mod Directory
pub mod Entry
pub mod Taken
pub mod Execute
use goos.Prelude.{
  ℕ, ◌+◌, ◌-◌, ◌*◌, ◌/◌, ◌%◌, ◌^◌, bit_or, ◌&&◌, Outcome, ok, panic, ◌>>=◌, ◌>>◌, assert, not, ltb,
  leb, ◌==◌, if◌then◌else◌, add32, List, [],
}
use goos.Bitmap.{Bitmap, bitmap_init}
use goos.Memory.{VirtualAddrPool, pf_kernel, pf_user, pg_size}
use goos.Interrupt.{intr_disable, set_intr_status}
use goos.Thread.{Kernel, set_task}
use goos.Thread.Create.{thread_stack_size, words_of, init_thread, thread_create, enqueue_new}
use goos.Heap.{MemBlockDesc, block_desc_init}
use goos.PageTable.{Machine, with_words, store, entry, addr_v2p, get_pages, get_a_page}
use goos.Descriptors.{selector_u_code, selector_u_data}

abbrev pub user_vaddr_start : ℕ
user_vaddr_start = 0x8048000

abbrev pub user_stack3_vaddr : ℕ
user_stack3_vaddr = 0xc0000000 - 0x1000

-- `memcpy` of whole words between ranges that do not meet.
abbrev pub copy_words : (ℕ → ℕ) → (dst src size : ℕ) → ℕ → ℕ
copy_words words dst src size =
    λ a. if leb dst a && ltb a (dst + size) then words (src + (a - dst)) else words a

-- The kernel's part of the directory is shared; the last entry is the directory's own.
unfoldable pub create_page_dir : Machine → Outcome (ℕ × Machine)
create_page_dir m = do
  (page_dir_vaddr, m₁) ← get_pages m pf_kernel 1
  if page_dir_vaddr == 0
      then ok (0, m₁)
      else (let shared =
            copy_words m₁.words (page_dir_vaddr + 0x300 * 4) (0xfffff000 + 0x300 * 4) 1024 in
          let new_page_dir_phy_addr = addr_v2p shared page_dir_vaddr in
          ok (
            page_dir_vaddr,
            with_words m₁ (store shared (page_dir_vaddr + 1023 * 4) (entry new_page_dir_phy_addr)),
          ))

abbrev pub user_bitmap_len : ℕ
user_bitmap_len = (0xc0000000 - user_vaddr_start) / pg_size / 8

abbrev pub bitmap_pg_cnt : ℕ
bitmap_pg_cnt = (user_bitmap_len + pg_size - 1) / pg_size

-- `bitmap_init` stops at an assertion where no pages are to be had.
unfoldable pub create_user_vaddr_bitmap : Machine → Outcome (VirtualAddrPool × Machine)
create_user_vaddr_bitmap m = do
  (bits, m₁) ← get_pages m pf_kernel bitmap_pg_cnt
  if bits == 0
      then panic
      else ok (
        record {
          vaddr_bitmap = bitmap_init (record { btmp_bytes_len = user_bitmap_len; bits = [] });
          vaddr_start = user_vaddr_start;
        },
        m₁,
      )

-- What `intr_exit` takes from the stack.
pub record IntrStack : Type 0 where
  pub edi : ℕ
  pub esi : ℕ
  pub ebp : ℕ
  pub esp_dummy : ℕ
  pub ebx : ℕ
  pub edx : ℕ
  pub ecx : ℕ
  pub eax : ℕ
  pub gs : ℕ
  pub ds : ℕ
  pub es : ℕ
  pub fs : ℕ
  pub eip : ℕ
  pub cs : ℕ
  pub eflags : ℕ
  pub esp : ℕ
  pub ss : ℕ

-- `EFLAGS_IOPL_0 | EFLAGS_MBS | EFLAGS_IF_1`
abbrev pub user_eflags : ℕ
user_eflags = bit_or (bit_or (0 * 2 ^ 12) (1 * 2 ^ 1)) (1 * 2 ^ 9)

abbrev pub proc_stack : (function page : ℕ) → IntrStack
proc_stack function page = record {
  edi = 0;
  esi = 0;
  ebp = 0;
  esp_dummy = 0;
  ebx = 0;
  edx = 0;
  ecx = 0;
  eax = 0;
  gs = 0;
  ds = selector_u_data;
  es = selector_u_data;
  fs = selector_u_data;
  eip = function;
  cs = selector_u_code;
  eflags = user_eflags;
  esp = add32 page pg_size;
  ss = selector_u_data;
}

-- Where the frame stands, the frame, and the memory; the jump to `intr_exit` is left out.
unfoldable pub start_process :
    (pgdir : ℕ) → Machine → (self_kstack function : ℕ) → Outcome (ℕ × IntrStack × Machine)
start_process pgdir m self_kstack function = do
  (page, m₁) ← get_a_page pgdir m pf_user user_stack3_vaddr
  ok (add32 self_kstack (words_of thread_stack_size), proc_stack function page, m₁)

abbrev pub default_prio : ℕ
default_prio = 31

-- What the page of a process has beside its task.
pub record UserMemory : Type 0 where
  pub userprog_vaddr_pool : VirtualAddrPool
  pub u_block_descs : ℕ → MemBlockDesc

-- `kernel_thread` and `entry` are the addresses of that function and of `start_process`. The call of
-- `memset` in `init_thread` stops at NULL.
unfoldable pub process_execute :
    (kernel_thread entry : ℕ)
    → Kernel
    → Machine
    → UserMemory
    → (filename : ℕ) → (name : List ℕ) → Outcome (ℕ × Kernel × Machine × UserMemory)
process_execute kernel_thread entry k m u filename name = do
  (thread, m₁) ← get_pages m pf_kernel 1
  assert (not (thread == 0))
  k₁ ← init_thread k thread name default_prio
  (pool, m₂) ← create_user_vaddr_bitmap m₁
  let k₂ = thread_create k₁ kernel_thread thread entry filename
  (pgdir, m₃) ← create_page_dir m₂
  let k₃ = set_task k₂ thread (record (k₂.tasks thread) { pgdir = pgdir })
  let descs = block_desc_init u.u_block_descs
  let (old_status, now) = intr_disable k₃.intr
  k₄ ← enqueue_new (record k₃ { intr = now }) thread
  ok (
    thread,
    record k₄ { intr = (set_intr_status old_status k₄.intr).1 },
    m₃,
    record { userprog_vaddr_pool = pool; u_block_descs = descs },
  )
