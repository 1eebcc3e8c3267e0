-- ===== src/Lib.antt =====
-- GOOS, a small operating system for the 32-bit x86: a model of its kernel's C code.
--
-- The kernel is made of a list, a bitmap, a scheduler for threads and processes, locks, pools of
-- pages, page tables, an allocator of blocks, and drivers for the clock and the keyboard. The clock
-- and the other parts meet in the scheduler: the clock's handler and a task that blocks call
-- `schedule`, which takes the next task from the ready list. A lock blocks and wakes tasks through
-- it, and the ring of bytes of the keyboard wakes its readers through it. The pools of pages are
-- bitmaps; the page tables map what the pools give out, and the allocator cuts it into blocks.
--
-- Prelude and its children hold the shared names: numbers, lists, tests, and `Outcome`, what a call
-- can end in. An ASSERT that fails is `panic`; an access outside an object, or through NULL where
-- the code works on an object, is `fault`; a loop that has used up its fuel is `hang`. Unsigned
-- numbers are native ones, reduced by `% 2 ^ w` where the code can wrap.
--
-- Which file models which part:
-- - Bitmap: lib/kernel/bitmap.c. The array of bytes is a list. The loops of `bitmap_scan` are
--   recursions on the rounds that are left to them; the one over the bits of a byte has nine
--   rounds, since it is entered only for a byte with a clear bit, and a byte has eight.
-- - Interrupt: the interrupt flag of kernel/interrupt.c.
-- - LinkedList: lib/kernel/list.c over a store of `prev` and `next` fields. The walks run on fuel;
--   one round more than the list has nodes is enough.
-- - Thread: the scheduler of thread/thread.c, with `page_dir_activate` and `process_activate` of
--   userprog/process.c and the clock's handler of device/timer.c. The ready list and the list of all
--   tasks are the sequences of their tasks, which is what LinkedList shows of lists. A task is
--   named by the address of its page. `addr_v2p` is a parameter. A switch of stacks is a change of
--   `current`; what switch_to of thread/switch.S does to the stacks is not modelled. Thread/Create
--   starts a thread, as one step, in a page that is given to it. Thread/Fairness follows the ticks of
--   the clock.
-- - Sync: the semaphores and locks of thread/sync.c, cut into steps at the places where a task can
--   lose the processor. An `Event` is the next step of the current task in `lock_acquire` or in
--   `lock_release`, or a tick of the clock; a schedule is a list of them. The status of interrupts
--   that a step saves and puts back is left out: each step runs with interrupts off.
-- - IoQueue: device/ioqueue.c. A call of `ioq_getchar` or `ioq_putchar` is one turn of its loop: it
--   moves a byte, or says that the task has to wait. The wait itself is not composed with the lock.
-- - Keyboard: the handler of device/keyboard.c and the tables of keyboard.h. The byte that the
--   handler reads from the port is an argument of it.
-- - Memory: of kernel/memory.c, the pools of physical and of virtual pages over Bitmap. The arrays of
--   bits are lists of their own, beside the addresses from MEM_BITMAP_BASE on at which they stand; up
--   to 343 MB of memory they end before the page of main's PCB.
-- - PageTable: of kernel/memory.c, the tables over a store that gives each virtual address its word;
--   the tables themselves are the words from 0xffc00000 on. `malloc_page` and `mfree_page` combine
--   them with the pools of Memory. A frame of the kernel's pool is named by its place in the pool.
-- - Heap: `block_desc_init`, `sys_malloc` and `sys_free` of kernel/memory.c over PageTable. The state
--   is that of one task: its page directory and its classes of blocks, and the kernel's. Heap/Ledger
--   sees lists, headers, pages and given pointers apart from the machine; Heap/Owned ties them to it
--   and follows the calls of a kernel thread, one at a time.
-- - Strings: lib/string.c over a memory that gives each address its byte. Loops that end at a byte
--   run on fuel; one round more than the string has bytes is enough. The loop of `strcmp` ends at a
--   difference, or where its pointer has wrapped round, so it needs as many rounds as there are
--   addresses from its pointer on, and one more.
-- - Stdio: lib/stdio.c over the memory of Strings. The arguments of a format are the words that stand
--   on the stack. `itoa` has 32 rounds, one for each binary digit of its value; `vsprintf` needs one
--   round more than the format has pieces.
-- - Descriptors: the task state segment and the segments of userprog/tss.c, and the gates and handlers
--   of kernel/interrupt.c. The addresses of the assembly entries are arguments.
-- - Process: userprog/process.c, from `process_execute`, over the states of Thread, PageTable and Heap,
--   to the frame with which a process enters user mode. What `struct task_struct` holds beside a task of
--   Thread, the pool of virtual addresses and the lists of blocks, is a record of its own.
-- - Start: `init_all` of kernel/init.c, with `init_pic` and `init_intr` of kernel/interrupt.c, the clock's
--   frequency of device/timer.c, `keyboard_init`, `console_init` and the table of userprog/syscallInit.c,
--   over the states of the other parts. The bytes written to ports are kept in order; Start/Chips says
--   what the controllers and the clock make of them.
-- - Tests: the code at concrete inputs.
--
-- Not modelled: the boot code and the assembly files (boot, kernel/kernel.S, lib/kernel/print.S,
-- thread/switch.S) and the instructions of lib/kernel/io.h; the messages that the kernel writes, but for
-- that of the keyboard's handler; `main` of kernel/main.c, which starts threads
-- and processes for demonstration; the system calls and the output on the console. Of the block
-- allocator, the free lists are sequences and the headers of arenas are kept apart from the words of
-- their pages, so that a task that writes over a header is not seen.
pub mod Prelude
pub mod Bitmap
pub mod Interrupt
pub mod LinkedList
pub mod Thread
pub mod Sync
pub mod IoQueue
pub mod Keyboard
pub mod Memory
pub mod Strings
pub mod PageTable
pub mod Heap
pub mod Descriptors
pub mod Stdio
pub mod Process
pub mod Start
mod Tests
