-- ===== src/Thread/Create.antt =====
-- The creation of threads in thread/thread.c, and the start of the first one. The page of the new task, which `get_kernel_pages`
-- gives, is an argument, and so is the address of `kernel_thread`. The lock in `allocate_pid` is left
-- out: the statements here run as one step.
use goos.Prelude.{
  ℕ, ◌+◌, ◌*◌, ◌%◌, ◌^◌, not, List, [], ◌∷◌, ◌++◌, Outcome, ok, fault, ◌>>=◌, ◌>>◌, assert, ◌==◌,
  ltb, if◌then◌else◌, add32, sub32, length,
}
use goos.LinkedList.Distinct.{has}
use goos.Thread.{Kernel, task_running, task_ready, put, set_task, pg_size}

-- `sizeof(struct intr_stack)` and `sizeof(struct thread_stack)`
abbrev pub intr_stack_size : ℕ
intr_stack_size = 19 * 4

abbrev pub thread_stack_size : ℕ
thread_stack_size = 8 * 4

-- `self_kstack` points to words: it moves by this many bytes where the code adds or subtracts `n`.
abbrev pub words_of : (n : ℕ) → ℕ
words_of n = n * 4

-- `next_pid` after the call is the result.
abbrev pub allocate_pid : Kernel → Kernel
allocate_pid k = record k { next_pid = (k.next_pid + 1) % 2 ^ 16 }

-- The name has room for 15 bytes and a zero behind them.
unfoldable pub init_thread :
    Kernel → (pthread : ℕ) → (name : List ℕ) → (priority : ℕ) → Outcome Kernel
init_thread k₀ pthread name priority =
    let k = allocate_pid k₀ in
    if ltb (length name) 16
    then ok (
        set_task k pthread (record {
          self_kstack = add32 pthread pg_size;
          pid = k.next_pid;
          status = if pthread == k.main_thread then task_running else task_ready;
          name = name;
          priority = priority;
          ticks = priority;
          elapsed_ticks = 0;
          pgdir = 0;
          stack_magic = 0x20030621;
        }))
    else fault

unfoldable pub thread_create : Kernel → (kernel_thread pthread function func_args : ℕ) → Kernel
thread_create k kernel_thread pthread function func_args =
    let bottom =
      sub32 (sub32 (k.tasks pthread).self_kstack (words_of intr_stack_size))
        (words_of thread_stack_size) in
    record (set_task k pthread (record (k.tasks pthread) { self_kstack = bottom })) {
      stacks = put k.stacks bottom (record {
        ebp = 0;
        ebx = 0;
        edi = 0;
        esi = 0;
        eip = kernel_thread;
        function = function;
        func_args = func_args;
      });
    }

-- Both queues take the task at their ends.
unfoldable pub enqueue_new : Kernel → (thread : ℕ) → Outcome Kernel
enqueue_new k thread = do
  assert (not (has thread k.thread_ready_list))
  assert (not (has thread k.thread_all_list))
  ok (record k {
    thread_ready_list = k.thread_ready_list ++ (thread ∷ []);
    thread_all_list = k.thread_all_list ++ (thread ∷ []);
  })

unfoldable pub thread_start :
    Kernel
    → (kernel_thread thread : ℕ) → (name : List ℕ) → (priority function func_args : ℕ)
    → Outcome Kernel
thread_start k kernel_thread thread name priority function func_args = do
  k₁ ← init_thread k thread name priority
  enqueue_new (thread_create k₁ kernel_thread thread function func_args) thread

-- "main"
abbrev pub main_name : List ℕ
main_name = 109 ∷ 97 ∷ 105 ∷ 110 ∷ []

-- The code that runs becomes the first thread.
unfoldable pub make_main_thread : Kernel → Outcome Kernel
make_main_thread k₀ = do
  let main_thread = k₀.current
  k ← init_thread (record k₀ { main_thread = main_thread }) main_thread main_name 31
  assert (not (has main_thread k.thread_all_list))
  ok (record k { thread_all_list = k.thread_all_list ++ (main_thread ∷ []) })

unfoldable pub thread_init : Kernel → Outcome Kernel
thread_init k = make_main_thread (record k { thread_ready_list = []; thread_all_list = [] })
