-- ===== src/Process/Execute.antt =====
-- `process_execute` of userprog/process.c.
use goos.Prelude.{
  ℕ, ◌+◌, ◌-◌, ◌*◌, ◌≤◌, ◌<◌, ◌≡◌, ◌≢◌, refl, sym, ◌∙◌, List, [], ◌∷◌, ◌++◌, true, false, arith, ok,
  eq→==, ne→==, length, lt→ltb, ◌%◌, ◌^◌,
}
use goos.LinkedList.Distinct.{has}
use goos.Memory.Ranges.{inside}
use goos.PageTable.{Machine}
use goos.PageTable.Count.{free_pages}
use goos.PageTable.Kernel.{IsHeap, heap_pages, heap_page, in_use}
use goos.Interrupt.{IntrStatus, intr_off, intr_on, intr_disable, set_intr_status}
use goos.Thread.{Kernel, Task, put, status_of}
use goos.Thread.Invariant.{IsSched}
use goos.Thread.Create.{init_thread, thread_create, enqueue_new}
use goos.Thread.Start.{bottom, bottom_at, new_task, started, not_ready, started-IsSched}
use goos.Heap.{mem_block_desc_cnt, block_desc_init}
use goos.Heap.Classes.{IsClasses, block_desc_init-IsClasses}
use goos.Process.{UserMemory, default_prio, process_execute}
use goos.Process.Directory.{IsDirectory}
use goos.Process.Taken.{ProcessPages, free_pool, process_pages}

-- Changes of tasks that keep each status keep the scheduler's invariant.
tasks-IsSched :
    {k : Kernel}
    → IsSched k
    → (tasks : ℕ → Task) (intr : IntrStatus) → ((u : ℕ) → (tasks u).status ≡ status_of k u)
    → IsSched (record k { tasks = tasks; intr = intr })
tasks-IsSched {k} v tasks intr same = record {
  running = same k.current ∙ v.running;
  switching = record {
    alone = λ u h. v.switching.alone u (sym (same u) ∙ h);
    ready = λ u h. same u ∙ v.switching.ready u h;
    queued = λ u h r. v.switching.queued u h (sym (same u) ∙ r);
    known = v.switching.known;
    current_known = v.switching.current_known;
    distinct = v.switching.distinct;
    no_null = v.switching.no_null;
  };
}

restored : (i : IntrStatus) → (set_intr_status (intr_disable i).0 (intr_disable i).1).1 ≡ i
restored intr_off = refl
restored intr_on = refl

-- What `process_execute` has done: `t` is the task, `p` its page directory.
pub record Executed (kernel_thread entry filename : ℕ) (k : Kernel) (t p own : ℕ) (k' : Kernel)
    (m' : Machine) (u : UserMemory) : Type 0 where
  pub sched : IsSched k'
  pub ready : k'.thread_ready_list ≡ k.thread_ready_list ++ (t ∷ [])
  pub all : k'.thread_all_list ≡ k.thread_all_list ++ (t ∷ [])
  pub current : k'.current ≡ k.current
  pub intr : k'.intr ≡ k.intr
  pub others : (x : ℕ) → x ≢ t → k'.tasks x ≡ k.tasks x
  pub pid : (k'.tasks t).pid ≡ (k.next_pid + 1) % 2 ^ 16
  pub slice : (k'.tasks t).ticks ≡ default_prio
  pub stack : (k'.tasks t).self_kstack ≡ (t + 4096 - 4 * (76 + 32)) % 2 ^ 32
  pub thread_entry : (k'.stacks (k'.tasks t).self_kstack).eip ≡ kernel_thread
  pub enters : (k'.stacks (k'.tasks t).self_kstack).function ≡ entry
  pub passes_on : (k'.stacks (k'.tasks t).self_kstack).func_args ≡ filename
  pub pgdir : (k'.tasks t).pgdir ≡ p
  pub directory : IsDirectory m' p own
  pub addresses : u.userprog_vaddr_pool ≡ free_pool
  pub classes : IsClasses u.u_block_descs
  pub blocks : (i : ℕ) → i < mem_block_desc_cnt → (u.u_block_descs i).free_list ≡ []

module _ {k : Kernel} (v : IsSched k) (kernel_thread entry filename t : ℕ) (name : List ℕ)
    (p : ℕ) where
  abbrev begun : Kernel
  begun = started v kernel_thread t name default_prio entry filename

  abbrev top : ℕ
  top = bottom v kernel_thread t name default_prio entry filename

  abbrev task : Task
  task = record (new_task v kernel_thread t name default_prio entry filename top) { pgdir = p }

  abbrev done : Kernel
  done = record begun { tasks = put begun.tasks t task; intr = k.intr }

  same_status : (u : ℕ) → status_of done u ≡ status_of begun u
  same_status u = ground arith

  module _ (ne : t ≢ 0) (fresh : has t k.thread_all_list ≡ false) where
    done-IsSched : IsSched done
    done-IsSched =
        tasks-IsSched (started-IsSched v kernel_thread t name default_prio entry filename ne fresh)
          (put begun.tasks t task) k.intr same_status

    module _ (not_main : t ≢ k.main_thread) (short : length name < 16) (m m₁ m₂ m₃ : Machine)
        (i : ℕ) (here : heap_page m i ≡ t) (w : ProcessPages m i m₁ free_pool m₂ p m₃)
        (u : UserMemory) where
      abbrev memory : UserMemory
      memory = record {
        userprog_vaddr_pool = free_pool;
        u_block_descs = block_desc_init u.u_block_descs;
      }

      executed : process_execute kernel_thread entry k m u filename name ≡ ok (t, done, m₃, memory)
      unfolding process_execute init_thread thread_create enqueue_new
      executed =
          let not_ready = not_ready v kernel_thread t name default_prio entry filename ne fresh in
          rw (w.task, here)
            (rw (ne→== ne, lt→ltb (length name) 16 short)
              (rw w.bits (
                rw w.directory (
                  rw (ne→== not_main, eq→== {a = t} refl, not_ready, fresh)
                    (rw (restored k.intr) refl)))))

      what_was_done : Executed kernel_thread entry filename k t p w.own done m₃ memory
      what_was_done =
          let (classes, empty) = block_desc_init-IsClasses u.u_block_descs in
          record {
            sched = done-IsSched;
            ready = refl;
            all = refl;
            current = refl;
            intr = refl;
            others = λ x other. ground (arith, other);
            pid = ground arith;
            slice = ground arith;
            stack =
                rw (eq→== {a = t} refl)
                  (bottom_at v kernel_thread t name default_prio entry filename);
            thread_entry = ground arith;
            enters = ground arith;
            passes_on = ground arith;
            pgdir = ground arith;
            directory = w.shared;
            addresses = refl;
            classes = classes;
            blocks = empty;
          }

-- Where the scheduler's invariant and that of the kernel's heap hold, 47 pages in a row of the
-- heap and 25 frames are free, no free page belongs to a task or the first thread, and the name
-- has at most 15 bytes, `process_execute` returns. The new task is READY, last in line and last of
-- all tasks, with a full time slice, the next number, and a stack that enters `kernel_thread` with
-- `start_process` and the program, as many words of 32 bits below the end of the task's page as
-- the two frames have bytes; its page directory shares the kernel's part and maps nothing else;
-- its virtual addresses and its lists of blocks are all free. Other tasks and the interrupts are
-- as before, and both invariants hold.
pub process_execute-Executed :
    (k : Kernel)
    → IsSched k
    → (m : Machine) (frame : ℕ → ℕ) → IsHeap m frame
    → (r : ℕ) → r + 47 ≤ heap_pages m
    → ((x : ℕ) → inside r 47 x ≡ true → in_use m x ≡ false)
    → 25 ≤ free_pages m.memory.kernel_mem_pool
    → ((x : ℕ)
        → x < heap_pages m
        → in_use m x ≡ false
        → (has (heap_page m x) k.thread_all_list ≡ false) × (heap_page m x ≢ k.main_thread))
    → (kernel_thread entry filename : ℕ) (name : List ℕ) → length name < 16
    → (u : UserMemory)
    → (t p own : ℕ) × (frame' : ℕ → ℕ) × (k' : Kernel) × (m' : Machine) × (u' : UserMemory)
      × (process_execute kernel_thread entry k m u filename name ≡ ok (t, k', m', u'))
      × IsHeap m' frame'
      × Executed kernel_thread entry filename k t p own k' m' u'
process_execute-Executed k v m frame heap r room unused enough apart kernel_thread entry filename
      name short u =
    let (i, m₁, m₂, m₃, p, w) = process_pages m frame heap r room unused enough in
    let (fresh, not_main) = apart i w.within w.fresh in
    let t = heap_page m i in
    let ne : t ≢ 0 = omega (arith, heap.mapping.not_null) in
    (
      t,
      p,
      w.own,
      w.frame,
      done v kernel_thread entry filename t name p,
      m₃,
      memory v kernel_thread entry filename t name p ne fresh not_main short m m₁ m₂ m₃ i refl w u,
      executed v kernel_thread entry filename t name p ne fresh not_main short m m₁ m₂ m₃ i refl w
          u,
      w.heap,
      what_was_done v kernel_thread entry filename t name p ne fresh not_main short m m₁ m₂ m₃ i
          refl w u,
    )
