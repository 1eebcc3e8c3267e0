-- ===== src/Tests/Processes.antt =====
-- A new process over the machine of Tables.
use goos.Prelude.{ℕ, ◌<◌, ◌≡◌, ◌≢◌, [], ◌∷◌, arith, ok, false}
use goos.Bitmap.{bitmap_init}
use goos.Memory.{mem_pool_init}
use goos.PageTable.{Machine}
use goos.PageTable.Kernel.{IsHeap, heap_pages, heap_page, in_use, frame_number}
use goos.LinkedList.Distinct.{has}
use goos.Thread.{Kernel}
use goos.Process.Execute.{Executed, process_execute-Executed}
use goos.Tests.Threads.{three_tasks, three_tasks-IsSched}
use goos.Process.{UserMemory, process_execute, create_page_dir, user_vaddr_start, user_bitmap_len}
use goos.Process.Directory.{IsDirectory, create_page_dir-IsDirectory}
use goos.Tests.Pages.{memory, memory-Started, kernel_pages, empty_vaddr_pool}
use goos.Tests.Tables.{machine, machine-IsHeap, none_in_use, within, all_free}

create_page_dir-IsDirectory_example :
    (i : ℕ) × (m' : Machine) × (frame' : ℕ → ℕ) × (create_page_dir machine
      ≡ ok (heap_page machine i, m'))
    × (i < heap_pages machine)
    × (in_use machine i ≡ false)
    × IsHeap m' frame'
    × IsDirectory m' (heap_page machine i) (frame_number m' (frame' i))
create_page_dir-IsDirectory_example =
    create_page_dir-IsDirectory machine (λ _. 0) machine-IsHeap 0 within (none_in_use 0)
      (omega (arith, all_free))

-- The process has all its virtual addresses free.
abbrev process_machine : Machine
process_machine = record machine {
  memory = record memory {
    userprog_vaddr_pool = record {
      vaddr_bitmap = bitmap_init (record { btmp_bytes_len = user_bitmap_len; bits = [] });
      vaddr_start = user_vaddr_start;
    };
  };
}

-- No page of the heap is the page of a task.
pages_apart :
    (x : ℕ)
    → x < heap_pages machine
    → in_use machine x ≡ false
    → (has (heap_page machine x) three_tasks.thread_all_list ≡ false)
      × (heap_page machine x ≢ three_tasks.main_thread)
unfolding has mem_pool_init
pages_apart x lt free = (ground arith, omega arith)

abbrev no_memory : UserMemory
no_memory = record {
  userprog_vaddr_pool = empty_vaddr_pool;
  u_block_descs = λ i. record { block_size = 0; blocks_per_arena = 0; free_list = [] };
}

process_execute-Executed_example :
    (t p own : ℕ) × (frame' : ℕ → ℕ) × (k' : Kernel) × (m' : Machine) × (u' : UserMemory)
    × (process_execute 0xc0005000 0xc0006000 three_tasks machine no_memory 0xc0007000 (112 ∷ [])
        ≡ ok (t, k', m', u'))
    × IsHeap m' frame'
    × Executed 0xc0005000 0xc0006000 0xc0007000 three_tasks t p own k' m' u'
process_execute-Executed_example =
    process_execute-Executed three_tasks three_tasks-IsSched machine (λ _. 0) machine-IsHeap 0
      (omega (arith, memory-Started.vaddr_pages, kernel_pages)) (λ x on. none_in_use x)
      (omega (arith, all_free)) pages_apart 0xc0005000 0xc0006000 0xc0007000 (112 ∷ [])
      (omega arith) no_memory
