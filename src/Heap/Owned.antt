-- ===== src/Heap/Owned.antt =====
-- The kernel's heap of kernel/memory.c as a whole, across calls of `sys_malloc` and `sys_free`: the
-- pages given away are just the owned ones, and lists, headers and given pointers agree.
pub mod Extent
pub mod Kept
pub mod Take
pub mod Fill
pub mod Large
pub mod LargeReturn
pub mod Return
pub mod Calls
pub mod Reach
pub mod Boot
use mathlib.Core.Path.{fun_ext}
use goos.Prelude.{
  ℕ, ◌+◌, ◌*◌, ◌≤◌, ◌<◌, ◌≡◌, refl, sym, ap, ◌∙◌, Bool, true, List, arith, ◌==◌, eq→==, ne→==,
  ℕ_discrete,
}
use goos.Memory.{k_heap_start}
use goos.PageTable.Kernel.{IsHeap, heap_pages, heap_page, in_use}
use goos.Heap.{Heap, Arena, put, mem_block_desc_cnt}
use goos.Heap.Classes.{IsClasses, class_numbers}
use goos.Heap.Lists.{with_list}
use goos.Heap.Ledger.{Kind, is_owned, per_arena, IsLedger}
use goos.Heap.Ledger.Places.{IsPlaced}

abbrev pub lists_of : Heap → ℕ → List ℕ
lists_of h = λ i. (h.k_block_descs i).free_list

field-put {ℓ} :
    {A B : Type ℓ} (g : A → B) (f : ℕ → A) (i : ℕ) (a : A)
    → (λ j. g (put f i a j)) ≡ put (λ j. g (f j)) i (g a)
field-put g f i a =
    fun_ext (λ j. elim (ℕ_discrete j i) [ yes e ↦ rw (eq→== e) refl | no ne ↦ rw (ne→== ne) refl ])

pub lists_of-with_list :
    (h : Heap) (idx : ℕ) (xs : List ℕ) → lists_of (with_list h idx xs) ≡ put (lists_of h) idx xs
lists_of-with_list h idx xs =
    field-put (λ d. d.free_list) h.k_block_descs idx
      (record (h.k_block_descs idx) { free_list = xs })

-- The heap is the kernel's `n` pages from `s` on, its pages are of these kinds, and just these pointers
-- are given away.
pub record IsOwned (s n : ℕ) (h : Heap) (frame : ℕ → ℕ) (kind : ℕ → Kind) (given : ℕ → Bool)
    : Type 0 where
  pub heap : IsHeap h.machine frame
  pub kernel : h.pgdir ≡ 0
  pub start : h.machine.memory.kernel_vaddr_pool.vaddr_start ≡ s
  pub pages : heap_pages h.machine ≡ n
  pub above : k_heap_start ≤ s
  pub classes : IsClasses h.k_block_descs
  pub used : (x : ℕ) → x < n → in_use h.machine x ≡ is_owned (kind x)
  pub ledger : IsLedger s n (lists_of h) h.arenas kind given

-- The heap is sound, with just these pointers given away.
pub record IsHeapOf (s n : ℕ) (h : Heap) (given : ℕ → Bool) : Type 0 where
  pub frame : ℕ → ℕ
  pub kind : ℕ → Kind
  pub owned : IsOwned s n h frame kind given

module _ {s n : ℕ} {h : Heap} {frame : ℕ → ℕ} {kind : ℕ → Kind} {given : ℕ → Bool}
    (v : IsOwned s n h frame kind given) where
  pub owned-IsPlaced : IsPlaced s n
  owned-IsPlaced = record {
    whole = omega (arith, v.heap.mapping.start, v.start);
    below = omega (arith, v.heap.mapping.below, v.start, v.pages);
  }

  pub page_of : (x : ℕ) → heap_page h.machine x ≡ s + x * 4096
  page_of x = omega (arith, v.start)

  pub count_of :
      (i : ℕ) → i < mem_block_desc_cnt → (h.k_block_descs i).blocks_per_arena ≡ per_arena i
  count_of i class = v.classes.counts i class

  pub few_blocks : (i : ℕ) → i < mem_block_desc_cnt → per_arena i < 256
  few_blocks i class = rw (← count_of i class) (class_numbers h.k_block_descs v.classes i class).few

pub IsLedger-cast :
    {s n : ℕ} {free free' : ℕ → List ℕ} {arenas arenas' : ℕ → Arena} {kind : ℕ → Kind}
    {given : ℕ → Bool}
    → IsLedger s n free arenas kind given
    → free' ≡ free
    → arenas' ≡ arenas
    → IsLedger s n free' arenas' kind given
IsLedger-cast v e e' = rw (e, e') v
