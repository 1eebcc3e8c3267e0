-- ===== src/PageTable/Alloc.antt =====
-- `malloc_page` of kernel/memory.c for the kernel: fresh pages, each with a frame of its own.
use mathlib.Core.Path.{fun_ext}
use goos.Prelude.{
  ℕ, zero, suc, ◌+◌, ◌≤◌, ◌<◌, ◌≡◌, refl, sym, ap, ◌∙◌, ◌≢◌, ◌⊎◌, inl, inr, Bool, true, false,
  arith, ok, ◌==◌, ne→==, ◌||◌, add32, lt→ltb,
}
use goos.Bitmap.Laws.{bits_len, bit}
use goos.Bitmap.FindRun.{IsFree}
use goos.Memory.{VirtualAddrPool, pf_kernel, pg_size}
use goos.Memory.Ranges.{inside}
use goos.Memory.Pages.{pages, palloc-PageTaken}
use goos.Memory.Pools.{Reserved, taken, get_virtual_addr-vaddr_remove}
use goos.PageTable.{Machine, map_pages, malloc_page, take_page}
use goos.PageTable.Count.{free_pages, free_page_below}
use goos.PageTable.Kernel.{
  IsMapping, heap_pages, heap_page, with_page, with_frame, after_one, one_mapped, IsHeap, in_use,
  with_vaddr_pool, IsMapping-with_vaddr_pool,
}

-- The pages in `mapped` and the `n` from page `i` on.
abbrev pub with_pages : (ℕ → Bool) → (i n : ℕ) → ℕ → Bool
with_pages mapped i n = λ x. inside i n x || mapped x

with_pages-with_page :
    (mapped : ℕ → Bool) (i n x : ℕ)
    → with_pages (with_page mapped i) (i + 1) n x ≡ with_pages mapped i (suc n) x
with_pages-with_page mapped i n x = ground arith

with_pages-none : (mapped : ℕ → Bool) (i x : ℕ) → mapped x ≡ with_pages mapped i zero x
with_pages-none mapped i x = ground arith

-- What the loop has done.
pub record ManyMapped (m : Machine) (mapped : ℕ → Bool) (frame : ℕ → ℕ) (i n : ℕ) (m' : Machine)
    (frame' : ℕ → ℕ) : Type 0 where
  pub mapping : IsMapping m' (with_pages mapped i n) frame'
  pub vaddr_pool : m'.memory.kernel_vaddr_pool ≡ m.memory.kernel_vaddr_pool
  pub user_pool : m'.memory.user_mem_pool ≡ m.memory.user_mem_pool
  pub free : free_pages m.memory.kernel_mem_pool ≡ free_pages m'.memory.kernel_mem_pool + n
  pub frames : (x : ℕ) → inside i n x ≡ false → frame' x ≡ frame x

pub map_pages-ManyMapped :
    (n : ℕ) (m : Machine) (mapped : ℕ → Bool) (frame : ℕ → ℕ)
    → IsMapping m mapped frame
    → (i : ℕ) → i + n ≤ heap_pages m
    → ((x : ℕ) → inside i n x ≡ true → mapped x ≡ false)
    → n ≤ free_pages m.memory.kernel_mem_pool
    → (m' : Machine) × (frame' : ℕ → ℕ) × (map_pages m pf_kernel (heap_page m i) n ≡ ok (true, m'))
      × ManyMapped m mapped frame i n m' frame'
unfolding map_pages take_page
map_pages-ManyMapped zero m mapped frame v i room fresh enough = (
  m,
  frame,
  refl,
  record {
    mapping = rw (← fun_ext (with_pages-none mapped i)) v;
    vaddr_pool = refl;
    user_pool = refl;
    free = omega arith;
    frames = λ x out. refl;
  },
)
map_pages-ManyMapped (suc n) m mapped frame v i room fresh enough =
    let (k, inside, free) =
      free_page_below m.memory.kernel_mem_pool (pages m.memory.kernel_mem_pool) (omega arith) in
    let (j, a, p', e, w) = palloc-PageTaken v.pool k inside free in
    let here : mapped i ≡ false = fresh i (ground arith) in
    let (e', one) = one_mapped v i (omega arith) here j a p' w in
    let m₁ = after_one v i (omega arith) here j a p' w in
    let next : add32 (heap_page m i) pg_size ≡ heap_page m (i + 1) = omega (arith, v.below) in
    let not_null : a ≢ 0 = omega (arith, w.address, v.pool.start) in
    let (m', frame', e'', many) =
      map_pages-ManyMapped n m₁ (with_page mapped i) (with_frame frame i j) one.mapping (i + 1)
        (omega arith) (λ x h. ground (arith, fresh x, h)) (omega (arith, one.free)) in
    (
      m',
      frame',
      rw (e, ne→== not_null) (rw e' (ap (λ y. map_pages m₁ pf_kernel y n) next ∙ e'')),
      record {
        mapping = rw (← fun_ext (with_pages-with_page mapped i n)) many.mapping;
        vaddr_pool = many.vaddr_pool;
        user_pool = many.user_pool;
        free = omega (arith, one.free, many.free);
        frames = λ x out. many.frames x (ground (arith, out)) ∙ ground (arith, out);
      },
    )

-- The pages of a reservation are those in use before and the new ones.
in_use_after :
    (m : Machine) (n i vaddr : ℕ) (p' : VirtualAddrPool)
    → Reserved m.memory.kernel_vaddr_pool n i vaddr p'
    → (x : ℕ) → with_pages (in_use m) i n x ≡ in_use (with_vaddr_pool m p') x
in_use_after m n i vaddr p' w x = ground (arith, w.bits x)

fresh_pages :
    (m : Machine) (n i vaddr : ℕ) (p' : VirtualAddrPool)
    → Reserved m.memory.kernel_vaddr_pool n i vaddr p'
    → (x : ℕ) → inside i n x ≡ true
    → in_use m x ≡ false
fresh_pages m n i vaddr p' w x h = ground (arith, w.free x, h)

-- What allocating the `n` pages from page `i` on has done.
pub record Allocated (m : Machine) (frame : ℕ → ℕ) (n i : ℕ) (m' : Machine) (frame' : ℕ → ℕ)
    : Type 0 where
  pub heap : IsHeap m' frame'
  pub start : m'.memory.kernel_vaddr_pool.vaddr_start ≡ m.memory.kernel_vaddr_pool.vaddr_start
  pub pages : heap_pages m' ≡ heap_pages m
  pub room : i + n ≤ heap_pages m
  pub fresh : (x : ℕ) → inside i n x ≡ true → in_use m x ≡ false
  pub used : (x : ℕ) → in_use m' x ≡ with_pages (in_use m) i n x
  pub frames : (x : ℕ) → inside i n x ≡ false → frame' x ≡ frame x
  pub user_pool : m'.memory.user_mem_pool ≡ m.memory.user_mem_pool
  pub free : free_pages m.memory.kernel_mem_pool ≡ free_pages m'.memory.kernel_mem_pool + n

-- Where the invariant of the kernel's heap holds, and a virtual page and `n` physical pages of the
-- kernel are free, `malloc_page` for `n` pages, from 1 to 3839, returns. Either no `n` virtual pages in
-- a row are free, and it returns NULL and changes nothing; or it returns the address of fresh pages,
-- and has mapped each of them to a frame that was free. The invariant is kept: what is given away is
-- mapped, and no frame twice. Other pages keep their frames.
pub malloc_page-Allocated :
    (m : Machine) (frame : ℕ → ℕ)
    → IsHeap m frame
    → (n k : ℕ) → 0 < n
    → n < 3840
    → k < heap_pages m
    → in_use m k ≡ false
    → n ≤ free_pages m.memory.kernel_mem_pool
    → ((malloc_page m pf_kernel n ≡ ok (0, m))
        × ((s : ℕ) → s + n ≤ heap_pages m → ¬ IsFree m.memory.kernel_vaddr_pool.vaddr_bitmap s n))
      ⊎ ((i : ℕ) × (m' : Machine) × (frame' : ℕ → ℕ) × (malloc_page m pf_kernel n
            ≡ ok (heap_page m i, m'))
          × Allocated m frame n i m' frame')
unfolding malloc_page
malloc_page-Allocated m frame v n k pos small inside free enough =
    let k_free : taken m.memory.kernel_vaddr_pool k ≡ 0 = ground (arith, free) in
    elim (get_virtual_addr-vaddr_remove m.memory v.addresses n k pos inside k_free) [
      | inl (e, all) ↦ inl (rw (lt→ltb 0 n pos, lt→ltb n 3840 small) (rw e refl), all)
      | inr (i, vaddr, p', e, w, _) ↦
          let moved = IsMapping-with_vaddr_pool v.mapping p' w.start w.len in
          let (m', frame', e', many) =
            map_pages-ManyMapped n (with_vaddr_pool m p') (in_use m) frame moved i
              (omega (arith, w.room, w.len)) (fresh_pages m n i vaddr p' w) enough in
          let ne : vaddr ≢ 0 = omega (arith, w.address, v.mapping.not_null) in
          let at : heap_page (with_vaddr_pool m p') i ≡ vaddr = omega (arith, w.address, w.start) in
          let there : heap_page (with_vaddr_pool m p') i ≡ heap_page m i = omega (arith, w.start) in
          let used : (x : ℕ) → in_use m' x ≡ with_pages (in_use m) i n x = λ x.
            ap (λ p. bit p.vaddr_bitmap x == 1) many.vaddr_pool
            ∙ sym (in_use_after m n i vaddr p' w x) in
          inr (
            i,
            m',
            frame',
            rw (lt→ltb 0 n pos, lt→ltb n 3840 small)
                (rw e (rw (ne→== ne) (rw (← at, e') (ap (λ y. ok (y, m')) there)))),
            record {
              heap = record {
                addresses = rw many.vaddr_pool w.pool;
                mapping = rw (fun_ext used) many.mapping;
              };
              start = ap (λ p. p.vaddr_start) many.vaddr_pool ∙ w.start;
              pages = ap (λ p. bits_len p.vaddr_bitmap) many.vaddr_pool ∙ w.len;
              room = w.room;
              fresh = fresh_pages m n i vaddr p' w;
              used = used;
              frames = many.frames;
              user_pool = many.user_pool;
              free = many.free;
            },
          )
    ]

-- One page.
pub malloc_one :
    (m : Machine) (frame : ℕ → ℕ)
    → IsHeap m frame
    → (k : ℕ) → k < heap_pages m
    → in_use m k ≡ false
    → 1 ≤ free_pages m.memory.kernel_mem_pool
    → (i : ℕ) × (m' : Machine) × (frame' : ℕ → ℕ) × (malloc_page m pf_kernel 1
        ≡ ok (heap_page m i, m'))
      × Allocated m frame 1 i m' frame'
malloc_one m frame v k within free enough =
    elim (malloc_page-Allocated m frame v 1 k (omega arith) (omega arith) within free enough) [
      | inl (e, none_free) ↦ absurd (
          none_free k (omega arith)
            (λ x lo hi. let here : x ≡ k = omega arith in ground (arith, free, here)))
      | inr found ↦ found
    ]
