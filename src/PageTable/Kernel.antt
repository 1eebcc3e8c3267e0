-- ===== src/PageTable/Kernel.antt =====
-- The kernel's pages: each mapped page of the kernel's virtual addresses has a frame of its own from
-- the kernel's pool.
use goos.Prelude.{
  ℕ, ◌+◌, ◌*◌, ◌/◌, ◌%◌, ◌^◌, ◌≤◌, ◌<◌, ◌≡◌, refl, sym, ap, ◌∙◌, ◌≢◌, Bool, true, false, arith, ok,
  ◌==◌, ne→==, eq→==, if◌then◌else◌, ℕ_discrete, ◌||◌,
}
use goos.Bitmap.Laws.{bits_len, bit}
use goos.Memory.Pools.{IsVaddrPool}
use goos.Memory.{MemPool, VirtualAddrPool}
use goos.Memory.Pages.{IsPool, PageTaken, pages, used}
use goos.PageTable.{Machine, pte_ptr, entry, with_kernel_pool, page_table_map}
use goos.PageTable.Entries.{page, window}
use goos.PageTable.Map.{has_table, is_mapped, PageMapped, mapped_in, map_in_table}
use goos.PageTable.Count.{free_pages, free_pages_taken}

-- The number of the kernel's virtual pages, and the address of page `i`.
abbrev pub heap_pages : Machine → ℕ
heap_pages m = bits_len m.memory.kernel_vaddr_pool.vaddr_bitmap

abbrev pub heap_page : Machine → (i : ℕ) → ℕ
heap_page m i = m.memory.kernel_vaddr_pool.vaddr_start + i * 4096

-- The number, among all frames, of page `j` of the kernel's pool.
abbrev pub frame_number : Machine → (j : ℕ) → ℕ
frame_number m j = m.memory.kernel_mem_pool.phy_addr_start / 4096 + j

-- The pages in `mapped` are mapped, page `i` to page `frame i` of the kernel's pool, which is in use
-- and is the frame of no other page; the rest is not mapped.
pub record IsMapping (m : Machine) (mapped : ℕ → Bool) (frame : ℕ → ℕ) : Type 0 where
  pub pool : IsPool m.memory.kernel_mem_pool
  pub user : IsPool m.memory.user_mem_pool
  pub ordered :
      m.memory.kernel_mem_pool.phy_addr_start + pages m.memory.kernel_mem_pool * 4096
      ≤ m.memory.user_mem_pool.phy_addr_start
  pub aligned : m.memory.kernel_mem_pool.phy_addr_start % 4096 ≡ 0
  pub start : m.memory.kernel_vaddr_pool.vaddr_start % 4096 ≡ 0
  pub not_null : 0 < m.memory.kernel_vaddr_pool.vaddr_start
  pub below : heap_page m (heap_pages m) ≤ window
  pub tables : (i : ℕ) → i < heap_pages m → has_table m (heap_page m i) ≡ true
  pub entries :
      (i : ℕ)
      → i < heap_pages m
      → mapped i ≡ true
      → m.words (pte_ptr (heap_page m i)) ≡ entry (frame_number m (frame i) * 4096)
  pub owned :
      (i : ℕ)
      → i < heap_pages m
      → mapped i ≡ true
      → (frame i < pages m.memory.kernel_mem_pool) × (used m.memory.kernel_mem_pool (frame i) ≡ 1)
  pub apart :
      (i i' : ℕ)
      → i < heap_pages m
      → i' < heap_pages m
      → mapped i ≡ true
      → mapped i' ≡ true
      → frame i ≡ frame i'
      → i ≡ i'
  pub unmapped : (i : ℕ) → i < heap_pages m → mapped i ≡ false → is_mapped m (heap_page m i) ≡ false

abbrev pub with_page : (ℕ → Bool) → ℕ → ℕ → Bool
with_page mapped i = λ x. (x == i) || mapped x

abbrev pub with_frame : (ℕ → ℕ) → (i j : ℕ) → ℕ → ℕ
with_frame frame i j = λ x. if x == i then j else frame x

-- What one round of `map_pages` has done.
pub record OneMapped (m : Machine) (mapped : ℕ → Bool) (frame : ℕ → ℕ) (i j : ℕ) (m' : Machine)
    : Type 0 where
  pub mapping : IsMapping m' (with_page mapped i) (with_frame frame i j)
  pub vaddr_pool : m'.memory.kernel_vaddr_pool ≡ m.memory.kernel_vaddr_pool
  pub user_pool : m'.memory.user_mem_pool ≡ m.memory.user_mem_pool
  pub free : free_pages m.memory.kernel_mem_pool ≡ free_pages m'.memory.kernel_mem_pool + 1

module _ {m : Machine} {mapped : ℕ → Bool} {frame : ℕ → ℕ} (v : IsMapping m mapped frame) (i : ℕ)
    (inside : i < heap_pages m) (fresh : mapped i ≡ false) (j a : ℕ) (p' : MemPool)
    (w : PageTaken m.memory.kernel_mem_pool j a p') where
  abbrev pub held : Machine
  held = with_kernel_pool m p'

  abbrev pub after_one : Machine
  after_one = mapped_in held (heap_page m i) (frame_number m j)

  address : a ≡ frame_number m j * 4096
  address = omega (arith, w.address, v.aligned)

  frame_fits : frame_number m j * 4096 < 2 ^ 32
  frame_fits = omega (arith, w.inside, v.pool.fits, v.aligned)

  low : (x : ℕ) → x < heap_pages m → heap_page m x < window
  low x h = omega (arith, v.below)

  page_ne : (x : ℕ) → x ≢ i → page (heap_page m x) ≢ page (heap_page m i)
  page_ne x ne e = ne (omega (arith, v.start, e))

  mapping :
      (page_table_map held (heap_page m i) (frame_number m j * 4096) ≡ ok after_one)
      × PageMapped held (heap_page m i) (frame_number m j) after_one
  mapping =
      map_in_table held (heap_page m i) (frame_number m j) (low i inside) frame_fits
        (v.tables i inside) (v.unmapped i inside fresh)

  kept :
      (x : ℕ)
      → x < heap_pages m
      → x ≢ i
      → after_one.words (pte_ptr (heap_page m x)) ≡ m.words (pte_ptr (heap_page m x))
  kept x h ne = mapping.1.others (heap_page m x) (low x h) (page_ne x ne) (v.tables x h)

  same_number : (y : ℕ) → frame_number after_one y ≡ frame_number m y
  same_number y = rw w.start refl

  used_after : (y : ℕ) → used p' y ≡ (if j == y then 1 else used m.memory.kernel_mem_pool y)
  used_after y = w.bits y

  entries_after :
      (x : ℕ)
      → x < heap_pages m
      → with_page mapped i x ≡ true
      → after_one.words (pte_ptr (heap_page m x))
        ≡ entry (frame_number after_one (with_frame frame i j x) * 4096)
  entries_after x h on = elim (ℕ_discrete x i) [
    | yes e ↦
        rw (eq→== e) (rw e (mapping.1.entry_of ∙ ap (λ y. entry (y * 4096)) (sym (same_number j))))
    | no ne ↦ rw (ne→== ne) (
        kept x h ne
        ∙ v.entries x h (ground (arith, on, ne))
        ∙ ap (λ y. entry (y * 4096)) (sym (same_number (frame x))))
  ]

  owned_after :
      (x : ℕ)
      → x < heap_pages m
      → with_page mapped i x ≡ true
      → (with_frame frame i j x < pages p') × (used p' (with_frame frame i j x) ≡ 1)
  owned_after x h on = elim (ℕ_discrete x i) [
    | yes e ↦
        rw (eq→== e) (omega (arith, w.inside, w.len), used_after j ∙ rw (eq→== {a = j} refl) refl)
    | no ne ↦
        let (lt, busy) = v.owned x h (ground (arith, on, ne)) in
        rw (ne→== ne) (omega (arith, lt, w.len), ground (arith, used_after (frame x), busy))
  ]

  -- A frame in use is not the one just taken.
  other_frame : (x : ℕ) → x < heap_pages m → mapped x ≡ true → frame x ≢ j
  other_frame x h on e =
      let (lt, busy) = v.owned x h on in
      let free : used m.memory.kernel_mem_pool (frame x) ≡ 0 = rw e w.free in
      absurd (omega (arith, busy, free))

  apart_after :
      (x y : ℕ)
      → x < heap_pages m
      → y < heap_pages m
      → with_page mapped i x ≡ true
      → with_page mapped i y ≡ true
      → with_frame frame i j x ≡ with_frame frame i j y
      → x ≡ y
  apart_after x y hx hy onx ony e = elim (ℕ_discrete x i) [
    | yes ex ↦ elim (ℕ_discrete y i) [
      | yes ey ↦ ex ∙ sym ey
      | no ny ↦
          let at : j ≡ frame y = sym (rw (eq→== ex) refl) ∙ e ∙ rw (ne→== ny) refl in
          absurd (other_frame y hy (ground (arith, ony, ny)) (sym at))
    ]
    | no nx ↦ elim (ℕ_discrete y i) [
      | yes ey ↦
          let at : frame x ≡ j = sym (rw (ne→== nx) refl) ∙ e ∙ rw (eq→== ey) refl in
          absurd (other_frame x hx (ground (arith, onx, nx)) at)
      | no ny ↦
          let at : frame x ≡ frame y = sym (rw (ne→== nx) refl) ∙ e ∙ rw (ne→== ny) refl in
          v.apart x y hx hy (ground (arith, onx, nx)) (ground (arith, ony, ny)) at
    ]
  ]

  unmapped_after :
      (x : ℕ)
      → x < heap_pages m
      → with_page mapped i x ≡ false
      → is_mapped after_one (heap_page m x) ≡ false
  unmapped_after x h off =
      let ne : x ≢ i = λ e. ground (arith, off, e) in
      rw (kept x h ne) (v.unmapped x h (ground (arith, off)))

  after_one-IsMapping : IsMapping after_one (with_page mapped i) (with_frame frame i j)
  after_one-IsMapping = record {
    pool = w.pool;
    user = v.user;
    ordered = rw (w.start, w.len) v.ordered;
    aligned = rw w.start v.aligned;
    start = v.start;
    not_null = v.not_null;
    below = v.below;
    tables = λ x h. mapping.1.tables (heap_page m x) (low x h) (v.tables x h);
    entries = entries_after;
    owned = owned_after;
    apart = apart_after;
    unmapped = unmapped_after;
  }

  pub one_mapped :
      (page_table_map held (heap_page m i) a ≡ ok after_one)
      × OneMapped m mapped frame i j after_one
  one_mapped = (
    rw address mapping.0,
    record {
      mapping = after_one-IsMapping;
      vaddr_pool = refl;
      user_pool = refl;
      free = free_pages_taken m.memory.kernel_mem_pool p' j a w;
    },
  )

abbrev pub with_vaddr_pool : Machine → VirtualAddrPool → Machine
with_vaddr_pool m p = record m { memory = record m.memory { kernel_vaddr_pool = p } }

-- A change of bits in the pool of virtual addresses leaves the mapping as it is.
pub IsMapping-with_vaddr_pool :
    {m : Machine} {mapped : ℕ → Bool} {frame : ℕ → ℕ}
    → IsMapping m mapped frame
    → (p : VirtualAddrPool) → p.vaddr_start ≡ m.memory.kernel_vaddr_pool.vaddr_start
    → bits_len p.vaddr_bitmap ≡ heap_pages m
    → IsMapping (with_vaddr_pool m p) mapped frame
IsMapping-with_vaddr_pool v p start len = record {
  pool = v.pool;
  user = v.user;
  ordered = v.ordered;
  aligned = v.aligned;
  start = rw start v.start;
  not_null = rw start v.not_null;
  below = omega (arith, start, len, v.below);
  tables = λ i h. rw start (v.tables i (omega (arith, len)));
  entries = λ i h on. rw start (v.entries i (omega (arith, len)) on);
  owned = λ i h on. v.owned i (omega (arith, len)) on;
  apart = λ i j hi hj oni onj. v.apart i j (omega (arith, len)) (omega (arith, len)) oni onj;
  unmapped = λ i h off. rw start (v.unmapped i (omega (arith, len)) off);
}

-- The virtual pages that the pool of addresses has given away.
abbrev pub in_use : Machine → ℕ → Bool
in_use m i = bit m.memory.kernel_vaddr_pool.vaddr_bitmap i == 1

-- The kernel's heap: just the pages that are given away are mapped, each to a frame of its own.
pub record IsHeap (m : Machine) (frame : ℕ → ℕ) : Type 0 where
  pub addresses : IsVaddrPool m.memory.kernel_vaddr_pool
  pub mapping : IsMapping m (in_use m) frame
