-- ===== src/Process/Taken.antt =====
-- The pages that `process_execute` of userprog/process.c takes.
use goos.Prelude.{
  ℕ, ◌+◌, ◌≤◌, ◌<◌, ◌≡◌, ◌≢◌, inl, inr, refl, ap, ◌∙◌, [], true, false, arith, ok, ne→==,
  ℕ_discrete, Bool-cases,
}
use goos.Bitmap.{bitmap_init}
use goos.Memory.{VirtualAddrPool, pf_kernel}
use goos.Memory.Ranges.{inside}
use goos.PageTable.{Machine, get_pages}
use goos.PageTable.Count.{free_pages}
use goos.PageTable.Kernel.{IsHeap, heap_pages, heap_page, in_use, frame_number}
use goos.PageTable.Alloc.{Allocated}
use goos.PageTable.Cleared.{get_pages-Allocated}
use goos.Process.{create_page_dir, create_user_vaddr_bitmap, user_vaddr_start, user_bitmap_len}
use goos.Process.Directory.{IsDirectory, create_page_dir-IsDirectory}

-- The page that stays free, of three that are 23 pages apart, where one page and a run of 23 are taken.
one_free : (r i j : ℕ) → (x : ℕ) × (r ≤ x) × (x < r + 47) × (x ≢ i) × (inside j 23 x ≡ false)
one_free r i j = elim (Bool-cases (inside j 23 r)) [
  | inl on ↦ elim (ℕ_discrete (r + 23) i) [
    | yes e ↦ (r + 46, omega arith, omega arith, omega (arith, e), ground (arith, on))
    | no ne ↦ (r + 23, omega arith, omega arith, ne, ground (arith, on))
  ]
  | inr off ↦ elim (ℕ_discrete r i) [
    | no ne ↦ (r, omega arith, omega arith, ne, off)
    | yes e ↦ elim (Bool-cases (inside j 23 (r + 23))) [
      | inl on ↦ (r + 46, omega arith, omega arith, omega (arith, e), ground (arith, on))
      | inr far ↦ (r + 23, omega arith, omega arith, omega (arith, e), far)
    ]
  ]
]

-- A run of 23 pages of which one page is not.
one_run : (r i : ℕ) → (s : ℕ) × (r ≤ s) × (s ≤ r + 23) × (inside s 23 i ≡ false)
one_run r i = elim (Bool-cases (inside r 23 i)) [
  | inr off ↦ (r, omega arith, omega arith, off)
  | inl on ↦ (r + 23, omega arith, omega arith, ground (arith, on))
]

not_taken :
    {m m' : Machine} {frame frame' : ℕ → ℕ} {n i : ℕ}
    → Allocated m frame n i m' frame'
    → (x : ℕ) → in_use m x ≡ false
    → inside i n x ≡ false
    → in_use m' x ≡ false
not_taken w x free off = w.used x ∙ rw (off, free) refl

not_one : (x i : ℕ) → x ≢ i → inside i 1 x ≡ false
not_one x i ne = ground (arith, ne)

in_first : (r x : ℕ) → inside r 1 x ≡ true → inside r 47 x ≡ true
in_first r x on = ground (arith, on)

in_run : (r s x : ℕ) → r ≤ s → s ≤ r + 23 → inside s 23 x ≡ true → inside r 47 x ≡ true
in_run r s x lo hi on = ground (arith, on, lo, hi)

inside_of : (r x : ℕ) → r ≤ x → x < r + 47 → inside r 47 x ≡ true
inside_of r x lo hi = ground arith

-- The pages that a new process takes: `i` for its task, a run for its bits, and `d` for its directory.
pub record ProcessPages (m : Machine) (i : ℕ) (m₁ : Machine) (pool : VirtualAddrPool) (m₂ : Machine)
    (p : ℕ) (m₃ : Machine) : Type 0 where
  pub task : get_pages m pf_kernel 1 ≡ ok (heap_page m i, m₁)
  pub within : i < heap_pages m
  pub fresh : in_use m i ≡ false
  pub bits : create_user_vaddr_bitmap m₁ ≡ ok (pool, m₂)
  pub directory : create_page_dir m₂ ≡ ok (p, m₃)
  pub frame : ℕ → ℕ
  pub own : ℕ
  pub heap : IsHeap m₃ frame
  pub shared : IsDirectory m₃ p own

abbrev pub free_pool : VirtualAddrPool
free_pool = record {
  vaddr_bitmap = bitmap_init (record { btmp_bytes_len = user_bitmap_len; bits = [] });
  vaddr_start = user_vaddr_start;
}

pub process_pages :
    (m : Machine) (frame : ℕ → ℕ)
    → IsHeap m frame
    → (r : ℕ) → r + 47 ≤ heap_pages m
    → ((x : ℕ) → inside r 47 x ≡ true → in_use m x ≡ false)
    → 25 ≤ free_pages m.memory.kernel_mem_pool
    → (i : ℕ) × (m₁ m₂ m₃ : Machine) × (p : ℕ) × ProcessPages m i m₁ free_pool m₂ p m₃
unfolding create_user_vaddr_bitmap
process_pages m frame v r room unused enough =
    let (i, m₁, frame₁, e₁, w₁) =
      get_pages-Allocated m frame v 1 r (omega arith) (omega arith) (omega (arith, room))
        (λ x on. unused x (in_first r x on)) (omega (arith, enough)) in
    let (s, lo, hi, apart) = one_run r i in
    let unused₁ : (x : ℕ) → inside s 23 x ≡ true → in_use m₁ x ≡ false = λ x on.
      let other : x ≢ i = λ e. let off = ap (inside s 23) e ∙ apart in cc (on, off) in
      not_taken w₁ x (unused x (in_run r s x lo hi on)) (not_one x i other) in
    let (j, m₂, frame₂, e₂, w₂) =
      get_pages-Allocated m₁ frame₁ w₁.heap 23 s (omega arith) (omega arith)
        (omega (arith, hi, room, w₁.pages)) unused₁ (omega (arith, enough, w₁.free)) in
    let (x, from, to, not_task, not_bits) = one_free r i j in
    let free : in_use m₂ x ≡ false =
      let before = unused x (inside_of r x from to) in
      not_taken w₂ x (not_taken w₁ x before (not_one x i not_task)) not_bits in
    let (d, m₃, frame₃, e₃, _, _, heap, shared) =
      create_page_dir-IsDirectory m₂ frame₂ w₂.heap x (omega (arith, to, room, w₁.pages, w₂.pages))
        free (omega (arith, enough, w₁.free, w₂.free)) in
    let not_null : heap_page m₁ j ≢ 0 = omega (arith, v.mapping.not_null, w₁.start) in
    (
      i,
      m₁,
      m₂,
      m₃,
      heap_page m₂ d,
      record {
        task = e₁;
        within = omega (arith, w₁.room);
        fresh = w₁.fresh i (ground arith);
        bits = rw e₂ (rw (ne→== not_null) refl);
        directory = e₃;
        frame = frame₃;
        own = frame_number m₃ (frame₃ d);
        heap = heap;
        shared = shared;
      },
    )
