-- ===== src/Process/Directory.antt =====
-- The page directory of a new process.
use goos.Prelude.{
  ℕ, ◌+◌, ◌*◌, ◌≤◌, ◌<◌, ◌≡◌, ◌≢◌, refl, sym, ap, ◌∙◌, arith, eq→==, ne→==, ok, true, false, mul32,
}
use goos.Memory.{pg_size}
use goos.PageTable.{Machine, with_words, store, clear, entry, addr_v2p, get_pages}
use goos.PageTable.Entries.{window}
use goos.PageTable.Count.{free_pages}
use goos.PageTable.Kernel.{IsHeap, heap_pages, heap_page, in_use, frame_number}
use goos.PageTable.Alloc.{malloc_one}
use goos.PageTable.Unmap.{frame_address}
use goos.PageTable.Words.{IsHeap-with_words}
use goos.Process.{copy_words, create_page_dir}

-- The directory at `p` shares the kernel's part of the one in use.
pub record IsDirectory (m : Machine) (p own : ℕ) : Type 0 where
  pub shared : (e : ℕ) → 768 ≤ e → e < 1023 → m.words (p + e * 4) ≡ m.words (0xfffff000 + e * 4)
  pub empty : (e : ℕ) → e < 768 → m.words (p + e * 4) ≡ 0
  pub window_of : m.words (p + 1023 * 4) ≡ entry (own * 4096)

-- Where the invariant of the kernel's heap holds, and a virtual page and a frame are free,
-- `create_page_dir` returns a fresh page of the kernel. It maps nothing for the process, agrees with the
-- directory in use on the entries of the kernel from 768 to 1022, and its last entry is its own frame.
-- The invariant holds again.
pub create_page_dir-IsDirectory :
    (m : Machine) (frame : ℕ → ℕ)
    → IsHeap m frame
    → (k : ℕ) → k < heap_pages m
    → in_use m k ≡ false
    → 1 ≤ free_pages m.memory.kernel_mem_pool
    → (i : ℕ) × (m' : Machine) × (frame' : ℕ → ℕ) × (create_page_dir m ≡ ok (heap_page m i, m'))
      × (i < heap_pages m)
      × (in_use m i ≡ false)
      × IsHeap m' frame'
      × IsDirectory m' (heap_page m i) (frame_number m' (frame' i))
unfolding create_page_dir get_pages
create_page_dir-IsDirectory m frame v k within free enough =
    let (i, m₁, frames, got, w) = malloc_one m frame v k within free enough in
    let p = heap_page m i in
    let low : p + 4096 ≤ window = omega (arith, w.room, v.mapping.below) in
    let not_null : p ≢ 0 = omega (arith, v.mapping.not_null) in
    let zeros = clear m₁.words p (mul32 1 pg_size) in
    let shared = copy_words zeros (p + 0x300 * 4) (0xfffff000 + 0x300 * 4) 1024 in
    let phy = addr_v2p shared p in
    let final = store shared (p + 1023 * 4) (entry phy) in
    let heap₁ : IsHeap (with_words m₁ shared) frames =
      IsHeap-with_words w.heap shared (λ x h. ground (arith, low)) in
    let there : in_use m₁ i ≡ true = w.used i ∙ ground arith in
    let same_page : heap_page m₁ i ≡ p = omega (arith, w.start) in
    let own : phy ≡ frame_number m₁ (frames i) * 4096 =
      ap (addr_v2p shared) (sym same_page)
      ∙ frame_address heap₁.mapping i (omega (arith, w.room, w.pages)) there
      ∙ omega (arith, heap₁.mapping.aligned) in
    (
      i,
      with_words m₁ final,
      frames,
      rw got (rw (ne→== not_null) refl),
      omega (arith, w.room),
      w.fresh i (ground arith),
      IsHeap-with_words w.heap final (λ x h. ground (arith, low)),
      record {
        shared = λ e lo hi. ground (arith, low, lo, hi);
        empty = λ e lo. ground (arith, low, lo);
        window_of = rw (eq→== {a = p + 1023 * 4} refl) (ap entry own);
      },
    )
