-- ===== src/Process/Entry.antt =====
-- How a new process of userprog/process.c enters user mode: with a stack of its own.
use goos.Prelude.{
  ℕ, ◌+◌, ◌-◌, ◌*◌, ◌/◌, ◌%◌, ◌^◌, ◌≤◌, ◌<◌, ◌≡◌, ◌≢◌, refl, ap, ◌∙◌, arith, ne→==, ok, true, false,
  sub32,
}
use goos.Bitmap.Laws.{IsValid, bits_len, bitmap_set_lem}
use goos.Bitmap.{Bitmap, bitmap_set}
use goos.Memory.{Memory, pf_user, pg_size}
use goos.Memory.Pages.{IsPool, pages, used, palloc-PageTaken}
use goos.PageTable.{
  Machine, addr_v2p, mark_page, take_page, get_a_page, page_table_map, with_user_pool,
}
use goos.PageTable.Entries.{window}
use goos.PageTable.Map.{has_table, is_mapped, page_table_map-PageMapped}
use goos.Process.{IntrStack}

-- The memory is ready for a page at `vaddr` of the running process: the page is not mapped, a frame is
-- free for it, and one for a table.
pub record IsReady (m : Machine) (vaddr ku kk : ℕ) : Type 0 where
  pub addresses : IsValid m.memory.userprog_vaddr_pool.vaddr_bitmap
  pub above : m.memory.userprog_vaddr_pool.vaddr_start ≤ vaddr
  pub covered :
      (vaddr - m.memory.userprog_vaddr_pool.vaddr_start) / pg_size
      < bits_len m.memory.userprog_vaddr_pool.vaddr_bitmap
  pub below : vaddr < window
  pub user : IsPool m.memory.user_mem_pool
  pub user_aligned : m.memory.user_mem_pool.phy_addr_start % 4096 ≡ 0
  pub user_inside : ku < pages m.memory.user_mem_pool
  pub user_free : used m.memory.user_mem_pool ku ≡ 0
  pub user_start : 0 < m.memory.user_mem_pool.phy_addr_start
  pub kernel : IsPool m.memory.kernel_mem_pool
  pub kernel_aligned : m.memory.kernel_mem_pool.phy_addr_start % 4096 ≡ 0
  pub kernel_inside : kk < pages m.memory.kernel_mem_pool
  pub kernel_free : used m.memory.kernel_mem_pool kk ≡ 0
  pub unmapped : has_table m vaddr ≡ true → is_mapped m vaddr ≡ false

-- The page has a frame from the user pool that was free.
pub record HasPage (m : Machine) (vaddr : ℕ) (m' : Machine) : Type 0 where
  pub frame : ℕ
  pub inside : frame < pages m.memory.user_mem_pool
  pub free : used m.memory.user_mem_pool frame ≡ 0
  pub translation :
      addr_v2p m'.words vaddr ≡ m.memory.user_mem_pool.phy_addr_start + frame * 4096 + vaddr % 4096

mark_user :
    (pgdir : ℕ) (m : Memory) (vaddr i : ℕ) (b : Bitmap)
    → pgdir ≢ 0
    → sub32 vaddr m.userprog_vaddr_pool.vaddr_start / pg_size ≡ i
    → bitmap_set m.userprog_vaddr_pool.vaddr_bitmap i 1 ≡ ok b
    → mark_page pgdir m pf_user vaddr
      ≡ ok (record m { userprog_vaddr_pool = record m.userprog_vaddr_pool { vaddr_bitmap = b } })
mark_user pgdir m vaddr i b process index set_bit = rw (ne→== process, index) (rw set_bit refl)

-- The parts of `get_a_page` in a row.
get_a_page_runs :
    (pgdir : ℕ) (m : Machine) (vaddr a : ℕ) (memory : Memory) (m₁ m₂ : Machine)
    → mark_page pgdir m.memory pf_user vaddr ≡ ok memory
    → take_page (record m { memory = memory }) pf_user ≡ ok (a, m₁)
    → a ≢ 0
    → page_table_map m₁ vaddr a ≡ ok m₂
    → get_a_page pgdir m pf_user vaddr ≡ ok (vaddr, m₂)
unfolding get_a_page
get_a_page_runs pgdir m vaddr a memory m₁ m₂ marked got not_null mapped =
    rw marked (rw got (rw (ne→== not_null) (rw mapped refl)))

pub get_a_page-HasPage :
    (pgdir : ℕ) (m : Machine) (vaddr ku kk : ℕ)
    → pgdir ≢ 0
    → IsReady m vaddr ku kk
    → (m' : Machine) × (get_a_page pgdir m pf_user vaddr ≡ ok (vaddr, m')) × HasPage m vaddr m'
unfolding take_page
get_a_page-HasPage pgdir m vaddr ku kk process r =
    let pool = m.memory.userprog_vaddr_pool in
    let i = (vaddr - pool.vaddr_start) / pg_size in
    let index : sub32 vaddr pool.vaddr_start / pg_size ≡ i =
      ap (λ x. x / pg_size) (omega (arith, r.above, r.below)) in
    let (b', set_bit, _) = bitmap_set_lem r.addresses i 1 r.covered (omega arith) in
    let (j, a, p', got, w) = palloc-PageTaken r.user ku r.user_inside r.user_free in
    let memory = record m.memory { userprog_vaddr_pool = record pool { vaddr_bitmap = b' } } in
    let m₁ = with_user_pool (record m { memory = memory }) p' in
    let number = m.memory.user_mem_pool.phy_addr_start / 4096 + j in
    let at : a ≡ number * 4096 = omega (arith, w.address, r.user_aligned) in
    let fits : number * 4096 < 2 ^ 32 = omega (arith, w.inside, r.user.fits, r.user_aligned) in
    let (m', mapped, pm) =
      page_table_map-PageMapped m₁ vaddr number r.below fits r.kernel r.kernel_aligned kk
        r.kernel_inside r.kernel_free r.unmapped in
    let not_null : a ≢ 0 = omega (arith, w.address, r.user_start) in
    (
      m',
      get_a_page_runs pgdir m vaddr a memory m₁ m'
          (mark_user pgdir m.memory vaddr i b' process index set_bit) (rw got refl) not_null
          (ap (page_table_map m₁ vaddr) at ∙ mapped),
      record {
        frame = j;
        inside = w.inside;
        free = w.free;
        translation = pm.translation vaddr refl ∙ omega (arith, at, w.address);
      },
    )

-- The frame for user mode: the function, the top of the stack, selectors of level 3, interrupts on, and
-- no access to ports.
pub record Enters (s : IntrStack) (function : ℕ) : Type 0 where
  pub begins : s.eip ≡ function
  pub top : s.esp ≡ 0xc0000000
  pub levels : (s.cs % 4 ≡ 3) × (s.ss % 4 ≡ 3) × (s.ds % 4 ≡ 3)
  pub interrupts : s.eflags / 2 ^ 9 % 2 ≡ 1
  pub ports : s.eflags / 2 ^ 12 % 4 ≡ 0
