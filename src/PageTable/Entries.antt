-- ===== src/PageTable/Entries.antt =====
-- Addresses and entries of page tables in kernel/memory.c as arithmetic: which entry belongs to an
-- address, and what an entry says.
use goos.Prelude.{
  ℕ, ◌+◌, ◌*◌, ◌/◌, ◌%◌, ◌^◌, ◌<◌, bit_and, bit_or, ◌≡◌, refl, ◌∙◌, ◌≢◌, true, false, arith, eq→==,
  ne→==,
}
use goos.Prelude.Masks.{bit_and_low, bit_and_high, bit_or_flags, bit_and_field}
use goos.PageTable.{pte_ptr, pde_ptr, entry, present, addr_v2p}

-- The number of the page of an address.
abbrev pub page : ℕ → ℕ
page vaddr = vaddr / 4096

pub pte_ptr_lem : (vaddr : ℕ) → vaddr < 2 ^ 32 → pte_ptr vaddr ≡ 0xffc00000 + page vaddr * 4
unfolding pte_ptr
pte_ptr_lem vaddr h =
    let dir : bit_and vaddr 0xffc00000 ≡ vaddr / 2 ^ 22 * 2 ^ 22 =
      bit_and_high 10 22 vaddr (omega arith) in
    let table : bit_and vaddr 0x003ff000 ≡ vaddr / 2 ^ 12 % 2 ^ 10 * 2 ^ 12 =
      bit_and_field 10 12 vaddr in
    rw (dir, table) (omega arith)

pub pde_ptr_lem : (vaddr : ℕ) → vaddr < 2 ^ 32 → pde_ptr vaddr ≡ 0xfffff000 + vaddr / 2 ^ 22 * 4
unfolding pde_ptr
pde_ptr_lem vaddr h =
    let dir : bit_and vaddr 0xffc00000 ≡ vaddr / 2 ^ 22 * 2 ^ 22 =
      bit_and_high 10 22 vaddr (omega arith) in
    rw dir (omega arith)

-- The entry of a page: its address and the three flags.
pub entry_lem : (a : ℕ) → entry (a * 4096) ≡ a * 4096 + 7
unfolding entry
entry_lem a =
    let user : bit_or (a * 4096) 4 ≡ (a * 1024 + 1) * 4 =
      bit_or_flags 12 a 4 (omega arith) ∙ omega arith in
    let write : bit_or ((a * 1024 + 1) * 4) 2 ≡ (a * 2048 + 3) * 2 =
      bit_or_flags 2 (a * 1024 + 1) 2 (omega arith) ∙ omega arith in
    let there : bit_or ((a * 2048 + 3) * 2) 1 ≡ a * 4096 + 7 =
      bit_or_flags 1 (a * 2048 + 3) 1 (omega arith) ∙ omega arith in
    rw (user, write, there) refl

pub present_entry : (a : ℕ) → present (entry (a * 4096)) ≡ true
present_entry a =
    rw (entry_lem a, bit_and_low 1 (a * 4096 + 7))
      (rw (ne→== {a = (a * 4096 + 7) % 2} {b = 0} (omega arith)) refl)

pub frame_of_entry : (a : ℕ) → a * 4096 < 2 ^ 32 → bit_and (entry (a * 4096)) 0xfffff000 ≡ a * 4096
frame_of_entry a h =
    rw (entry_lem a) (bit_and_high 20 12 (a * 4096 + 7) (omega arith) ∙ omega arith)

pub not_present_removed : (w : ℕ) → w < 2 ^ 32 → present (bit_and w 0xfffffffe) ≡ false
not_present_removed w h =
    rw (bit_and_high 31 1 w (omega arith), bit_and_low 1 (w / 2 ^ 1 * 2 ^ 1))
      (rw (eq→== {a = w / 2 * 2 % 2} {b = 0} (omega arith)) refl)

-- `addr_v2p` of an address on a page whose entry is that of frame `a`.
pub addr_v2p_lem :
    (words : ℕ → ℕ) (vaddr a : ℕ)
    → vaddr < 2 ^ 32
    → a * 4096 < 2 ^ 32
    → words (0xffc00000 + page vaddr * 4) ≡ entry (a * 4096)
    → addr_v2p words vaddr ≡ a * 4096 + vaddr % 4096
unfolding addr_v2p
addr_v2p_lem words vaddr a h ha e =
    rw (pte_ptr_lem vaddr h, e, frame_of_entry a ha, bit_and_low 12 vaddr) (omega arith)

-- Addresses below the window of the page tables.
abbrev pub window : ℕ
window = 0xffc00000

pub pte_ne : (u v : ℕ) → u < window → v < window → page u ≢ page v → pte_ptr u ≢ pte_ptr v
pte_ne u v hu hv ne e =
    ne (omega (arith, pte_ptr_lem u (omega arith), pte_ptr_lem v (omega arith), e))

pub pde_ne-pte : (u w : ℕ) → u < window → w < window → pde_ptr u ≢ pte_ptr w
pde_ne-pte u w hu hw e =
    absurd (omega (arith, pde_ptr_lem u (omega arith), pte_ptr_lem w (omega arith), e))
