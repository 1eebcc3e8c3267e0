-- ===== src/Memory/Pools.antt =====
-- The pools of virtual addresses of kernel/memory.c, and the start of all pools.
use goos.Prelude.{
  ℕ, ◌+◌, ◌-◌, ◌*◌, ◌/◌, ◌^◌, ◌≤◌, ◌<◌, ◌≡◌, ◌≢◌, refl, ap, [], none, some, arith, ok, eq→==, ne→==,
  if◌then◌else◌, add32, sub32, mul32, ◌⊎◌, inl, inr,
}
use goos.Bitmap.{Bitmap, not_found, bitmap_init}
use goos.Bitmap.Laws.{IsValid, bit, bits_len, bit-bitmap_init, bitmap_init-IsValid}
use goos.Bitmap.FindRun.{found, missing, IsFree}
use goos.Bitmap.Scan.{bitmap_scan-FirstFit}
use goos.Memory.{
  VirtualAddrPool, Memory, pf_kernel, pg_size, used_mem, reserve, get_virtual_addr, vaddr_remove,
  mem_pool_init, release,
}
use goos.Memory.Ranges.{inside, set_bits-Filled}
use goos.Memory.Pages.{IsMemory, pages, used}

-- A pool whose pages have addresses below 2 ^ 32.
pub record IsVaddrPool (p : VirtualAddrPool) : Type 0 where
  pub valid : IsValid p.vaddr_bitmap
  pub fits : p.vaddr_start + bits_len p.vaddr_bitmap * 4096 < 2 ^ 32

abbrev pub taken : VirtualAddrPool → (i : ℕ) → ℕ
taken p i = bit p.vaddr_bitmap i

-- What taking the `n` pages from page `i` on has done.
pub record Reserved (p : VirtualAddrPool) (n i vaddr : ℕ) (p' : VirtualAddrPool) : Type 0 where
  pub pool : IsVaddrPool p'
  pub room : i + n ≤ bits_len p.vaddr_bitmap
  pub free : IsFree p.vaddr_bitmap i n
  pub first : (s : ℕ) → s < i → ¬ IsFree p.vaddr_bitmap s n
  pub address : vaddr ≡ p.vaddr_start + i * 4096
  pub start : p'.vaddr_start ≡ p.vaddr_start
  pub len : bits_len p'.vaddr_bitmap ≡ bits_len p.vaddr_bitmap
  pub bits : (j : ℕ) → taken p' j ≡ (if inside i n j then 1 else taken p j)

-- What giving the `n` pages from page `i` on back has done.
pub record Released (p : VirtualAddrPool) (n i : ℕ) (p' : VirtualAddrPool) : Type 0 where
  pub pool : IsVaddrPool p'
  pub start : p'.vaddr_start ≡ p.vaddr_start
  pub len : bits_len p'.vaddr_bitmap ≡ bits_len p.vaddr_bitmap
  pub bits : (j : ℕ) → taken p' j ≡ (if inside i n j then 0 else taken p j)

module _ (p : VirtualAddrPool) (v : IsVaddrPool p) (n : ℕ) where
  reserve-Reserved :
      (k : ℕ)
      → 0 < n
      → k < bits_len p.vaddr_bitmap
      → taken p k ≡ 0
      → ((reserve p n ≡ ok none)
          × ((s : ℕ) → s + n ≤ bits_len p.vaddr_bitmap → ¬ IsFree p.vaddr_bitmap s n))
        ⊎ ((i vaddr : ℕ) × (p' : VirtualAddrPool) × (reserve p n ≡ ok (some (vaddr, p')))
            × Reserved p n i vaddr p')
  unfolding reserve
  reserve-Reserved k pos within free =
      let (r, e, fit) = bitmap_scan-FirstFit v.valid n k pos within free in
      elim fit [
        | missing nowhere all ↦ inl (rw (e, eq→== nowhere) refl, all)
        | found room clear earlier ↦
            let (b', e', w) = set_bits-Filled p.vaddr_bitmap v.valid r n 1 room (omega arith) in
            let ne : r ≢ not_found = omega (arith, v.valid.small) in
            let at : add32 p.vaddr_start (mul32 r pg_size) ≡ p.vaddr_start + r * 4096 =
              omega (arith, v.fits) in
            inr (
              r,
              p.vaddr_start + r * 4096,
              record p { vaddr_bitmap = b' },
              rw (e, ne→== ne, e') (ap (λ x. ok (some (x, record p { vaddr_bitmap = b' }))) at),
              record {
                pool = record { valid = w.valid; fits = omega (arith, w.len, v.fits) };
                room = room;
                free = clear;
                first = earlier;
                address = refl;
                start = refl;
                len = ap (λ n. 8 * n) w.len;
                bits = w.bits;
              },
            )
      ]

  release-Released :
      (i : ℕ)
      → i + n ≤ bits_len p.vaddr_bitmap
      → 0 < n
      → (p' : VirtualAddrPool) × (release p (p.vaddr_start + i * 4096) n ≡ ok p')
        × Released p n i p'
  release-Released i room pos =
      let (b', e', w) = set_bits-Filled p.vaddr_bitmap v.valid i n 0 room (omega arith) in
      let at : sub32 (p.vaddr_start + i * 4096) p.vaddr_start / pg_size ≡ i =
        omega (arith, v.fits) in
      (
        record p { vaddr_bitmap = b' },
        rw (at, e') refl,
        record {
          pool = record { valid = w.valid; fits = omega (arith, w.len, v.fits) };
          start = refl;
          len = ap (λ n. 8 * n) w.len;
          bits = w.bits;
        },
      )

-- `vaddr_remove` of pages of the kernel's pool.
pub vaddr_remove-Released :
    (m : Memory)
    → IsVaddrPool m.kernel_vaddr_pool
    → (n i : ℕ) → i + n ≤ bits_len m.kernel_vaddr_pool.vaddr_bitmap
    → 0 < n
    → (p' : VirtualAddrPool) × (vaddr_remove m pf_kernel
          (m.kernel_vaddr_pool.vaddr_start + i * 4096)
          n
        ≡ ok (record m { kernel_vaddr_pool = p' }))
      × Released m.kernel_vaddr_pool n i p'
unfolding vaddr_remove
vaddr_remove-Released m v n i room pos =
    let (p', e, w) = release-Released m.kernel_vaddr_pool v n i room pos in (p', rw e refl, w)

module _ (m : Memory) (v : IsVaddrPool m.kernel_vaddr_pool) where
  -- While a page of the kernel's virtual addresses is free, `get_virtual_addr` for `n` pages takes
  -- the first free run of `n` pages and returns its address, and `vaddr_remove` of it puts every bit
  -- of the pool back; where there is no such run it returns NULL and changes nothing.
  pub get_virtual_addr-vaddr_remove :
      (n k : ℕ)
      → 0 < n
      → k < bits_len m.kernel_vaddr_pool.vaddr_bitmap
      → taken m.kernel_vaddr_pool k ≡ 0
      → ((get_virtual_addr m pf_kernel n ≡ ok (0, m))
          × ((s : ℕ)
              → s + n ≤ bits_len m.kernel_vaddr_pool.vaddr_bitmap
              → ¬ IsFree m.kernel_vaddr_pool.vaddr_bitmap s n))
        ⊎ ((i vaddr : ℕ) × (p' : VirtualAddrPool) × (get_virtual_addr m pf_kernel n
              ≡ ok (vaddr, record m { kernel_vaddr_pool = p' }))
            × Reserved m.kernel_vaddr_pool n i vaddr p'
            × ((m' : Memory) × (vaddr_remove (record m { kernel_vaddr_pool = p' }) pf_kernel vaddr n
                  ≡ ok m')
                × ((j : ℕ) → taken m'.kernel_vaddr_pool j ≡ taken m.kernel_vaddr_pool j)))
  unfolding get_virtual_addr vaddr_remove
  get_virtual_addr-vaddr_remove n k pos within free =
      elim (reserve-Reserved m.kernel_vaddr_pool v n k pos within free) [
        | inl (e, all) ↦ inl (rw e refl, all)
        | inr (i, vaddr, p', e, w) ↦
            let (p'', e', back) =
              release-Released p' w.pool n i (omega (arith, w.room, w.len)) pos in
            inr (
              i,
              vaddr,
              p',
              rw e refl,
              w,
              (
                record m { kernel_vaddr_pool = p'' },
                rw (w.address, ← w.start, e') refl,
                λ j. ground (arith, back.bits j, w.bits j, w.free j),
              ),
            )
      ]

-- The page of kernel/global.h with main's PCB, below its stack.
abbrev pub main_pcb : ℕ
main_pcb = 0xc009e000

-- The arrays of bits follow one another from 0xc009a000 on and end before main's PCB.
pub record ArraysFit (m : Memory) : Type 0 where
  pub first : m.kernel_bits ≡ 0xc009a000
  pub second : m.kernel_bits + m.kernel_mem_pool.mem_pool_bitmap.btmp_bytes_len ≤ m.user_bits
  pub third : m.user_bits + m.user_mem_pool.mem_pool_bitmap.btmp_bytes_len ≤ m.kernel_vaddr_bits
  pub last : m.kernel_vaddr_bits + m.kernel_vaddr_pool.vaddr_bitmap.btmp_bytes_len ≤ main_pcb

-- Pools as they are at the start, for a memory that ends at `all_mem`.
pub record Started (all_mem : ℕ) (m : Memory) : Type 0 where
  pub memory : IsMemory m
  pub kernel_start : m.kernel_mem_pool.phy_addr_start ≡ used_mem
  pub end : m.user_mem_pool.phy_addr_start + pages m.user_mem_pool * 4096 ≤ all_mem
  pub kernel_free : (i : ℕ) → used m.kernel_mem_pool i ≡ 0
  pub user_free : (i : ℕ) → used m.user_mem_pool i ≡ 0
  pub vaddr_pages : bits_len m.kernel_vaddr_pool.vaddr_bitmap ≡ pages m.kernel_mem_pool
  pub vaddr_free : (i : ℕ) → taken m.kernel_vaddr_pool i ≡ 0
  pub arrays : ArraysFit m

module _ (m : Memory) (all_mem : ℕ) (low : used_mem ≤ all_mem) (high : all_mem ≤ 0x15700000) where
  abbrev free_pages : ℕ
  free_pages = sub32 all_mem used_mem / pg_size

  free_pages_fit : used_mem + free_pages * 4096 ≤ all_mem
  free_pages_fit = omega (arith, low, high)

  abbrev kernel_bitmap : Bitmap
  kernel_bitmap = record { btmp_bytes_len = free_pages / 2 / 8; bits = [] }

  abbrev user_bitmap : Bitmap
  user_bitmap = record { btmp_bytes_len = (free_pages - free_pages / 2) / 8; bits = [] }

  user_start : add32 used_mem (mul32 (free_pages / 2) pg_size) ≡ used_mem + free_pages / 2 * 4096
  user_start = omega (arith, free_pages_fit, high)

  kernel_below :
      used_mem + bits_len (bitmap_init kernel_bitmap) * 4096 ≤ used_mem + free_pages / 2 * 4096
  unfolding bitmap_init
  kernel_below = omega arith

  kernel_fits : used_mem + bits_len (bitmap_init kernel_bitmap) * 4096 < 2 ^ 32
  unfolding bitmap_init
  kernel_fits = omega (arith, free_pages_fit, high)

  user_end : used_mem + free_pages / 2 * 4096 + bits_len (bitmap_init user_bitmap) * 4096 ≤ all_mem
  unfolding bitmap_init
  user_end = omega (arith, free_pages_fit, high)

  user_fits : used_mem + free_pages / 2 * 4096 + bits_len (bitmap_init user_bitmap) * 4096 < 2 ^ 32
  user_fits = omega (arith, user_end, high)

  arrays_fit : ArraysFit (mem_pool_init m all_mem)
  unfolding mem_pool_init bitmap_init
  arrays_fit =
      let few : free_pages ≤ 87381 = omega (arith, low, high) in
      record {
        first = refl;
        second = omega (arith, few);
        third = omega (arith, few);
        last = omega (arith, few);
      }

  -- With at least the 2 MB that the kernel and its page tables use, and at most 343 MB,
  -- `mem_pool_init` makes two pools
  -- of free pages, the users' above the kernel's, that reach neither into the used memory nor
  -- beyond the end of the memory, and a free pool of as many virtual pages as the kernel has; the
  -- three arrays of bits follow one another and end before main's PCB.
  pub mem_pool_init-Started : Started all_mem (mem_pool_init m all_mem)
  unfolding mem_pool_init
  mem_pool_init-Started = record {
    memory = record {
      kernel = record {
        valid = bitmap_init-IsValid kernel_bitmap (omega (arith, free_pages_fit, high));
        start = omega arith;
        fits = kernel_fits;
      };
      user = record {
        valid = bitmap_init-IsValid user_bitmap (omega (arith, free_pages_fit, high));
        start = rw user_start (omega arith);
        fits = rw user_start user_fits;
      };
      apart = rw user_start kernel_below;
    };
    kernel_start = refl;
    end = rw user_start user_end;
    kernel_free = bit-bitmap_init kernel_bitmap (omega (arith, free_pages_fit, high));
    user_free = bit-bitmap_init user_bitmap (omega (arith, free_pages_fit, high));
    vaddr_pages = refl;
    vaddr_free = bit-bitmap_init kernel_bitmap (omega (arith, free_pages_fit, high));
    arrays = arrays_fit;
  }
