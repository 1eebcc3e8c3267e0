-- ===== src/Bitmap.antt =====
-- lib/kernel/bitmap.c and bitmap.h: the bit array that the memory pools allocate from.
-- `bits` lists the array's bytes; an index outside it is a `fault`. The `int` that `bitmap_scan`
-- returns is its 32-bit pattern, so -1 is 2 ^ 32 - 1.
pub mod Byte
pub mod Laws
pub mod FindRun
pub mod Scan
use goos.Prelude.{
  ℕ, zero, suc, ◌+◌, ◌-◌, ◌/◌, ◌%◌, ◌^◌, bit_and, bit_or, none, some, List, Outcome, ok, fault,
  hang, ◌>>=◌, ◌>>◌, assert, ltb, leb, ◌==◌, if◌then◌else◌, ◌||◌, get_elem?, set, replicate, add32,
  mul32,
}

pub record Bitmap : Type 0 where
  pub btmp_bytes_len : ℕ
  pub bits : List ℕ

abbrev pub not_found : ℕ
not_found = 2 ^ 32 - 1

-- `btmp->bits[byte_idx]`
unfoldable pub read_byte : Bitmap → ℕ → Outcome ℕ
read_byte b byte_idx = elim (get_elem? b.bits byte_idx) [ none ↦ fault | some x ↦ ok x ]

-- `memset(btmp->bits, 0, btmp->btmp_bytes_len)`; the array has that many bytes.
unfoldable pub bitmap_init : Bitmap → Bitmap
bitmap_init b = record b { bits = replicate b.btmp_bytes_len 0 }

unfoldable pub bitmap_scan_test : Bitmap → ℕ → Outcome ℕ
unfolding read_byte
bitmap_scan_test b bit_idx = do
  byte ← read_byte b (bit_idx / 8)
  ok (bit_and byte (2 ^ (bit_idx % 8)))

-- The first loop of `bitmap_scan`, with the rounds left: `btmp_bytes_len - byte_idx`.
unfoldable pub skip_full : Bitmap → (rounds byte_idx : ℕ) → Outcome ℕ
unfolding read_byte
skip_full b zero byte_idx = ok byte_idx
skip_full b (suc rounds) byte_idx =
    let rest = skip_full b rounds (byte_idx + 1) in
    do byte ← read_byte b byte_idx; if byte == 0xff then rest else ok byte_idx

-- The second loop, over the bits of one byte. A byte has no bit 8, so nine rounds end it.
unfoldable pub first_zero : (byte rounds bit_off : ℕ) → Outcome ℕ
first_zero byte zero bit_off = hang
first_zero byte (suc rounds) bit_off =
    let rest = first_zero byte rounds (bit_off + 1) in
    if bit_and byte (2 ^ bit_off) == 0 then ok bit_off else rest

-- The third loop, with the rounds left: `btmp_bits_len - bit_idx`.
unfoldable pub find_run : Bitmap → (cnt rounds bit_idx count : ℕ) → Outcome ℕ
unfolding bitmap_scan_test
find_run b cnt zero bit_idx count = ok not_found
find_run b cnt (suc rounds) bit_idx count = do
  t ← bitmap_scan_test b bit_idx
  let count' = if t == 0 then count + 1 else 0
  let rest = find_run b cnt rounds (bit_idx + 1) count'
  if count' == cnt then ok ((bit_idx + 2 ^ 32 - cnt + 1) % 2 ^ 32) else rest

unfoldable pub bitmap_scan : Bitmap → ℕ → Outcome ℕ
bitmap_scan b cnt = do
  byte_idx ← skip_full b b.btmp_bytes_len 0
  assert (ltb byte_idx b.btmp_bytes_len)
  if leb b.btmp_bytes_len byte_idx then ok not_found else do
    byte ← read_byte b byte_idx
    bit_off ← first_zero byte 9 0
    let bit_idx = add32 (mul32 byte_idx 8) bit_off
    let btmp_bits_len = mul32 b.btmp_bytes_len 8
    find_run b cnt (btmp_bits_len - bit_idx) bit_idx 0

-- `~(BITMAP_MASK << bit_off)` is the int whose other bits are all set.
unfoldable pub bitmap_set : Bitmap → (bit_idx value : ℕ) → Outcome Bitmap
unfolding read_byte
bitmap_set b bit_idx value = do
  assert ((value == 0) || (value == 1))
  let byte_idx = bit_idx / 8
  let bit_off = bit_idx % 8
  byte ← read_byte b byte_idx
  let byte' =
      if value == 0
      then bit_and byte (2 ^ 32 - 1 - 2 ^ bit_off) % 2 ^ 8
      else bit_or byte (2 ^ bit_off) % 2 ^ 8
  ok (record b { bits = set b.bits byte_idx byte' })
