-- ===== src/Tests/Bitmaps.antt =====
-- lib/kernel/bitmap.c on three bytes: one full, one with bits 0 and 2 set, one clear.
use goos.Prelude.{ℕ, zero, suc, ◌<◌, ◌≡◌, refl, [], ◌∷◌, arith, ok, panic, fault, get_or}
use goos.Bitmap.{Bitmap, not_found, bitmap_scan, bitmap_set, skip_full, first_zero, find_run}
use goos.Bitmap.Laws.{IsValid, Written, bitmap_set_lem}
use goos.Bitmap.FindRun.{FirstFit}
use goos.Bitmap.Scan.{bitmap_scan-FirstFit, bitmap_scan-full, UsedBelow}

abbrev three_bytes : Bitmap
three_bytes = record { btmp_bytes_len = 3; bits = 0xff ∷ 0x05 ∷ 0x00 ∷ [] }

abbrev one_full : Bitmap
one_full = record { btmp_bytes_len = 1; bits = 0xff ∷ [] }

small_byte : (i : ℕ) → get_or three_bytes.bits i 0 < 256
small_byte zero = omega arith
small_byte (suc zero) = omega arith
small_byte (suc (suc zero)) = omega arith
small_byte (suc (suc (suc i))) = omega arith

three_bytes-IsValid : IsValid three_bytes
three_bytes-IsValid = record { size = refl; byte = small_byte; small = omega arith }

full_byte : (i : ℕ) → get_or one_full.bits i 0 < 256
full_byte zero = omega arith
full_byte (suc i) = omega arith

one_full-IsValid : IsValid one_full
one_full-IsValid = record { size = refl; byte = full_byte; small = omega arith }

one_full_used : UsedBelow one_full 8
one_full_used zero h = refl
one_full_used (suc zero) h = refl
one_full_used (suc (suc zero)) h = refl
one_full_used (suc (suc (suc zero))) h = refl
one_full_used (suc (suc (suc (suc zero)))) h = refl
one_full_used (suc (suc (suc (suc (suc zero))))) h = refl
one_full_used (suc (suc (suc (suc (suc (suc zero)))))) h = refl
one_full_used (suc (suc (suc (suc (suc (suc (suc zero))))))) h = refl
one_full_used (suc (suc (suc (suc (suc (suc (suc (suc k)))))))) h = absurd (omega arith)

-- One free bit is found between two that are set, three in a row behind them; fourteen nowhere.
scans :
    (bitmap_scan three_bytes 1 ≡ ok 9)
    × (bitmap_scan three_bytes 3 ≡ ok 11)
    × (bitmap_scan three_bytes 14 ≡ ok not_found)
    × (bitmap_scan one_full 1 ≡ panic)
unfolding bitmap_scan skip_full first_zero find_run
scans = (refl, refl, refl, refl)

sets :
    (bitmap_set three_bytes 9 1 ≡ ok (record three_bytes { bits = 0xff ∷ 0x07 ∷ 0x00 ∷ [] }))
    × (bitmap_set three_bytes 7 0 ≡ ok (record three_bytes { bits = 0x7f ∷ 0x05 ∷ 0x00 ∷ [] }))
    × (bitmap_set three_bytes 24 1 ≡ fault)
unfolding bitmap_set
sets = (refl, refl, refl)

bitmap_scan-FirstFit_example :
    (r : ℕ) × (bitmap_scan three_bytes 3 ≡ ok r) × FirstFit three_bytes 3 r
bitmap_scan-FirstFit_example =
    bitmap_scan-FirstFit three_bytes-IsValid 3 9 (omega arith) (omega arith) refl

bitmap_scan-full_example : bitmap_scan one_full 2 ≡ panic
bitmap_scan-full_example = bitmap_scan-full one_full-IsValid 2 one_full_used

bitmap_set_lem_example :
    (b' : Bitmap) × (bitmap_set three_bytes 9 1 ≡ ok b') × Written three_bytes 9 1 b'
bitmap_set_lem_example = bitmap_set_lem three_bytes-IsValid 9 1 (omega arith) (omega arith)
