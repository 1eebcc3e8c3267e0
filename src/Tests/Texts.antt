-- ===== src/Tests/Texts.antt =====
-- lib/string.c on a memory with the strings "abca" at 0x10 and "abca" at 0x20.
use goos.Prelude.{
  ℕ, zero, suc, ◌+◌, ◌-◌, ◌<◌, ◌≡◌, ◌↔◌, refl, List, [], ◌∷◌, arith, ok, if◌then◌else◌, get_or, ltb,
}
use goos.Strings.{Bytes, equal, memcmp, strcmp}
use goos.Strings.Blocks.{memcmp_iff}
use goos.Strings.Scans.{IsString}
use goos.Strings.Compare.{SameToEnd, strcmp_iff}

abbrev text : List ℕ
text = 97 ∷ 98 ∷ 99 ∷ 97 ∷ []

abbrev bytes : Bytes
bytes a = if ltb a 0x20 then get_or text (a - 0x10) 0 else get_or text (a - 0x20) 0

small_text : (i : ℕ) → get_or text i 0 < 0x100
small_text zero = omega arith
small_text (suc zero) = omega arith
small_text (suc (suc zero)) = omega arith
small_text (suc (suc (suc zero))) = omega arith
small_text (suc (suc (suc (suc i)))) = omega arith

bytes_small : (p : ℕ) → bytes p < 0x100
bytes_small p = ground (arith, small_text (p - 0x10), small_text (p - 0x20))

text-IsString : IsString bytes 0x10 text
text-IsString =
    (refl, omega arith, (refl, omega arith, (refl, omega arith, (refl, omega arith, refl))))

memcmp_iff_example :
    (memcmp bytes 0x10 0x20 4 ≡ ok equal) ↔ ((i : ℕ) → i < 4 → bytes (0x10 + i) ≡ bytes (0x20 + i))
memcmp_iff_example = memcmp_iff bytes 0x10 0x20 4 bytes_small (omega arith) (omega arith)

-- The last two bytes of the memory, the byte at 0, and those from 0x10 on are 0.
abbrev ending : Bytes
ending a = if ltb a 7 then a else 0

ending_small : (p : ℕ) → ending p < 0x100
ending_small p = ground arith

strcmp_iff_example : (strcmp 4 ending 0xfffffffe 0x10 ≡ ok equal) ↔ SameToEnd ending 0xfffffffe 0x10
strcmp_iff_example =
    strcmp_iff ending 4 0xfffffffe 0x10 ending_small (omega arith) (omega arith) (omega arith)
      (omega arith) (omega arith)
