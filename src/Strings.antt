-- ===== src/Strings.antt =====
-- lib/string.c: the routines on bytes and strings, over a memory that gives each address its byte.
-- Pointers are numbers, which do not wrap round but in `strcmp`, and NULL is 0. `char` is signed on x86, so a byte
-- from 0x80 on is negative. A loop that ends at a byte of the memory runs on fuel: `hang` says that
-- it has not ended.
pub mod Blocks
pub mod Scans
pub mod Compare
use goos.Prelude.{
  ℕ, zero, suc, ◌+◌, ◌-◌, ◌%◌, Bool, not, Outcome, ok, hang, ◌>>=◌, ◌>>◌, assert, ltb, ◌==◌, ◌&&◌,
  if◌then◌else◌, add32,
}

abbrev pub Bytes : Type 0
Bytes = ℕ → ℕ

-- `*p = value`
abbrev pub poke : Bytes → (p value : ℕ) → Bytes
poke m p value = λ a. if a == p then value else m a

-- The results -1, 0 and 1 of a comparison.
pub data Compared : Type 0 where
  less equal greater : Compared

-- `x < y` on two values of type `char`.
abbrev pub char_less : ℕ → ℕ → Bool
char_less x y = ltb ((x + 0x80) % 0x100) ((y + 0x80) % 0x100)

-- `x == ch` for a `char` and a `uint8_t`: no negative value is equal to one of 0x80 on.
abbrev pub char_is : (x ch : ℕ) → Bool
char_is x ch = ltb x 0x80 && (x == ch)

unfoldable pub fill : Bytes → (dst value size : ℕ) → Bytes
fill m dst value zero = m
fill m dst value (suc size) = fill (poke m dst value) (dst + 1) value size

unfoldable pub memset : Bytes → (dst value size : ℕ) → Outcome Bytes
memset m dst value size = do assert (not (dst == 0)); ok (fill m dst value size)

unfoldable pub copy : Bytes → (dst src size : ℕ) → Bytes
copy m dst src zero = m
copy m dst src (suc size) = copy (poke m dst (m src)) (dst + 1) (src + 1) size

unfoldable pub memcpy : Bytes → (dst src size : ℕ) → Outcome Bytes
memcpy m dst src size = do assert (not (dst == 0) && not (src == 0)); ok (copy m dst src size)

unfoldable pub compare_bytes : Bytes → (a b size : ℕ) → Compared
compare_bytes m a b zero = equal
compare_bytes m a b (suc size) =
    let rest = compare_bytes m (a + 1) (b + 1) size in
    if char_less (m b) (m a) then greater else if char_less (m a) (m b) then less else rest

unfoldable pub memcmp : Bytes → (a b size : ℕ) → Outcome Compared
memcmp m a b size = do assert (not (a == 0) && not (b == 0)); ok (compare_bytes m a b size)

-- The loop of `strcpy`, and the second one of `strcat`; the result is also where it ends.
unfoldable pub copy_string : (fuel : ℕ) → Bytes → (dst src : ℕ) → Outcome (ℕ × Bytes)
copy_string zero m dst src = hang
copy_string (suc fuel) m dst src =
    let rest = copy_string fuel (poke m dst (m src)) (dst + 1) (src + 1) in
    if m src == 0 then ok (dst, m) else rest

unfoldable pub strcpy : (fuel : ℕ) → Bytes → (dst src : ℕ) → Outcome (ℕ × Bytes)
strcpy fuel m dst src = do
  assert (not (dst == 0) && not (src == 0))
  (_, m') ← copy_string fuel m dst src
  ok (dst, m')

-- Where the string from `p` on ends.
unfoldable pub end_of : (fuel : ℕ) → Bytes → (p : ℕ) → Outcome ℕ
end_of zero m p = hang
end_of (suc fuel) m p = let rest = end_of fuel m (p + 1) in if m p == 0 then ok p else rest

-- `p` is one behind the end when the loop `while (*p++);` is done.
unfoldable pub strlen : (fuel : ℕ) → Bytes → (str : ℕ) → Outcome ℕ
strlen fuel m str = do assert (not (str == 0)); p ← end_of fuel m str; ok (p + 1 - str - 1)

-- The loop of `strcmp` tests the pointer `a`, not the byte, and so the pointers wrap round here.
unfoldable pub differ_at : (fuel : ℕ) → Bytes → (a b : ℕ) → Outcome (ℕ × ℕ)
differ_at zero m a b = hang
differ_at (suc fuel) m a b =
    let rest = differ_at fuel m (add32 a 1) (add32 b 1) in
    if not (a == 0) && (m a == m b) then rest else ok (a, b)

unfoldable pub strcmp : (fuel : ℕ) → Bytes → (a b : ℕ) → Outcome Compared
strcmp fuel m a b = do
  assert (not (a == 0) && not (b == 0))
  (a', b') ← differ_at fuel m a b
  ok (if char_less (m a') (m b') then less else if char_less (m b') (m a') then greater else equal)

unfoldable pub find_char : (fuel : ℕ) → Bytes → (str ch : ℕ) → Outcome ℕ
find_char zero m str ch = hang
find_char (suc fuel) m str ch =
    let rest = find_char fuel m (str + 1) ch in
    if m str == 0 then ok 0 else if char_is (m str) ch then ok str else rest

unfoldable pub strchr : (fuel : ℕ) → Bytes → (str ch : ℕ) → Outcome ℕ
strchr fuel m str ch = do assert (not (str == 0)); find_char fuel m str ch

unfoldable pub find_last : (fuel : ℕ) → Bytes → (str ch last_appear : ℕ) → Outcome ℕ
find_last zero m str ch last_appear = hang
find_last (suc fuel) m str ch last_appear =
    let rest = find_last fuel m (str + 1) ch (if char_is (m str) ch then str else last_appear) in
    if m str == 0 then ok last_appear else rest

unfoldable pub strrchr : (fuel : ℕ) → Bytes → (str ch : ℕ) → Outcome ℕ
strrchr fuel m str ch = do assert (not (str == 0)); find_last fuel m str ch 0

-- The result is the end of the first string, where the second one begins.
unfoldable pub strcat : (fuel : ℕ) → Bytes → (dst src : ℕ) → Outcome (ℕ × Bytes)
strcat fuel m dst src = do
  assert (not (dst == 0) && not (src == 0))
  dst' ← end_of fuel m dst
  (end, m') ← copy_string fuel m dst' src
  ok (dst', poke m' end 0)

unfoldable pub count_char : (fuel : ℕ) → Bytes → (p ch cnt : ℕ) → Outcome ℕ
count_char zero m p ch cnt = hang
count_char (suc fuel) m p ch cnt =
    let rest = count_char fuel m (p + 1) ch (if char_is (m p) ch then cnt + 1 else cnt) in
    if m p == 0 then ok cnt else rest

unfoldable pub strchrs : (fuel : ℕ) → Bytes → (str ch : ℕ) → Outcome ℕ
strchrs fuel m str ch = do assert (not (str == 0)); count_char fuel m str ch 0
