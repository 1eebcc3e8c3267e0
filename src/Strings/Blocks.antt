-- ===== src/Strings/Blocks.antt =====
-- `memset`, `memcpy` and `memcmp` of lib/string.c: every byte of the memory afterwards.
use goos.Prelude.{
  ℕ, zero, suc, ◌+◌, ◌-◌, ◌≤◌, ◌<◌, ◌≡◌, ◌≢◌, refl, sym, ap, ◌∙◌, ◌⊎◌, inl, inr, Bool, true, false,
  arith, ok, ltb, leb, ne→==, ◌&&◌, if◌then◌else◌, ◌↔◌, ℕ_discrete, Bool-cases,
}
use goos.Strings.{
  Bytes, poke, char_less, Compared, equal, fill, memset, copy, memcpy, compare_bytes, memcmp,
}

abbrev pub in_block : (p size a : ℕ) → Bool
in_block p size a = leb p a && ltb a (p + size)

fill_lem :
    (m : Bytes) (dst value size a : ℕ)
    → fill m dst value size a ≡ (if in_block dst size a then value else m a)
unfolding fill
fill_lem m dst value zero a = ground arith
fill_lem m dst value (suc size) a =
    ground (arith, fill_lem (poke m dst value) (dst + 1) value size a)

-- `memset` writes the value to each of the `size` bytes from `dst` on, and to no other byte.
pub memset_lem :
    (m : Bytes) (dst value size : ℕ)
    → dst ≢ 0
    → (m' : Bytes) × (memset m dst value size ≡ ok m')
      × ((a : ℕ) → m' a ≡ (if in_block dst size a then value else m a))
unfolding memset
memset_lem m dst value size ne =
    (fill m dst value size, rw (ne→== ne) refl, fill_lem m dst value size)

-- A byte of the source that is read later is not the one just written.
copy_lem :
    (size : ℕ) (m : Bytes) (dst src a : ℕ)
    → (dst ≤ src) ⊎ (src + size ≤ dst)
    → copy m dst src size a ≡ (if in_block dst size a then m (src + (a - dst)) else m a)
unfolding copy
copy_lem zero m dst src a apart = ground arith
copy_lem (suc size) m dst src a apart =
    let apart' : (dst + 1 ≤ src + 1) ⊎ (src + 1 + size ≤ dst + 1) = ground (arith, apart) in
    let rest = copy_lem size (poke m dst (m src)) (dst + 1) (src + 1) a apart' in
    elim (ℕ_discrete a dst) [
      | yes e ↦ let at : src + (a - dst) ≡ src = omega arith in rest ∙ rw at (ground arith)
      | no ne ↦ elim (Bool-cases (in_block (dst + 1) size a)) [
        | inl within ↦
            let at : src + 1 + (a - (dst + 1)) ≡ src + (a - dst) = ground arith in
            let unwritten : src + (a - dst) ≢ dst = λ e. ground (arith, apart, e, within) in
            rest ∙ rw (within, at, ne→== unwritten) (ground arith)
        | inr outside ↦ rest ∙ rw outside (ground arith)
      ]
    ]

-- For pointers that are not NULL, where the source does not reach into the destination from below,
-- `memcpy` moves the `size` bytes from `src` on to `dst`, and changes no byte outside the destination.
pub memcpy_lem :
    (m : Bytes) (dst src size : ℕ)
    → dst ≢ 0
    → src ≢ 0
    → (dst ≤ src) ⊎ (src + size ≤ dst)
    → (m' : Bytes) × (memcpy m dst src size ≡ ok m')
      × ((a : ℕ) → m' a ≡ (if in_block dst size a then m (src + (a - dst)) else m a))
unfolding memcpy
memcpy_lem m dst src size ne ne' apart =
    (copy m dst src size, rw (ne→== ne, ne→== ne') refl, λ a. copy_lem size m dst src a apart)

char_less_self : (x y : ℕ) → x ≡ y → char_less x y ≡ false
char_less_self x y e = ground arith

char_less_total :
    (x y : ℕ) → x < 0x100 → y < 0x100 → x ≢ y → char_less y x ≡ false → char_less x y ≡ true
char_less_total x y hx hy ne h = ground arith

module _ (m : Bytes) (byte : (p : ℕ) → m p < 0x100) where
  first_of_same : (a b : ℕ) → m (a + 0) ≡ m (b + 0) → m a ≡ m b
  first_of_same a b e = ap m (omega arith) ∙ e ∙ ap m (omega arith)

  next_of_same : (a b i : ℕ) → m (a + suc i) ≡ m (b + suc i) → m (a + 1 + i) ≡ m (b + 1 + i)
  next_of_same a b i e = ap m (omega arith) ∙ e ∙ ap m (omega arith)

  same_at_next : (a b i : ℕ) → m (a + 1 + i) ≡ m (b + 1 + i) → m (a + suc i) ≡ m (b + suc i)
  same_at_next a b i e = ap m (omega arith) ∙ e ∙ ap m (omega arith)

  compare_equal_of_same :
      (size a b : ℕ)
      → ((i : ℕ) → i < size → m (a + i) ≡ m (b + i))
      → compare_bytes m a b size ≡ equal
  unfolding compare_bytes
  compare_equal_of_same zero a b same = refl
  compare_equal_of_same (suc size) a b same =
      let e = first_of_same a b (same 0 (omega arith)) in
      rw (char_less_self (m b) (m a) (sym e), char_less_self (m a) (m b) e)
        (compare_equal_of_same size (a + 1) (b + 1)
          (λ i lt. next_of_same a b i (same (suc i) (omega arith))))

  -- One round of `memcmp`.
  compare_equal_round :
      (size a b : ℕ)
      → compare_bytes m a b (suc size) ≡ equal
      → (m a ≡ m b) × (compare_bytes m (a + 1) (b + 1) size ≡ equal)
  unfolding compare_bytes
  compare_equal_round size a b e = elim (ℕ_discrete (m a) (m b)) [
    | yes s ↦
        (s, sym (rw (char_less_self (m b) (m a) (sym s), char_less_self (m a) (m b) s) refl) ∙ e)
    | no ne ↦ elim (Bool-cases (char_less (m b) (m a))) [
      | inl gt ↦ ground (arith, e, gt)
      | inr le ↦ ground (arith, e, le, char_less_total (m a) (m b) (byte a) (byte b) ne le)
    ]
  ]

  same_of_compare_equal :
      (size a b : ℕ) → compare_bytes m a b size ≡ equal → (i : ℕ) → i < size → m (a + i) ≡ m (b + i)
  same_of_compare_equal zero a b e i lt = elim lt [ ]
  same_of_compare_equal (suc size) a b e zero lt =
      ap m (omega arith) ∙ (compare_equal_round size a b e).0 ∙ ap m (omega arith)
  same_of_compare_equal (suc size) a b e (suc i) lt = same_at_next a b i (
      same_of_compare_equal size (a + 1) (b + 1) (compare_equal_round size a b e).1 i (omega arith))

ok_injective : {c d : Compared} → ok c ≡ ok d → c ≡ d
ok_injective {c} {d} e = cc

-- For pointers that are not NULL, `memcmp` returns 0 just when the two blocks hold the same bytes.
pub memcmp_iff :
    (m : Bytes) (a b size : ℕ)
    → ((p : ℕ) → m p < 0x100)
    → a ≢ 0
    → b ≢ 0
    → (memcmp m a b size ≡ ok equal) ↔ ((i : ℕ) → i < size → m (a + i) ≡ m (b + i))
unfolding memcmp
memcmp_iff m a b size byte ne ne' =
    let e : memcmp m a b size ≡ ok (compare_bytes m a b size) = rw (ne→== ne, ne→== ne') refl in
    (
      λ h. same_of_compare_equal m byte size a b (ok_injective (sym e ∙ h)),
      λ same. e ∙ ap ok (compare_equal_of_same m byte size a b same),
    )
