-- ===== src/Strings/Compare.antt =====
-- `strcmp` of lib/string.c on memories whose addresses wrap round.
use goos.Prelude.{
  ℕ, zero, suc, ◌+◌, ◌≤◌, ◌<◌, ◌≡◌, ◌≢◌, refl, sym, ap, ◌∙◌, inl, inr, arith, Outcome, ok, panic,
  fault, hang, ◌>>=◌, ◌%◌, ◌^◌, ◌↔◌, add32, ne→==, eq→==, if◌then◌else◌, ℕ_discrete, Bool-cases,
}
use goos.Strings.{Bytes, char_less, Compared, less, equal, greater, differ_at, strcmp}

-- From `a` and `b` on the bytes are the same, up to the end of the addresses above `a`, and at 0, to
-- which `a` wraps round there.
abbrev pub SameToEnd : Bytes → (a b : ℕ) → Type 0
SameToEnd m a b = (i : ℕ) → a + i ≤ 2 ^ 32 → m ((a + i) % 2 ^ 32) ≡ m ((b + i) % 2 ^ 32)

module _ (m : Bytes) where
  same-first : (a b : ℕ) → a < 2 ^ 32 → b < 2 ^ 32 → SameToEnd m a b → m a ≡ m b
  same-first a b ha hb same =
      let l : (a + 0) % 2 ^ 32 ≡ a = omega (arith, ha) in
      let r : (b + 0) % 2 ^ 32 ≡ b = omega (arith, hb) in
      sym (ap m l) ∙ same 0 (omega (arith, ha)) ∙ ap m r

  same-rest : (a b : ℕ) → a + 1 < 2 ^ 32 → SameToEnd m a b → SameToEnd m (add32 a 1) (add32 b 1)
  same-rest a b ha same i hi =
      let l : (add32 a 1 + i) % 2 ^ 32 ≡ (a + (i + 1)) % 2 ^ 32 = omega arith in
      let r : (add32 b 1 + i) % 2 ^ 32 ≡ (b + (i + 1)) % 2 ^ 32 = omega arith in
      ap m l ∙ same (i + 1) (omega (arith, ha, hi)) ∙ sym (ap m r)

  same-more :
      (a b : ℕ)
      → a + 1 < 2 ^ 32
      → b < 2 ^ 32
      → m a ≡ m b
      → SameToEnd m (add32 a 1) (add32 b 1)
      → SameToEnd m a b
  same-more a b ha hb first rest zero hi =
      let l : (a + 0) % 2 ^ 32 ≡ a = omega (arith, ha) in
      let r : (b + 0) % 2 ^ 32 ≡ b = omega (arith, hb) in ap m l ∙ first ∙ sym (ap m r)
  same-more a b ha hb first rest (suc i) hi =
      let l : (a + suc i) % 2 ^ 32 ≡ (add32 a 1 + i) % 2 ^ 32 = omega arith in
      let r : (b + suc i) % 2 ^ 32 ≡ (add32 b 1 + i) % 2 ^ 32 = omega arith in
      ap m l ∙ rest i (omega (arith, ha, hi)) ∙ sym (ap m r)

  -- At the last address one byte more is compared, at 0.
  same-last :
      (a b : ℕ) → a + 1 ≡ 2 ^ 32 → b < 2 ^ 32 → m a ≡ m b → m 0 ≡ m (add32 b 1) → SameToEnd m a b
  same-last a b ha hb first second zero hi =
      let l : (a + 0) % 2 ^ 32 ≡ a = omega (arith, ha) in
      let r : (b + 0) % 2 ^ 32 ≡ b = omega (arith, hb) in ap m l ∙ first ∙ sym (ap m r)
  same-last a b ha hb first second (suc zero) hi =
      let l : (a + 1) % 2 ^ 32 ≡ 0 = omega (arith, ha) in ap m l ∙ second
  same-last a b ha hb first second (suc (suc i)) hi = absurd (omega (arith, ha, hi))

  differ_at-null : (fuel b : ℕ) → 0 < fuel → differ_at fuel m 0 b ≡ ok (0, b)
  unfolding differ_at
  differ_at-null zero b h = absurd (omega (arith, h))
  differ_at-null (suc fuel) b h = refl

  -- The loop ends at two bytes that are the same only behind the last address.
  differ_at-SameToEnd :
      (fuel a b a' b' : ℕ)
      → a ≢ 0
      → a < 2 ^ 32
      → b < 2 ^ 32
      → 2 ^ 32 < a + fuel
      → differ_at fuel m a b ≡ ok (a', b')
      → m a' ≡ m b'
      → SameToEnd m a b
  unfolding differ_at
  differ_at-SameToEnd zero a b a' b' ne ha hb enough e same = absurd (omega (arith, ha, enough))
  differ_at-SameToEnd (suc fuel) a b a' b' ne ha hb enough e same = elim (ℕ_discrete (m a) (m b)) [
    | no differ ↦
        let at : ok (a, b) ≡ ok (a', b') = sym (rw (ne→== ne, ne→== differ) refl) ∙ e in
        absurd (differ (cc (at, same)))
    | yes first ↦
        let next : differ_at fuel m (add32 a 1) (add32 b 1) ≡ ok (a', b') =
          sym (rw (ne→== ne, eq→== first) refl) ∙ e in
        elim (ℕ_discrete (a + 1) (2 ^ 32)) [
          | yes wrap ↦
              let null : add32 a 1 ≡ 0 = omega (arith, wrap) in
              let at : ok (0, add32 b 1) ≡ ok (a', b') =
                sym (differ_at-null fuel (add32 b 1) (omega (arith, wrap, enough)))
                ∙ ap (λ z. differ_at fuel m z (add32 b 1)) (sym null)
                ∙ next in
              same-last a b wrap hb first (cc (at, same))
          | no within ↦ same-more a b (omega (arith, ha, within)) hb first (
              differ_at-SameToEnd fuel (add32 a 1) (add32 b 1) a' b'
                (λ z. absurd (omega (arith, z, ha, within))) (omega arith) (omega arith)
                (omega (arith, ha, within, enough)) next same)
        ]
  ]

  -- On bytes that are the same the loop runs to the wrap of `a`.
  differ_at-wraps :
      (fuel a b : ℕ)
      → a ≢ 0
      → a < 2 ^ 32
      → b < 2 ^ 32
      → 2 ^ 32 < a + fuel
      → SameToEnd m a b
      → (b' : ℕ) × (differ_at fuel m a b ≡ ok (0, b')) × (m 0 ≡ m b')
  unfolding differ_at
  differ_at-wraps zero a b ne ha hb enough same = absurd (omega (arith, ha, enough))
  differ_at-wraps (suc fuel) a b ne ha hb enough same =
      let first = same-first a b ha hb same in
      elim (ℕ_discrete (a + 1) (2 ^ 32)) [
        | yes wrap ↦
            let null : add32 a 1 ≡ 0 = omega (arith, wrap) in
            let null' : (a + 1) % 2 ^ 32 ≡ 0 = omega (arith, wrap) in
            (
              add32 b 1,
              rw (ne→== ne, eq→== first)
                  (ap (λ z. differ_at fuel m z (add32 b 1)) null
                    ∙ differ_at-null fuel (add32 b 1) (omega (arith, wrap, enough))),
              sym (ap m null') ∙ same 1 (omega (arith, wrap)),
            )
        | no within ↦
            let (b', e, last) =
              differ_at-wraps fuel (add32 a 1) (add32 b 1)
                (λ z. absurd (omega (arith, z, ha, within))) (omega arith) (omega arith)
                (omega (arith, ha, within, enough))
                (same-rest a b (omega (arith, ha, within)) same) in
            (b', rw (ne→== ne, eq→== first) e, last)
      ]

verdict-equal :
    (x y : ℕ)
    → x < 0x100
    → y < 0x100
    → (if char_less x y then less else if char_less y x then greater else equal) ≡ equal
    → x ≡ y
verdict-equal x y hx hy e = elim (Bool-cases (char_less x y)) [
  | inl l ↦ let z : less ≡ equal = sym (rw l refl) ∙ e in absurd (cc z)
  | inr nl ↦ elim (Bool-cases (char_less y x)) [
    | inl g ↦ let z : greater ≡ equal = sym (rw (nl, g) refl) ∙ e in absurd (cc z)
    | inr ng ↦ ground (arith, nl, ng)
  ]
]

verdict-same :
    (x y : ℕ)
    → x ≡ y
    → (if char_less x y then less else if char_less y x then greater else equal) ≡ equal
verdict-same x y e = ground (arith, e)

ok_injective : (c d : Compared) → ok c ≡ ok d → c ≡ d
ok_injective c d e = cc

-- The verdict on the bytes at which the loop has ended.
abbrev verdict : Bytes → ℕ × ℕ → Outcome Compared
verdict m p = ok (
    if char_less (m p.0) (m p.1)
    then less
    else if char_less (m p.1) (m p.0)
    then greater
    else equal)

equal-ends :
    (m : Bytes)
    → ((p : ℕ) → m p < 0x100)
    → (d : Outcome (ℕ × ℕ)) → (d >>= verdict m) ≡ ok equal
    → (a' b' : ℕ) × (d ≡ ok (a', b')) × (m a' ≡ m b')
equal-ends m byte (ok (a', b')) e =
    (a', b', refl, verdict-equal (m a') (m b') (byte a') (byte b') (ok_injective _ _ e))
equal-ends m byte panic e = absurd (cc e)
equal-ends m byte fault e = absurd (cc e)
equal-ends m byte hang e = absurd (cc e)

-- For pointers of 32 bits that are not NULL, `strcmp` takes two strings as equal exactly if all
-- bytes from `a` on to the end of the addresses, and that at 0, are those from `b` on, whatever
-- bytes are 0 among them: its loop tests the pointer where the end of the string is meant. The
-- fuel is enough for the loop to come to the end of the addresses.
pub strcmp_iff :
    (m : Bytes) (fuel a b : ℕ)
    → ((p : ℕ) → m p < 0x100)
    → a ≢ 0
    → b ≢ 0
    → a < 2 ^ 32
    → b < 2 ^ 32
    → 2 ^ 32 < a + fuel
    → (strcmp fuel m a b ≡ ok equal) ↔ SameToEnd m a b
unfolding strcmp
strcmp_iff m fuel a b byte ne ne' ha hb enough = (
  λ h.
      let e : (differ_at fuel m a b >>= verdict m) ≡ ok equal =
        sym (rw (ne→== ne, ne→== ne') refl) ∙ h in
      let (a', b', at, same) = equal-ends m byte (differ_at fuel m a b) e in
      differ_at-SameToEnd m fuel a b a' b' ne ha hb enough at same,
  λ same.
      let (b', at, last) = differ_at-wraps m fuel a b ne ha hb enough same in
      rw (ne→== ne, ne→== ne', at) (ap ok (verdict-same (m 0) (m b') last)),
)
