-- ===== src/Heap/Ledger/Kinds.antt =====
-- Kinds of pages differ.
use goos.Prelude.{ℕ, ◌≡◌, ◌≢◌, refl, false}
use goos.Heap.Ledger.{Kind, is_owned, unowned, small, large, inner}

pub small-injective : {i j : ℕ} → small i ≡ small j → i ≡ j
small-injective e = cc

pub small-ne-large : {i m : ℕ} → small i ≢ large m
small-ne-large e = cc

pub unowned-ne-small : {i : ℕ} → unowned ≢ small i
unowned-ne-small e = cc

pub unowned-ne-large : {m : ℕ} → unowned ≢ large m
unowned-ne-large e = cc

pub unowned-ne-inner : {x : ℕ} → unowned ≢ inner x
unowned-ne-inner e = cc

pub small-ne-inner : {i x : ℕ} → small i ≢ inner x
small-ne-inner e = cc

pub large-ne-inner : {m x : ℕ} → large m ≢ inner x
large-ne-inner e = cc

pub large-injective : {m k : ℕ} → large m ≡ large k → m ≡ k
large-injective e = cc

pub inner-injective : {x y : ℕ} → inner x ≡ inner y → x ≡ y
inner-injective e = cc

-- A page that nobody owns.
pub unowned_of : (k : Kind) → is_owned k ≡ false → k ≡ unowned
unowned_of unowned e = refl
unowned_of (small i) e = cc
unowned_of (large m) e = cc
unowned_of (inner x) e = cc
