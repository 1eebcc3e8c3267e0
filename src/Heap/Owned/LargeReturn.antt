-- ===== src/Heap/Owned/LargeReturn.antt =====
-- A large block comes back: `sys_free` of kernel/memory.c for a pointer just behind the header of such a
-- block.
use goos.Prelude.{
  ℕ, ◌+◌, ◌<◌, ◌≡◌, refl, sym, ap, ◌∙◌, arith, Bool, true, ok, ℕ_discrete, inl, inr, Bool-cases,
}
use goos.Memory.{pf_kernel}
use goos.Memory.Ranges.{inside}
use goos.PageTable.{Machine, mfree_page}
use goos.PageTable.Kernel.{in_use}
use goos.PageTable.Free.{Freed, mfree_page-Freed}
use goos.Heap.{Heap, arena_size, with_machine, sys_free}
use goos.Heap.Large.{behind_header, free_in_large, sys_free_kernel}
use goos.Heap.Ledger.{Kind, is_owned, page_at, IsLarge, IsLargeOf}
use goos.Heap.Ledger.Runs.{freed_kind, without_given}
use goos.Heap.Owned.Kept.{IsReturned, KeepsKinds, extents_kept}
use goos.Heap.Owned.{IsOwned, owned-IsPlaced, page_of}
use goos.Heap.Ledger.Freed.{freed-IsLedger}

module _ {s n : ℕ} {h : Heap} {frame : ℕ → ℕ} {kind : ℕ → Kind} {given : ℕ → Bool}
    (v : IsOwned s n h frame kind given) where
  module _ (p x m : ℕ) (w : IsLargeOf s n kind p x m) where
    whole : IsLarge s n h.arenas kind given x m
    whole = v.ledger.whole x m w.within w.first

    held : (y : ℕ) → inside x m y ≡ true → in_use h.machine y ≡ true
    held y on =
        let lt : y < n = ground (arith, on, whole.room) in
        v.used y lt ∙ elim (ℕ_discrete y x) [
          | yes e ↦ ap (λ z. is_owned (kind z)) e ∙ ap is_owned w.first
          | no ne ↦ ap is_owned (whole.inside y (ground (arith, on, ne)) (ground (arith, on, ne)))
        ]

    module _ (m' : Machine) (f : Freed h.machine frame m x m') where
      used_less : (y : ℕ) → y < n → in_use m' y ≡ is_owned (freed_kind kind x m y)
      used_less y ly =
          let here = f.used y in
          elim (Bool-cases (inside x m y)) [
            | inl on ↦ rw on (here ∙ rw on refl)
            | inr off ↦ rw off (here ∙ rw off (v.used y ly))
          ]

      freed-IsOwned :
          IsOwned s n
            (with_machine h m')
            frame
            (freed_kind kind x m)
            (without_given given (page_at s n x + arena_size))
      freed-IsOwned = record {
        heap = f.heap;
        kernel = v.kernel;
        start = f.start ∙ v.start;
        pages = f.pages ∙ v.pages;
        above = v.above;
        classes = v.classes;
        used = used_less;
        ledger = freed-IsLedger (owned-IsPlaced v) v.ledger x m whole.some_page whole.room w.first;
      }

    kinds_less : KeepsKinds kind (freed_kind kind x m)
    kinds_less y = elim (Bool-cases (inside x m y)) [
      | inl on ↦ inr (inr (rw on refl))
      | inr off ↦ inl (rw off refl)
    ]

    pub sys_free-large : (h' : Heap) × (sys_free h p ≡ ok h') × IsReturned s n h given p h'
    sys_free-large =
        let (m', e, f) =
          mfree_page-Freed h.machine frame v.heap m x whole.some_page
            (omega (arith, whole.room, v.pages)) held in
        let (_, home) =
          behind_header (page_at s n x) (omega (arith, (owned-IsPlaced v).whole))
            (omega (arith, w.within, (owned-IsPlaced v).below)) in
        let freed =
          sys_free_kernel h (page_at s n x + arena_size) (page_at s n x) v.kernel
            (omega (arith, v.above)) home
          ∙ free_in_large h pf_kernel (page_at s n x) (page_at s n x + arena_size) m m' whole.header
              (ap (λ z. mfree_page h.machine pf_kernel z m) (sym (page_of v x)) ∙ e) in
        rw w.address (
          with_machine h m',
          freed,
          record {
            same = extents_kept v (freed-IsOwned m' f) kinds_less;
            heap = record { frame = frame; kind = freed_kind kind x m; owned = freed-IsOwned m' f };
          },
        )
