-- ===== src/PageTable/Map.antt =====
-- `page_table_map` of kernel/memory.c: what it changes of the translation of addresses.
use goos.Prelude.{
  ℕ, ℕ_discrete, ◌+◌, ◌*◌, ◌/◌, ◌%◌, ◌^◌, ◌<◌, bit_and, ◌≡◌, refl, sym, ap, ◌∙◌, ◌≢◌, inl, inr,
  Bool, true, false, ◌&&◌, arith, ok, panic, ◌==◌, eq→==, ne→==, Bool-cases, leb, ltb,
}
use goos.Prelude.Masks.{bit_and_high}
use goos.Memory.{MemPool, palloc}
use goos.Memory.Pages.{IsPool, pages, used, palloc-PageTaken}
use goos.PageTable.{
  Machine, pte_ptr, pde_ptr, entry, present, store, clear, with_words, with_kernel_pool, add_table,
  page_table_map, addr_v2p,
}
use goos.PageTable.Entries.{
  page, pte_ptr_lem, pde_ptr_lem, present_entry, addr_v2p_lem, window, pte_ne, pde_ne-pte,
}

abbrev pub has_table : Machine → (vaddr : ℕ) → Bool
has_table m vaddr = present (m.words (pde_ptr vaddr))

abbrev pub is_mapped : Machine → (vaddr : ℕ) → Bool
is_mapped m vaddr = present (m.words (pte_ptr vaddr))

-- What mapping the page of `v` to frame `a` has done.
pub record PageMapped (m : Machine) (v a : ℕ) (m' : Machine) : Type 0 where
  pub entry_of : m'.words (pte_ptr v) ≡ entry (a * 4096)
  pub table : has_table m' v ≡ true
  pub tables : (u : ℕ) → u < window → has_table m u ≡ true → has_table m' u ≡ true
  pub others :
      (u : ℕ)
      → u < window
      → page u ≢ page v
      → has_table m u ≡ true
      → m'.words (pte_ptr u) ≡ m.words (pte_ptr u)
  pub translation : (u : ℕ) → page u ≡ page v → addr_v2p m'.words u ≡ a * 4096 + u % 4096

-- The machine with the entry written.
abbrev pub mapped_in : Machine → (v a : ℕ) → Machine
mapped_in m v a = with_words m (store m.words (pte_ptr v) (entry (a * 4096)))

module _ (m : Machine) (v a : ℕ) (low : v < window) (frame : a * 4096 < 2 ^ 32) where
  translation_of :
      (words : ℕ → ℕ)
      → words (pte_ptr v) ≡ entry (a * 4096)
      → (u : ℕ) → page u ≡ page v
      → addr_v2p words u ≡ a * 4096 + u % 4096
  translation_of words e u same =
      addr_v2p_lem words u a (omega arith) frame
        (rw same (ap words (sym (pte_ptr_lem v (omega arith))) ∙ e))

  pub map_in_table :
      has_table m v ≡ true
      → is_mapped m v ≡ false
      → (page_table_map m v (a * 4096) ≡ ok (mapped_in m v a)) × PageMapped m v a (mapped_in m v a)
  unfolding page_table_map
  map_in_table table free =
      let here : (mapped_in m v a).words (pte_ptr v) ≡ entry (a * 4096) =
        rw (eq→== {a = pte_ptr v} refl) refl in
      (
        rw (table, free) refl,
        record {
          entry_of = here;
          table = rw (ne→== (pde_ne-pte v v low low)) table;
          tables = λ u hu t. rw (ne→== (pde_ne-pte u v hu low)) t;
          others = λ u hu ne t. rw (ne→== (pte_ne u v hu low ne)) refl;
          translation = translation_of (mapped_in m v a).words here;
        },
      )

  -- A page that is mapped already stops the kernel.
  pub map_twice :
      has_table m v ≡ true → is_mapped m v ≡ true → page_table_map m v (a * 4096) ≡ panic
  unfolding page_table_map
  map_twice table busy = rw (table, busy) refl

  base_lem : bit_and (pte_ptr v) 0xfffff000 ≡ 0xffc00000 + v / 2 ^ 22 * 4096
  base_lem =
      rw (pte_ptr_lem v (omega arith))
        (bit_and_high 20 12 (0xffc00000 + page v * 4) (omega arith) ∙ omega arith)

  base_ne : (0xffc00000 + v / 2 ^ 22 * 4096 == 0) ≡ false
  base_ne = ne→== (omega arith)

  module _ (t : ℕ) (pool : MemPool) where
    abbrev cleared : ℕ → ℕ
    cleared =
        clear (store m.words (pde_ptr v) (entry (t * 4096))) (0xffc00000 + v / 2 ^ 22 * 4096) 4096

    abbrev mapped_new : Machine
    mapped_new = with_words (with_kernel_pool m pool) (store cleared (pte_ptr v) (entry (a * 4096)))

    cleared_pte : cleared (pte_ptr v) ≡ 0
    cleared_pte = ground (arith, pte_ptr_lem v (omega arith))

    cleared_other :
        (u : ℕ) → u < window → u / 2 ^ 22 ≢ v / 2 ^ 22 → cleared (pte_ptr u) ≡ m.words (pte_ptr u)
    cleared_other u hu ne = ground (arith, pte_ptr_lem u (omega arith), pde_ptr_lem v (omega arith))

    cleared_pde : (u : ℕ) → u < window → has_table m u ≡ true → present (cleared (pde_ptr u)) ≡ true
    cleared_pde u hu h =
        let at = pde_ptr_lem u (omega arith) in
        let outside : leb (0xffc00000 + v / 2 ^ 22 * 4096) (pde_ptr u)
              && ltb (pde_ptr u) (0xffc00000 + v / 2 ^ 22 * 4096 + 4096)
            ≡ false =
          ground (arith, at) in
        elim (ℕ_discrete (pde_ptr u) (pde_ptr v)) [
          | yes e ↦ rw (outside, eq→== e) (present_entry t)
          | no ne ↦ rw (outside, ne→== ne) h
        ]

    cleared_table : present (cleared (pde_ptr v)) ≡ true
    cleared_table =
        let at = pde_ptr_lem v (omega arith) in
        let outside : leb (0xffc00000 + v / 2 ^ 22 * 4096) (pde_ptr v)
              && ltb (pde_ptr v) (0xffc00000 + v / 2 ^ 22 * 4096 + 4096)
            ≡ false =
          ground (arith, at) in
        rw (outside, eq→== {a = pde_ptr v} refl) (present_entry t)

    -- Pages that had a table are not on the new one.
    other_table :
        (u : ℕ)
        → u < window
        → has_table m u ≡ true
        → has_table m v ≡ false
        → u / 2 ^ 22 ≢ v / 2 ^ 22
    other_table u hu h missing e =
        let same : pde_ptr u ≡ pde_ptr v =
          pde_ptr_lem u (omega arith) ∙ rw e (sym (pde_ptr_lem v (omega arith))) in
        cc (sym h ∙ ap (λ p. present (m.words p)) same ∙ missing)

    map_new_table :
        palloc m.memory.kernel_mem_pool ≡ ok (t * 4096, pool)
        → has_table m v ≡ false
        → (page_table_map m v (a * 4096) ≡ ok mapped_new) × PageMapped m v a mapped_new
    unfolding page_table_map add_table
    map_new_table e missing =
        let here : mapped_new.words (pte_ptr v) ≡ entry (a * 4096) =
          rw (eq→== {a = pte_ptr v} refl) refl in
        (
          rw (missing, e) (rw base_lem (rw base_ne (rw cleared_pte refl))),
          record {
            entry_of = here;
            table = rw (ne→== (pde_ne-pte v v low low)) cleared_table;
            tables = λ u hu h. rw (ne→== (pde_ne-pte u v hu low)) (cleared_pde u hu h);
            others = λ u hu ne h.
                rw (ne→== (pte_ne u v hu low ne)) (cleared_other u hu (other_table u hu h missing));
            translation = translation_of mapped_new.words here;
          },
        )

-- For an address below the tables, and a frame, where the page is not mapped if there is a table for it,
-- and a page of the kernel's pool, which starts at a whole page, is free for a new one,
-- `page_table_map` returns, and maps the page of the address to the frame: each address on the page
-- translates to its place in the frame, and other pages that have a table keep their entries.
pub page_table_map-PageMapped :
    (m : Machine) (v a : ℕ)
    → v < window
    → a * 4096 < 2 ^ 32
    → IsPool m.memory.kernel_mem_pool
    → m.memory.kernel_mem_pool.phy_addr_start % 4096 ≡ 0
    → (k : ℕ) → k < pages m.memory.kernel_mem_pool
    → used m.memory.kernel_mem_pool k ≡ 0
    → (has_table m v ≡ true → is_mapped m v ≡ false)
    → (m' : Machine) × (page_table_map m v (a * 4096) ≡ ok m') × PageMapped m v a m'
page_table_map-PageMapped m v a low frame pool aligned k inside free fresh =
    elim (Bool-cases (has_table m v)) [
      | inl table ↦
          let (e, w) = map_in_table m v a low frame table (fresh table) in (mapped_in m v a, e, w)
      | inr missing ↦
          let (i, t, p', e, w) = palloc-PageTaken pool k inside free in
          let at : t ≡ t / 4096 * 4096 = omega (arith, w.address, aligned) in
          let (e', w') =
            map_new_table m v a low frame (t / 4096) p' (e ∙ ap (λ x. ok (x, p')) at) missing in
          (mapped_new m v a low frame (t / 4096) p', e', w')
    ]
