-- ===== src/Descriptors/Segments.antt =====
-- The segments of userprog/tss.c: a descriptor says what it was made from.
use goos.Prelude.{
  if◌then◌else◌, ◌==◌, ◌≢◌, ne→==, ℕ, ◌+◌, ◌-◌, ◌*◌, ◌/◌, ◌%◌, ◌^◌, ◌<◌, ◌≡◌, refl, arith,
}
use goos.Prelude.Masks.{bit_and_low, bit_and_field}
use goos.Memory.{pg_size}
use goos.Descriptors.{
  GdtDesc, SegmentTables, make_gdt_desc, tss_init, update_tss_esp, tss_size, esp0, ss0, io_base,
  selector_u_code, selector_u_data, selector_k_stack, gdt_code_attr_low_dpl3,
  gdt_data_attr_low_dpl3, tss_attr_low,
}

-- How the processor reads a descriptor.
abbrev pub base_of : GdtDesc → ℕ
base_of d = d.base_low_word + d.base_mid_byte * 2 ^ 16 + d.base_high_byte * 2 ^ 24

abbrev pub limit_of : GdtDesc → ℕ
limit_of d = d.limit_low_word + d.limit_high_attr_high % 16 * 2 ^ 16

abbrev pub flags_of : GdtDesc → ℕ
flags_of d = d.limit_high_attr_high / 16

-- The last byte of the segment: with the highest flag, G, the limit counts pages of 4 KB.
abbrev pub last_byte : GdtDesc → ℕ
last_byte d = if flags_of d / 8 % 2 == 1 then limit_of d * 4096 + 4095 else limit_of d

abbrev pub privilege_of : GdtDesc → ℕ
privilege_of d = d.attr_low_byte / 2 ^ 5 % 4

end_in_pages :
    (d : GdtDesc) (limit : ℕ)
    → limit_of d ≡ limit
    → flags_of d ≡ 8
    → last_byte d ≡ limit * 4096 + 4095
end_in_pages d limit reads_limit reads_flags = rw (reads_flags, reads_limit) refl

-- What a descriptor says.
pub record Says (d : GdtDesc) (base limit attr_low flags : ℕ) : Type 0 where
  pub reads_base : base_of d ≡ base
  pub reads_limit : limit_of d ≡ limit
  pub reads_attributes : d.attr_low_byte ≡ attr_low
  pub reads_flags : flags_of d ≡ flags

-- A descriptor made by `make_gdt_desc` from a base of 32 bits, a limit of 20 bits and attributes whose
-- high part stands in the upper half of its byte, says these four again.
pub make_gdt_desc-Says :
    (desc_addr limit attr_low flags : ℕ)
    → desc_addr < 2 ^ 32
    → limit < 2 ^ 20
    → flags < 16
    → Says (make_gdt_desc desc_addr limit attr_low (flags * 16)) desc_addr limit attr_low flags
unfolding make_gdt_desc
make_gdt_desc-Says desc_addr limit attr_low flags base_fits limit_fits flags_fit =
    let base_low = bit_and_low 16 desc_addr in
    let base_mid = bit_and_field 8 16 desc_addr in
    let limit_low = bit_and_low 16 limit in
    let limit_high = bit_and_field 4 16 limit in
    record {
      reads_base = rw (base_low, base_mid) (omega arith);
      reads_limit = rw (limit_low, limit_high) (omega arith);
      reads_attributes = refl;
      reads_flags = rw limit_high (omega arith);
    }

-- The descriptor that a selector names in the table at `base`.
abbrev pub named : SegmentTables → (selector : ℕ) → GdtDesc
named s selector = s.gdt (0xc0000900 + selector / 8 * 8)

-- What the kernel has loaded. The attributes are those of a free task state segment of 32 bits, of
-- code that is just executed, and of data that can be written; the segments are present.
pub record Loaded (s : SegmentTables) (tss_addr : ℕ) : Type 0 where
  pub task : Says (named s s.tr) tss_addr (tss_size - 1) 0x89 8
  pub task_end : last_byte (named s s.tr) ≡ (tss_size - 1) * 4096 + 4095
  pub user_code : Says (named s selector_u_code) 0 0xfffff 0xf8 12
  pub user_data : Says (named s selector_u_data) 0 0xfffff 0xf2 12
  pub user_end :
      (last_byte (named s selector_u_code) ≡ 2 ^ 32 - 1)
      × (last_byte (named s selector_u_data) ≡ 2 ^ 32 - 1)
  pub user_level :
      (privilege_of (named s selector_u_code) ≡ 3) × (privilege_of (named s selector_u_data) ≡ 3)
  pub table : (s.gdt_ptr / 2 ^ 16 ≡ 0xc0000900) × (s.gdt_ptr % 2 ^ 16 ≡ 7 * 8 - 1)
  pub stack : s.tss ss0 ≡ selector_k_stack
  pub ports : (s.tss io_base ≡ tss_size) × (s.tss io_base < last_byte (named s s.tr))

-- The stack of level 0 is `top`, and all else is as in `s`.
pub record Updated (s : SegmentTables) (top : ℕ) (s' : SegmentTables) : Type 0 where
  pub level0 : s'.tss esp0 ≡ top
  pub others : (i : ℕ) → i ≢ esp0 → s'.tss i ≡ s.tss i
  pub descriptors : s'.gdt ≡ s.gdt
  pub registers : (s'.gdt_ptr ≡ s.gdt_ptr) × (s'.tr ≡ s.tr)

-- For addresses of the state and of a task's page in 32 bits: after `tss_init`, the selector in
-- the task register names a descriptor of the task state segment, with its address and a limit of
-- its size less one, in pages, so the place of the port map, just behind the state, lies inside
-- the segment; the two selectors of a process name segments of all 4 GB at privilege level 3; and
-- the table that is loaded holds seven descriptors from 0xc0000900 on. All of this holds after
-- `update_tss_esp` too, which changes the stack of level 0 to the end of the task's page, and no
-- other field, descriptor or register.
pub tss_init-Loaded :
    (s : SegmentTables) (tss_addr pthread : ℕ)
    → tss_addr < 2 ^ 32
    → pthread + pg_size < 2 ^ 32
    → Loaded (tss_init s tss_addr) tss_addr
      × Loaded (update_tss_esp (tss_init s tss_addr) pthread) tss_addr
      × Updated
          (tss_init s tss_addr)
          (pthread + pg_size)
          (update_tss_esp (tss_init s tss_addr) pthread)
unfolding tss_init update_tss_esp make_gdt_desc
tss_init-Loaded s tss_addr pthread fits room =
    let task =
      make_gdt_desc-Says tss_addr (tss_size - 1) tss_attr_low 8 fits (omega arith) (omega arith) in
    let code =
      make_gdt_desc-Says 0 0xfffff gdt_code_attr_low_dpl3 12 (omega arith) (omega arith)
        (omega arith) in
    let data_of =
      make_gdt_desc-Says 0 0xfffff gdt_data_attr_low_dpl3 12 (omega arith) (omega arith)
        (omega arith) in
    let end : last_byte (named (tss_init s tss_addr) (tss_init s tss_addr).tr)
        ≡ (tss_size - 1) * 4096 + 4095 =
      end_in_pages (make_gdt_desc tss_addr (tss_size - 1) tss_attr_low (8 * 16)) (tss_size - 1)
        task.reads_limit task.reads_flags in
    let inside : tss_size < last_byte (named (tss_init s tss_addr) (tss_init s tss_addr).tr) =
      rw end (omega arith) in
    let loaded : Loaded (tss_init s tss_addr) tss_addr = record {
      task = task;
      user_code = code;
      user_data = data_of;
      task_end = end;
      user_end = (refl, refl);
      user_level = (refl, refl);
      table = (refl, refl);
      stack = refl;
      ports = (refl, inside);
    } in
    (
      loaded,
      record {
        task = task;
        user_code = code;
        user_data = data_of;
        task_end = end;
        user_end = (refl, refl);
        user_level = (refl, refl);
        table = (refl, refl);
        stack = refl;
        ports = (refl, inside);
      },
      record {
        level0 = omega (arith, room);
        others = λ i ne. (rw (ne→== ne) refl);
        descriptors = refl;
        registers = (refl, refl);
      },
    )
