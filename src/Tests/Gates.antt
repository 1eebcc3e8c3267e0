-- ===== src/Tests/Gates.antt =====
-- The descriptors and the gates at concrete addresses.
use goos.Prelude.{arith}
use goos.Descriptors.{SegmentTables, GateDesc, tss_init, update_tss_esp, init_idt}
use goos.Descriptors.Segments.{Loaded, Updated, tss_init-Loaded}
use goos.Descriptors.Gates.{LeadsTo, init_idt-LeadsTo}

abbrev pub empty_tables : SegmentTables
empty_tables = record {
  tss = λ i. 7;
  gdt = λ a. record {
    limit_low_word = 0;
    base_low_word = 0;
    base_mid_byte = 0;
    attr_low_byte = 0;
    limit_high_attr_high = 0;
    base_high_byte = 0;
  };
  gdt_ptr = 0;
  tr = 0;
}

tss_init-Loaded_example :
    Loaded (tss_init empty_tables 0xc0008000) 0xc0008000
    × Loaded (update_tss_esp (tss_init empty_tables 0xc0008000) 0xc0101000) 0xc0008000
    × Updated
        (tss_init empty_tables 0xc0008000)
        0xc0102000
        (update_tss_esp (tss_init empty_tables 0xc0008000) 0xc0101000)
tss_init-Loaded_example =
    tss_init-Loaded empty_tables 0xc0008000 0xc0101000 (omega arith) (omega arith)

abbrev pub no_gate : GateDesc
no_gate = record {
  func_offset_low_word = 0;
  selector = 0;
  dcount = 0;
  attribute = 0;
  func_offset_high_word = 0;
}

init_idt-LeadsTo_example :
    LeadsTo (init_idt (λ i. no_gate) (λ i. 0xc0001500) 0xc0002abc 0x80) 0xc0002abc 3
init_idt-LeadsTo_example =
    init_idt-LeadsTo (λ i. no_gate) (λ i. 0xc0001500) 0xc0002abc (λ x. omega arith) (omega arith)
      0x80 (omega arith)
