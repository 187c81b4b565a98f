-- ===== src/Tables/Examples.antt =====
-- Entries of the descriptor tables.
use little_os.Base.{true, false, ℕ, ◌/◌, ◌≡◌, arith}
use little_os.Tables.{Segments, gdt_init, GdtEntry}
use little_os.Tables.Rings.{segment, flat, code, data_segment, task_at, gdt_init_lem}

abbrev no_segments : ℕ → GdtEntry
no_segments n = record {
  limit_low = 0;
  base_low = 0;
  base_middle = 0;
  access = 0;
  granularity = 0;
  base_high = 0;
}

abbrev loaded : Segments
loaded = record { gdt = no_segments; gdtr = record { limit = 0; base = 0 }; tss = λ i. 7 }

abbrev started : Segments
started = gdt_init 0xC0110000 0xC0110040 loaded

gdt_init_lem_example :
    ((started.gdt 0).access ≡ 0)
    × (segment (started.gdt (0x08 / 8)) ≡ flat 0 (code true false))
    × (segment (started.gdt (0x10 / 8)) ≡ flat 0 (data_segment true false))
    × (segment (started.gdt (0x18 / 8)) ≡ flat 3 (code true false))
    × (segment (started.gdt (0x20 / 8)) ≡ flat 3 (data_segment true false))
    × (segment (started.gdt (0x28 / 8)) ≡ task_at 0xC0110040)
    × (started.gdtr ≡ record { limit = 47; base = 0xC0110000 })
gdt_init_lem_example = gdt_init_lem 0xC0110000 0xC0110040 loaded (omega arith)
