-- ===== src/Tables.antt =====
-- arch/x86/cpu/idt.c and arch/x86/cpu/gdt.c: the entries of the descriptor tables.
-- A table is a function of the index, and the task state segment is its bytes. The instructions that
-- load the tables are not modelled.
pub mod Tss
pub mod Gates
pub mod Init
pub mod Rings
mod Examples
use little_os.Base.{
  ℕ, zero, suc, ◌+◌, ◌-◌, ◌*◌, ◌/◌, ◌^◌, bit_and, bit_or, ◌==◌, if◌then◌else◌, u8, u16, Memory,
  store8, store32,
}

pub record IdtEntry : Type 0 where
  pub offset_lowerbits : ℕ
  pub selector : ℕ
  pub reserved : ℕ
  pub type_attr : ℕ
  pub offset_higherbits : ℕ

abbrev pub idt_entries : ℕ
idt_entries = 256

pub idt_set_gate : (num base sel flags : ℕ) → (ℕ → IdtEntry) → ℕ → IdtEntry
idt_set_gate num base sel flags idt n =
    if n == num
    then record {
      offset_lowerbits = u16 (bit_and base 0xFFFF);
      selector = sel;
      reserved = 0;
      type_attr = flags;
      offset_higherbits = u16 (bit_and (base / 2 ^ 16) 0xFFFF);
    }
    else idt n

-- The loops of `idt_init`: `left` entries from `i` on.
pub clear_gates : (left i : ℕ) → (ℕ → IdtEntry) → ℕ → IdtEntry
clear_gates zero i idt = idt
clear_gates (suc left) i idt = clear_gates left (i + 1) (idt_set_gate (u8 i) 0 0 0 idt)

pub install_gates : (left i : ℕ) → (stubs : ℕ → ℕ) → (ℕ → IdtEntry) → ℕ → IdtEntry
install_gates zero i stubs idt = idt
install_gates (suc left) i stubs idt =
    install_gates left (u8 (i + 1)) stubs (idt_set_gate i (stubs i) 0x08 0x8E idt)

-- `stubs` is `isr_stub_table`, which is written in assembly.
pub idt_init : (stubs : ℕ → ℕ) → (ℕ → IdtEntry) → ℕ → IdtEntry
idt_init stubs idt = install_gates 48 0 stubs (clear_gates idt_entries 0 idt)

pub record IdtPtr : Type 0 where
  pub limit : ℕ
  pub base : ℕ

-- What `idt_init` puts into `idtr`; `idt_at` is the address of `idt`.
unfoldable pub idtr_init : (idt_at : ℕ) → IdtPtr
idtr_init idt_at = record { limit = u16 (8 * idt_entries - 1); base = idt_at }

pub record GdtEntry : Type 0 where
  pub limit_low : ℕ
  pub base_low : ℕ
  pub base_middle : ℕ
  pub access : ℕ
  pub granularity : ℕ
  pub base_high : ℕ

pub gdt_set_gate : (num base limit access gran : ℕ) → (ℕ → GdtEntry) → ℕ → GdtEntry
gdt_set_gate num base limit access gran gdt n =
    if n == num
    then record {
      limit_low = u16 (bit_and limit 0xFFFF);
      base_low = u16 (bit_and base 0xFFFF);
      base_middle = u8 (bit_and (base / 2 ^ 16) 0xFF);
      access = access;
      granularity = u8 (bit_or (bit_and (limit / 2 ^ 16) 0x0F) (bit_and gran 0xF0));
      base_high = u8 (bit_and (base / 2 ^ 24) 0xFF);
    }
    else gdt n

abbrev pub gdt_entries : ℕ
gdt_entries = 6

abbrev pub segment_kernel_cs : ℕ
segment_kernel_cs = 0x08

abbrev pub segment_kernel_ds : ℕ
segment_kernel_ds = 0x10

-- `sizeof(struct tss_entry)`
abbrev pub tss_size : ℕ
tss_size = 104

pub record GdtPtr : Type 0 where
  pub limit : ℕ
  pub base : ℕ

pub record Segments : Type 0 where
  pub gdt : ℕ → GdtEntry
  pub gdtr : GdtPtr
  pub tss : Memory

-- The loop of `write_tss`: `left` bytes from `i` on.
pub clear_tss : (left i : ℕ) → Memory → Memory
clear_tss zero i tss = tss
clear_tss (suc left) i tss = clear_tss left (i + 1) (store8 tss i 0)

-- The assignment to `iomap_base`, which has 16 bits.
pub store16 : Memory → ℕ → ℕ → Memory
store16 m a v = store8 (store8 m a (u8 v)) (a + 1) (u8 (v / 2 ^ 8))

-- The assignments of `write_tss` to the fields.
pub fill_tss : (ss0 esp0 : ℕ) → Memory → Memory
fill_tss ss0 esp0 tss =
    let selector = bit_or segment_kernel_ds 0x3 in
    let started = store32 (store32 tss Tss.ss0 ss0) Tss.esp0 esp0 in
    let coded = store32 started Tss.cs (bit_or segment_kernel_cs 0x3) in
    let data1 = store32 (store32 coded Tss.gs selector) Tss.fs selector in
    let data2 = store32 (store32 data1 Tss.es selector) Tss.ds selector in
    store16 (store32 data2 Tss.ss selector) Tss.iomap_base tss_size

-- `tss_at` is the address of `tss`.
pub write_tss : (tss_at num ss0 esp0 : ℕ) → Segments → Segments
write_tss tss_at num ss0 esp0 s = record s {
  gdt = gdt_set_gate num tss_at (tss_size - 1) 0x89 0x00 s.gdt;
  tss = fill_tss ss0 esp0 (clear_tss tss_size 0 s.tss);
}

pub tss_set_kernel_stack : (stack : ℕ) → Segments → Segments
tss_set_kernel_stack stack s = record s { tss = store32 s.tss Tss.esp0 stack }

pub gdt_init : (gdt_at tss_at : ℕ) → Segments → Segments
gdt_init gdt_at tss_at s =
    let null_gate = gdt_set_gate 0 0 0 0 0 s.gdt in
    let kernel_code = gdt_set_gate 1 0 0xFFFFFFFF 0x9A 0xCF null_gate in
    let kernel_data = gdt_set_gate 2 0 0xFFFFFFFF 0x92 0xCF kernel_code in
    let user_code = gdt_set_gate 3 0 0xFFFFFFFF 0xFA 0xCF kernel_data in
    let user_data = gdt_set_gate 4 0 0xFFFFFFFF 0xF2 0xCF user_code in
    write_tss tss_at 5 segment_kernel_ds 0
      (record s { gdt = user_data; gdtr = record { limit = 8 * gdt_entries - 1; base = gdt_at } })
