-- ===== src/Tables/Rings.antt =====
-- What the processor reads in the segments, and where it switches to in ring 0.
use little_os.Base.{
  load16, ℕ, ◌+◌, ◌*◌, ◌/◌, ◌%◌, ◌^◌, ◌<◌, ◌≡◌, refl, ap, Bool, true, false, ◌==◌, if◌then◌else◌,
  Memory, load32, store32, store8, load32-store32_self,
}
use little_os.Tables.{
  GdtEntry, gdt_set_gate, Segments, fill_tss, store16, write_tss, tss_set_kernel_stack, gdt_init,
}
use little_os.Tables.Gates.{base_of, limit_of, flags_of, gdt_set_gate_lem}
use little_os.Tables.Tss

-- What a segment is for: code that may be readable and conforming, data that may be writable and
-- grow down, or the state of a task.
pub data Kind : Type 0 where
  code : (readable conforming : Bool) → Kind
  data_segment : (writable down : Bool) → Kind
  task other : Kind

-- The processor reads the kind in the low five bits of the access byte. A system segment of type 9 is
-- an available 32-bit task state segment.
abbrev pub kind_of : ℕ → Kind
kind_of access =
    if access / 2 ^ 4 % 2 == 1
    then (if access / 2 ^ 3 % 2 == 1
        then code (access / 2 % 2 == 1) (access / 2 ^ 2 % 2 == 1)
        else data_segment (access / 2 % 2 == 1) (access / 2 ^ 2 % 2 == 1))
    else (if access % 16 == 9 then task else other)

-- A segment is a range of addresses, which a ring may use when it is present. It is wide when its
-- default size is 32 bits.
pub record Segment : Type 0 where
  pub first : ℕ
  pub last : ℕ
  pub present : Bool
  pub ring : ℕ
  pub kind : Kind
  pub wide : Bool

-- The last offset, which the flag of granularity gives in pages.
abbrev pub size_of : GdtEntry → ℕ
size_of e = if flags_of e / 8 == 1 then limit_of e * 4096 + 4095 else limit_of e

pub segment : GdtEntry → Segment
segment e = record {
  first = base_of e;
  last = base_of e + size_of e;
  present = e.access / 2 ^ 7 == 1;
  ring = e.access / 2 ^ 5 % 4;
  kind = kind_of e.access;
  wide = flags_of e / 4 % 2 == 1;
}

-- All addresses, for a ring, in 32-bit mode.
abbrev pub flat : (ring : ℕ) → Kind → Segment
flat ring kind = record {
  first = 0;
  last = 0xFFFFFFFF;
  present = true;
  ring = ring;
  kind = kind;
  wide = true;
}

-- The 104 bytes of the task state segment, for ring 0.
abbrev pub task_at : ℕ → Segment
task_at tss_at = record {
  first = tss_at;
  last = tss_at + 103;
  present = true;
  ring = 0;
  kind = task;
  wide = false;
}

-- The stack of ring 0 that the task gives.
abbrev pub ring0_stack : Memory → ℕ × ℕ
ring0_stack tss = (load32 tss Tss.ss0, load32 tss Tss.esp0)

task_Segment :
    (tss_at : ℕ) (gdt : ℕ → GdtEntry)
    → tss_at < 2 ^ 32
    → segment (gdt_set_gate 5 tss_at 103 0x89 0x00 gdt 5) ≡ task_at tss_at
unfolding segment gdt_set_gate
task_Segment tss_at gdt fits = ap task_at (gdt_set_gate_lem 5 tss_at 103 0x89 0x00 gdt fits).0

-- After `gdt_init`, whatever the table held before, selector 0 has no segment, and all others have one
-- that is present: the selectors 0x08 and 0x10 give ring 0, and 0x18 and 0x20 ring 3, all addresses, in
-- 32-bit mode, for code that is readable and for data that is writable. Selector 0x28 gives the 104
-- bytes of the task state segment, where that has a 32-bit address, as an available task. The table
-- register covers the six entries.
pub gdt_init_lem :
    (gdt_at tss_at : ℕ) (s : Segments)
    → tss_at < 2 ^ 32
    → let t = gdt_init gdt_at tss_at s in
      ((t.gdt 0).access ≡ 0)
      × (segment (t.gdt (0x08 / 8)) ≡ flat 0 (code true false))
      × (segment (t.gdt (0x10 / 8)) ≡ flat 0 (data_segment true false))
      × (segment (t.gdt (0x18 / 8)) ≡ flat 3 (code true false))
      × (segment (t.gdt (0x20 / 8)) ≡ flat 3 (data_segment true false))
      × (segment (t.gdt (0x28 / 8)) ≡ task_at tss_at)
      × (t.gdtr ≡ record { limit = 47; base = gdt_at })
unfolding gdt_init write_tss gdt_set_gate segment
gdt_init_lem gdt_at tss_at s fits =
    (refl, refl, refl, refl, refl, task_Segment tss_at (gdt_init gdt_at tss_at s).gdt fits, refl)

-- After `gdt_init`, and `tss_set_kernel_stack` with a 32-bit address, an interrupt of the user process
-- switches to the data segment of the kernel and to that address, and the map of the ports stands
-- behind the segment, which opens none. The descriptors are those of `gdt_init`.
pub tss_set_kernel_stack_lem :
    (gdt_at tss_at stack : ℕ) (s : Segments)
    → stack < 2 ^ 32
    → let t = tss_set_kernel_stack stack (gdt_init gdt_at tss_at s) in
      (ring0_stack t.tss ≡ (0x10, stack))
      × (load16 t.tss Tss.iomap_base ≡ 104)
      × (t.gdt ≡ (gdt_init gdt_at tss_at s).gdt)
unfolding tss_set_kernel_stack gdt_init write_tss fill_tss store16 store32 store8 load32
tss_set_kernel_stack_lem gdt_at tss_at stack s fits = (
  ap (λ (esp : ℕ). (0x10, esp))
      (load32-store32_self (gdt_init gdt_at tss_at s).tss Tss.esp0 stack fits),
  refl,
  refl,
)
