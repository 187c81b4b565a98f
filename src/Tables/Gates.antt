-- ===== src/Tables/Gates.antt =====
-- What the processor reads in the entries.
use little_os.Base.{
  ℕ, ◌+◌, ◌*◌, ◌/◌, ◌%◌, ◌^◌, ◌<◌, ◌≡◌, refl, true, false, ◌==◌, arith, bit_and, bit_or,
  bit_and_mask, bit_and_high, bit_or_fields_swap,
}
use little_os.Tables.{IdtEntry, idt_set_gate, GdtEntry, gdt_set_gate}

-- The address of a gate.
abbrev pub offset : IdtEntry → ℕ
offset e = e.offset_higherbits * 2 ^ 16 + e.offset_lowerbits

-- The base, the limit and the flags of a segment.
abbrev pub base_of : GdtEntry → ℕ
base_of e = e.base_high * 2 ^ 24 + e.base_middle * 2 ^ 16 + e.base_low

abbrev pub limit_of : GdtEntry → ℕ
limit_of e = e.granularity % 16 * 2 ^ 16 + e.limit_low

abbrev pub flags_of : GdtEntry → ℕ
flags_of e = e.granularity / 16

pub set_gate_other :
    (num base sel flags n : ℕ) (idt : ℕ → IdtEntry)
    → (n == num) ≡ false
    → idt_set_gate num base sel flags idt n ≡ idt n
unfolding idt_set_gate
set_gate_other num base sel flags n idt e = rw e refl

-- `gdt_set_gate` splits a base of 32 bits, the low 20 bits of the limit and the four flags over the entry
-- so that they are read back.
pub gdt_set_gate_lem :
    (num base limit access gran : ℕ) (gdt : ℕ → GdtEntry)
    → base < 2 ^ 32
    → (base_of (gdt_set_gate num base limit access gran gdt num) ≡ base)
      × (limit_of (gdt_set_gate num base limit access gran gdt num) ≡ limit % 2 ^ 20)
      × (flags_of (gdt_set_gate num base limit access gran gdt num) ≡ gran / 16 % 16)
      × ((gdt_set_gate num base limit access gran gdt num).access ≡ access)
unfolding gdt_set_gate
gdt_set_gate_lem num base limit access gran gdt fits =
    let here : (num == num) ≡ true = ground arith in
    let low : ℕ = limit / 2 ^ 16 % 16 in
    let high : ℕ = gran / 16 % 16 in
    let low_part : bit_and (limit / 2 ^ 16) 0x0F ≡ low = bit_and_mask 4 (limit / 2 ^ 16) in
    let split : gran / 16 * 2 ^ 4 + gran % 16 ≡ gran = omega arith in
    let masked = bit_and_high 4 (gran / 16) (gran % 16) 15 (omega arith) in
    let masked' : bit_and gran 0xF0 ≡ bit_and (gran / 16) 15 * 16 = rw split at masked in
    let nibble : bit_and (gran / 16) 15 ≡ high = bit_and_mask 4 (gran / 16) in
    let joined : bit_or low (high * 2 ^ 4) ≡ high * 16 + low =
      bit_or_fields_swap 4 high low (omega arith) in
    let byte : bit_or (bit_and (limit / 2 ^ 16) 0x0F) (bit_and gran 0xF0) ≡ high * 16 + low =
      rw (low_part, masked', nibble) joined in
    rw (here, byte)
      (
        omega (
          arith,
          bit_and_mask 16 base,
          bit_and_mask 8 (base / 2 ^ 16),
          bit_and_mask 8 (base / 2 ^ 24),
        ),
        omega (arith, bit_and_mask 16 limit),
        omega arith,
        refl,
      )

-- The gate that `idt_set_gate` writes has the address, the selector and the attributes given.
pub set_gate_here :
    (num base sel flags : ℕ) (idt : ℕ → IdtEntry)
    → base < 2 ^ 32
    → (offset (idt_set_gate num base sel flags idt num) ≡ base)
      × ((idt_set_gate num base sel flags idt num).selector ≡ sel)
      × ((idt_set_gate num base sel flags idt num).type_attr ≡ flags)
unfolding idt_set_gate
set_gate_here num base sel flags idt fits =
    let here : (num == num) ≡ true = ground arith in
    rw here (omega (arith, bit_and_mask 16 base, bit_and_mask 16 (base / 2 ^ 16)), refl, refl)
