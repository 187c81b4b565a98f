-- ===== src/Syscall/Gate.antt =====
-- What a program of ring 3 can call by an interrupt.
use little_os.Base.{
  ℕ, ◌/◌, ◌%◌, ◌^◌, ◌<◌, ◌≡◌, ◌↔◌, refl, ap, ◌∙◌, Bool, true, false, ◌&&◌, ◌==◌, leb, arith, dec_lt,
  Bool-cases, inl, inr,
}
use little_os.Tables.{IdtEntry, idt_init}
use little_os.Tables.Gates.{offset, set_gate_here, set_gate_other}
use little_os.Tables.Init.{IsGate, idt_init-IsGate, idt_init_absent}
use little_os.Syscall.{syscall_init}

-- The processor lets the instruction `int` of a ring through a gate that is present and whose level
-- is not below the ring.
abbrev pub can_raise : (ring : ℕ) → IdtEntry → Bool
can_raise ring e = e.type_attr / 2 ^ 7 % 2 == 1 && leb ring (e.type_attr / 2 ^ 5 % 4)

module _ (stubs : ℕ → ℕ) (handler : ℕ) (idt : ℕ → IdtEntry) where
  closed :
      (n : ℕ)
      → n < 256
      → ((v : ℕ) → v < 48 → stubs v < 2 ^ 32)
      → can_raise 3 (idt_init stubs idt n) ≡ false
  closed n byte small = elim (dec_lt n 48) [
    | yes low ↦ rw (idt_init-IsGate stubs idt n low (small n low)).2 refl
    | no high ↦ rw (idt_init_absent stubs idt n (omega arith) byte) refl
  ]

  -- The gate of the system calls leaves those of the stubs.
  pub syscall_init-IsGate :
      (n : ℕ)
      → n < 48
      → stubs n < 2 ^ 32
      → IsGate (stubs n) (syscall_init handler (idt_init stubs idt) n)
  unfolding syscall_init
  syscall_init-IsGate n low small =
      let kept = set_gate_other 0x80 handler 0x08 0xEE n (idt_init stubs idt) (ground arith) in
      rw kept (idt_init-IsGate stubs idt n low small)

  pub syscall_init_lem :
      handler < 2 ^ 32
      → ((v : ℕ) → v < 48 → stubs v < 2 ^ 32)
      → let gates = syscall_init handler (idt_init stubs idt) in
        ((n : ℕ) → n < 256 → (can_raise 3 (gates n) ≡ true) ↔ (n ≡ 0x80))
        × (offset (gates 0x80) ≡ handler)
        × ((gates 0x80).selector ≡ 0x08)
  unfolding syscall_init
  syscall_init_lem fits small =
      let here = set_gate_here 0x80 handler 0x08 0xEE (idt_init stubs idt) fits in
      (
        λ n byte. (
          λ raised. elim (Bool-cases (n == 0x80)) [
            | inl same ↦ ground (arith, same)
            | inr other ↦
                let kept = set_gate_other 0x80 handler 0x08 0xEE n (idt_init stubs idt) other in
                let shut = ap (can_raise 3) kept ∙ closed n byte small in
                absurd (ground (arith, raised, shut))
          ],
          λ same. rw (same, here.2) refl,
        ),
        here.0,
        here.1,
      )
