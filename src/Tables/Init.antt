-- ===== src/Tables/Init.antt =====
-- The interrupt descriptor table after `idt_init`.
use little_os.Base.{
  ℕ, zero, suc, ◌+◌, ◌^◌, ◌≤◌, ◌<◌, ◌≡◌, ◌⊎◌, inl, inr, refl, ◌∙◌, ap, u8, arith, dec_lt,
}
use little_os.Tables.{IdtEntry, idt_entries, idt_set_gate, clear_gates, install_gates, idt_init}
use little_os.Tables.Gates.{offset, set_gate_other, set_gate_here}

-- A gate of ring 0 to an address, in the code segment of the kernel.
abbrev pub IsGate : ℕ → IdtEntry → Type 0
IsGate address e = (offset e ≡ address) × (e.selector ≡ 0x08) × (e.type_attr ≡ 0x8E)

clear_gates_other :
    (left i n : ℕ) (idt : ℕ → IdtEntry)
    → i + left ≤ 256
    → (n < i) ⊎ (i + left ≤ n)
    → clear_gates left i idt n ≡ idt n
unfolding clear_gates
clear_gates_other zero i n idt fits far = refl
clear_gates_other (suc left) i n idt fits far =
    clear_gates_other left (i + 1) n (idt_set_gate (u8 i) 0 0 0 idt) (omega arith)
      (omega (arith, far))
    ∙ set_gate_other (u8 i) 0 0 0 n idt (ground (arith, far))

clear_gates_clears :
    (left i n : ℕ) (idt : ℕ → IdtEntry)
    → i + left ≤ 256
    → i ≤ n
    → n < i + left
    → (clear_gates left i idt n).type_attr ≡ 0
unfolding clear_gates
clear_gates_clears zero i n idt fits from before = absurd (omega arith)
clear_gates_clears (suc left) i n idt fits from before = elim (dec_lt i n) [
  | yes later ↦
      clear_gates_clears left (i + 1) n (idt_set_gate (u8 i) 0 0 0 idt) (omega arith) (omega arith)
        (omega arith)
  | no here ↦
      let same : u8 i ≡ n = omega arith in
      ap (λ (e : IdtEntry). e.type_attr)
        (clear_gates_other left (i + 1) n (idt_set_gate (u8 i) 0 0 0 idt) (omega arith)
          (inl (omega arith)))
      ∙ rw same (set_gate_here n 0 0 0 idt (omega arith)).2
]

module _ (stubs : ℕ → ℕ) where
  install_gates_next :
      (left i : ℕ) (idt : ℕ → IdtEntry)
      → i < 255
      → install_gates (suc left) i stubs idt
        ≡ install_gates left (i + 1) stubs (idt_set_gate i (stubs i) 0x08 0x8E idt)
  unfolding install_gates
  install_gates_next left i idt below = let next : u8 (i + 1) ≡ i + 1 = omega arith in rw next refl

  install_gates_other :
      (left i n : ℕ) (idt : ℕ → IdtEntry)
      → i + left < 256
      → (n < i) ⊎ (i + left ≤ n)
      → install_gates left i stubs idt n ≡ idt n
  unfolding install_gates
  install_gates_other zero i n idt fits far = refl
  install_gates_other (suc left) i n idt fits far =
      let next : u8 (i + 1) ≡ i + 1 = omega arith in
      rw next (
        install_gates_other left (i + 1) n (idt_set_gate i (stubs i) 0x08 0x8E idt) (omega arith)
          (omega (arith, far))
        ∙ set_gate_other i (stubs i) 0x08 0x8E n idt (ground (arith, far)))

  install_gates_installs :
      (left i n : ℕ) (idt : ℕ → IdtEntry)
      → i + left < 256
      → i ≤ n
      → n < i + left
      → stubs n < 2 ^ 32
      → IsGate (stubs n) (install_gates left i stubs idt n)
  install_gates_installs zero i n idt fits from before small = absurd (omega arith)
  install_gates_installs (suc left) i n idt fits from before small =
      rw (install_gates_next left i idt (omega arith)) (elim (dec_lt i n) [
        | yes later ↦
            install_gates_installs left (i + 1) n (idt_set_gate i (stubs i) 0x08 0x8E idt)
              (omega arith) (omega arith) (omega arith) small
        | no here ↦
            let same : i ≡ n = omega arith in
            let kept : install_gates left (i + 1) stubs (idt_set_gate i (stubs i) 0x08 0x8E idt) n
                ≡ idt_set_gate i (stubs i) 0x08 0x8E idt n =
              install_gates_other left (i + 1) n (idt_set_gate i (stubs i) 0x08 0x8E idt)
                (omega arith) (inl (omega arith)) in
            rw (kept, same) (set_gate_here n (stubs n) 0x08 0x8E idt small)
      ])

  -- After `idt_init`, each of the vectors 0 to 47 has a gate of ring 0 to its stub, whose address
  -- has 32 bits, whatever the
  -- table held before.
  pub idt_init-IsGate :
      (idt : ℕ → IdtEntry) (n : ℕ)
      → n < 48
      → stubs n < 2 ^ 32
      → IsGate (stubs n) (idt_init stubs idt n)
  unfolding idt_init
  idt_init-IsGate idt n low small =
      install_gates_installs 48 0 n (clear_gates idt_entries 0 idt) (omega arith) (omega arith)
        (omega arith) small

  -- After `idt_init`, the entry of every other vector has no attribute, so that it is not present.
  pub idt_init_absent :
      (idt : ℕ → IdtEntry) (n : ℕ) → 48 ≤ n → n < 256 → (idt_init stubs idt n).type_attr ≡ 0
  unfolding idt_init
  idt_init_absent idt n high byte =
      ap (λ (e : IdtEntry). e.type_attr)
        (install_gates_other 48 0 n (clear_gates idt_entries 0 idt) (omega arith) (inr high))
      ∙ clear_gates_clears idt_entries 0 n idt (omega arith) (omega arith) byte
