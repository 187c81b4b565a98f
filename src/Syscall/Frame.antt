-- ===== src/Syscall/Frame.antt =====
-- Where a system call stores: SYS_READ does in the buffer that its caller names, wherever that is.
use little_os.Base.{
  ℕ, ◌+◌, ◌≤◌, ◌≡◌, ◌≢◌, ◌⊎◌, inl, inr, refl, not, ◌&&◌, ◌||◌, Bool-cases, Option, none, some, List,
  Memory, store8_ne, ltb, leb, ◌==◌, if◌then◌else◌, arith,
}
use little_os.Syscall.{
  Registers, Machine, Poll, echo, sys_read, sys_write, sys_clear, do_syscall, returns, minus_one,
}
use little_os.Syscall.Lines.{ReadsLine, sys_read_lem}

-- The half of the addresses that is the kernel's.
abbrev pub kernel_base : ℕ
kernel_base = 0xC0000000

-- A call whose buffer for SYS_READ lies below the kernel's half. The code does not test it.
abbrev pub IsLow : Registers → Type 0
IsLow r = (r.eax ≢ 3) ⊎ (r.ecx + r.edx ≤ kernel_base)

-- The bytes of the kernel's half are those of the memory `old`.
abbrev pub SameHigh : (old now : Memory) → Type 0
SameHigh old now = (x : ℕ) → kernel_base ≤ x → now x ≡ old x

abbrev SameHighResult : Memory → Option (ℕ × Machine) → Type 0
SameHighResult old none = Unit
SameHighResult old (some (result, m)) = SameHigh old m.memory

abbrev SameHighCall : Memory → Option (Registers × Machine) → Type 0
SameHighCall old none = Unit
SameHighCall old (some (r, m)) = SameHigh old m.memory

ReadsLine-SameHigh :
    (old : Memory) (buf max_count : ℕ) (e : Option (List ℕ)) (r : Option (ℕ × Machine))
    → buf + max_count ≤ kernel_base
    → ReadsLine old buf max_count e r
    → SameHighResult old r
ReadsLine-SameHigh old buf max_count e none low h = tt
ReadsLine-SameHigh old buf max_count none (some r) low h = absurd h
ReadsLine-SameHigh old buf max_count (some line) (some (result, m)) low h =
    λ x high. h.outside x (omega (arith, low, high))

sys_read-SameHigh :
    (ps : List Poll) (buf max_count : ℕ) (m : Machine)
    → buf + max_count ≤ kernel_base
    → SameHighResult m.memory (sys_read ps buf max_count m)
unfolding sys_read
sys_read-SameHigh ps buf max_count m low = elim (Bool-cases (buf == 0 || leb max_count 1)) [
  | inl improper ↦ elim (Bool-cases (not (buf == 0) && max_count == 1)) [
    | inl one ↦
        let single : max_count ≡ 1 = ground (arith, one) in
        rw (sys_read, improper, one)
          (λ x high. store8_ne m.memory buf 0 x (omega (arith, low, high, single)))
    | inr nothing ↦ rw (sys_read, improper, nothing) (λ x high. refl)
  ]
  | inr proper ↦ ReadsLine-SameHigh m.memory buf max_count _ (sys_read ps buf max_count m) low (
      sys_read_lem buf max_count (ground (arith, proper)) (ground (arith, proper))
        (omega (arith, low)) ps m)
]

returns-SameHigh :
    (old : Memory) (r : Registers) (result : Option (ℕ × Machine))
    → SameHighResult old result
    → SameHighCall old (returns r result)
unfolding returns
returns-SameHigh old r none h = tt
returns-SameHigh old r (some (result, m)) h = h

write_call :
    (r : Registers) (m : Machine)
    → SameHighCall m.memory (
        returns r (
          if r.ebx == 1 || r.ebx == 2
          then some (r.edx, sys_write r.ecx r.edx m)
          else some (minus_one, m)))
unfolding returns sys_write echo
write_call r m = elim (Bool-cases (r.ebx == 1 || r.ebx == 2)) [
  | inl out ↦ elim (Bool-cases (not (r.ecx == 0) && ltb 0 r.edx)) [
    | inl given ↦ rw (out, given) (λ x high. refl)
    | inr nothing ↦ rw (out, nothing) (λ x high. refl)
  ]
  | inr bad ↦ rw bad (λ x high. refl)
]

read_call :
    (ps : List Poll) (r : Registers) (m : Machine)
    → r.ecx + r.edx ≤ kernel_base
    → SameHighCall m.memory
        (returns r (if r.ebx == 0 then sys_read ps r.ecx r.edx m else some (minus_one, m)))
read_call ps r m low = elim (Bool-cases (r.ebx == 0)) [
  | inl keys ↦ rw keys (returns-SameHigh m.memory r _ (sys_read-SameHigh ps r.ecx r.edx m low))
  | inr bad ↦ rw bad (returns-SameHigh m.memory r (some (minus_one, m)) (λ x high. refl))
]

do_syscall-SameHighCall :
    (ps : List Poll) (r : Registers) (m : Machine)
    → IsLow r
    → SameHighCall m.memory (do_syscall ps r m)
unfolding do_syscall sys_clear returns
do_syscall-SameHighCall ps r m low = elim (Bool-cases (r.eax == 4)) [
  | inl write ↦ rw write (write_call r m)
  | inr n4 ↦ elim (Bool-cases (r.eax == 1)) [
    | inl exit ↦ rw (n4, exit) (λ x high. refl)
    | inr n1 ↦ elim (Bool-cases (r.eax == 5)) [
      | inl clear ↦ rw (n4, n1, clear) (λ x high. refl)
      | inr n5 ↦ elim (Bool-cases (r.eax == 3)) [
        | inl read ↦ rw (n4, n1, n5, read) (read_call ps r m (ground (arith, read, low)))
        | inr unknown ↦ rw (n4, n1, n5, unknown) (λ x high. refl)
      ]
    ]
  ]
]

-- A system call that returns changes no byte of the kernel's half, where the buffer of a SYS_READ lies
-- below it.
pub do_syscall-SameHigh :
    (ps : List Poll) (r r' : Registers) (m m' : Machine)
    → do_syscall ps r m ≡ some (r', m')
    → IsLow r
    → SameHigh m.memory m'.memory
do_syscall-SameHigh ps r r' m m' e low = rw e at (do_syscall-SameHighCall ps r m low)
