-- ===== src/Running/Examples.antt =====
-- A kernel that boots, takes a key and refuses a call.
use little_os.Base.{◌≡◌, refl, inl, inr, none, some, [], ◌∷◌, ◌==◌, if◌then◌else◌, arith, Memory}
use little_os.Interrupts.{Cpu, StackState}
use little_os.Keyboard.Refine.{IsValid}
use little_os.Kmain.{keyboard_interrupt_handler, serial_interrupt_handler, Kernel}
use little_os.Kmain.Start.Boot.{outcome_of, kmain_lem}
use little_os.Kmain.Start.{Outcome, kmain, state_of}
use little_os.Serial.Uart.Sample.{Line, line}
use little_os.Syscall.Frame.{SameHigh}
use little_os.Kmain.Start.Sample.{
  at, at-IsLinked, loaded, given, given-is_readable, one_byte, silent, line-Answers,
}
use little_os.Syscall.{Registers}
use little_os.Syscall.Calls.{do_syscall_rejects}
use little_os.Running.{Running, interrupt, Reach, here, step, interrupted, called, machine, after}
use little_os.Running.Interrupt.{Serves, interrupt_lem}
use little_os.Running.Invariant.{IsLive, Enters, Reach-IsLive}

abbrev saved : Cpu
saved = record { edi = 0; esi = 0; ebp = 0; esp = 0; ebx = 0; edx = 0; ecx = 0; eax = 4 }

abbrev pushed : StackState
pushed = record { error_code = 0; eip = 0x40; cs = 0x1B; eflags = 0x202 }

-- The drivers at their vectors.
abbrev serving : Kernel
serving = record loaded {
  handlers = λ v.
      if v == 33
      then some keyboard_interrupt_handler
      else if v == 36
      then some serial_interrupt_handler
      else none;
}

serving-IsValid : IsValid serving.keyboard
serving-IsValid = record { head_in = omega arith; count_in = omega arith; tail_at = refl }

-- The UART takes two bytes.
interrupt_lem_example :
    Serves saved pushed 0x1E
      (b'o' ∷ b'k' ∷ [])
      serving
      36
      (interrupt saved pushed 36 0x1E (b'o' ∷ b'k' ∷ []) serving)
interrupt_lem_example =
    interrupt_lem saved pushed 0x1E (b'o' ∷ b'k' ∷ []) serving 36 (omega arith) (omega arith)
      serving-IsValid refl refl (inr (inl refl))

abbrev memory : Memory
memory a = 7

-- The start of the kernel, and what it leaves.
abbrev boot :
    (k' : Kernel) × (u' : Line) × (kmain line 3 one_byte at given 0x10000 loaded silent
      ≡ some (outcome_of given 0x10000 k', u', line-Answers.pending))
boot =
    let (k', u', run, shape, user, sent, grown) =
      kmain_lem at at-IsLinked loaded (λ i. omega arith) line one_byte 3 given 0x10000 silent
        line-Answers given-is_readable in
    (k', u', run)

abbrev outcome : Outcome
outcome = outcome_of given 0x10000 boot.0

abbrev started : Running
started = record { kernel = state_of outcome; memory = memory }

-- Behind the key `a`.
abbrev keyed : Running
keyed = record started { kernel = interrupt saved pushed 33 0x1E [] started.kernel }

abbrev fork_call : Registers
fork_call = record { eax = 2; ebx = 0; ecx = 0; edx = 0 }

refused : Reach started (after (machine keyed) keyed)
refused = step (step here (interrupted saved pushed 33 0x1E [] started (omega arith))) (
    called [] fork_call _ (machine keyed) keyed (inl (omega arith)) (
      do_syscall_rejects [] fork_call (machine keyed) _
        (inl (refl, omega arith, omega arith, omega arith, omega arith))))

Reach-IsLive_example :
    IsLive at (after (machine keyed) keyed).kernel
    × Enters at given 0x10000 loaded (after (machine keyed) keyed).kernel
    × SameHigh memory (after (machine keyed) keyed).memory
Reach-IsLive_example =
    Reach-IsLive at loaded line one_byte 3 given memory 0x10000 line-Answers.pending silent boot.1
      outcome at-IsLinked (λ i. omega arith) line-Answers given-is_readable boot.2 refused
