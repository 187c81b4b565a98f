-- ===== src/Syscall/Examples.antt =====
-- Runs of the system calls, and their theorems at a machine that reads a line.
use little_os.Tables.{IdtEntry, idt_init}
use little_os.Base.{◌+◌, ◌*◌, ◌≡◌, inl, refl, none, some, List, [], ◌∷◌, ℕ, arith, false}
use little_os.Keyboard.{Keyboard, getchar}
use little_os.Framebuffer.Sample.{dark}
use little_os.Serial.{serial_read_char}
use little_os.Syscall.{
  syscall_init, Registers, Machine, Poll, poll, interrupts, sys_read, do_syscall, minus_enosys,
}
use little_os.Syscall.Echo.{echoes, screen_echo, line_echo, Wrote, sys_read-Wrote}
use little_os.Syscall.Edit.{stroke, edit}
use little_os.Syscall.Refine.{answers}
use little_os.Syscall.Lines.{ReadsLine, sys_read_lem}
use little_os.Syscall.Ends.{sys_read_returns}
use little_os.Syscall.Calls.{do_syscall_rejects}

abbrev silent_keyboard : Keyboard
silent_keyboard = record { shift_active = false; buffer = λ i. 0; head = 0; tail = 0; count = 0 }

abbrev machine : Machine
machine = record { keyboard = silent_keyboard; screen = dark; line = []; memory = λ a. 7 }

-- A turn with no character, `l` from COM1, a backspace, `x` and the key Enter.
abbrev polls : List Poll
polls =
    record { before = []; status = 0; byte = 0 }
    ∷ record { before = []; status = 1; byte = b'l' }
    ∷ record { before = []; status = 1; byte = 127 }
    ∷ record { before = []; status = 1; byte = b'x' }
    ∷ record { before = []; status = 1; byte = 13 }
    ∷ []

edited : edit 15 (none ∷ some b'l' ∷ some 127 ∷ some b'x' ∷ some 13 ∷ []) [] ≡ some (b'x' ∷ [])
unfolding edit stroke
edited = refl

sys_read_lem_example :
    ReadsLine machine.memory 4096 16
      (edit 15 (answers polls silent_keyboard) [])
      (sys_read polls 4096 16 machine)
sys_read_lem_example = sys_read_lem 4096 16 (omega arith) (omega arith) (omega arith) polls machine

arriving : answers polls silent_keyboard ≡ none ∷ some b'l' ∷ some 127 ∷ some b'x' ∷ some 13 ∷ []
unfolding answers poll interrupts getchar serial_read_char
arriving = refl

sys_read_returns_example : (out : ℕ × Machine) × (sys_read polls 4096 16 machine ≡ some out)
unfolding stroke
sys_read_returns_example =
    sys_read_returns 4096 16 (omega arith) (omega arith) (omega arith) polls machine
      (none ∷ some b'l' ∷ some 127 ∷ some b'x' ∷ []) 13 [] arriving refl

abbrev fork_call : Registers
fork_call = record { eax = 2; ebx = 0; ecx = 0; edx = 0 }

fork_refused :
    do_syscall polls fork_call machine ≡ some (record fork_call { eax = minus_enosys }, machine)
fork_refused =
    do_syscall_rejects polls fork_call machine minus_enosys
      (inl (refl, omega arith, omega arith, omega arith, omega arith))

-- A turn takes the keyboard's character before the one from COM1, and that one next.
abbrev keyed : Keyboard
keyed = record silent_keyboard { buffer = λ i. b'k'; tail = 1; count = 1 }

abbrev both : Poll
both = record { before = []; status = 1; byte = b'u' }

keyboard_first : (poll both keyed).0 ≡ some b'k'
unfolding poll interrupts getchar
keyboard_first = refl

line_next : (poll both (poll both keyed).1).0 ≡ some b'u'
unfolding poll interrupts getchar serial_read_char
line_next = refl

-- A read into the table at the kernel's base.
abbrev kernel_read : Registers
kernel_read = record { eax = 3; ebx = 0; ecx = 0xC0110000; edx = 16 }

abbrev write_call : Registers
write_call = record { eax = 4; ebx = 1; ecx = 4096; edx = 2 }

abbrev stubs : ℕ → ℕ
stubs v = 0xC0100000 + 16 * v

abbrev unset : ℕ → IdtEntry
unset v = record {
  offset_lowerbits = 0;
  selector = 0;
  reserved = 0;
  type_attr = 0xEE;
  offset_higherbits = 0;
}

abbrev gates : ℕ → IdtEntry
gates = syscall_init 0xC0101234 (idt_init stubs unset)

-- What the line of the turns above leaves.
ended : (out : ℕ × Machine) × (sys_read polls 4096 16 machine ≡ some out)
unfolding stroke
ended =
    sys_read_returns 4096 16 (omega arith) (omega arith) (omega arith) polls machine
      (none ∷ some b'l' ∷ some 127 ∷ some b'x' ∷ []) 13 [] arriving refl

sys_read-Wrote_example :
    Wrote
      (echoes screen_echo 15 (answers polls silent_keyboard) 0)
      (echoes line_echo 15 (answers polls silent_keyboard) 0)
      machine
      ended.0.1
sys_read-Wrote_example =
    sys_read-Wrote 4096 16 polls machine ended.0.1 ended.0.0 (omega arith) (omega arith) ended.1
