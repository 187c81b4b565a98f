-- ===== src/User.antt =====
-- userland/libc/src/syscall.s: the stubs of the system calls, and the calls of a user program.
-- A stub sets the registers that it names; the others keep what they hold before it. `none` is a
-- call that waits longer than the list of what arrives.
pub mod Sys
pub mod Calls
pub mod Shell
mod Examples
use little_os.Base.{ℕ, Option, none, some, List, [], ◌∷◌, Memory}
use little_os.Syscall.{Registers, Machine, Poll, do_syscall}

-- `int 0x80`, with its result in `eax`.
pub int_0x80 : List Poll → Registers → Machine → Option (ℕ × Machine)
int_0x80 ps r m = elim (do_syscall ps r m) [ none ↦ none | some (r', m') ↦ some (r'.eax, m') ]

pub sys_exit : Registers → (code : ℕ) → Machine → Option (ℕ × Machine)
sys_exit held code m = int_0x80 [] (record held { eax = Sys.exit; ebx = code }) m

pub sys_read : List Poll → Registers → (fd buf count : ℕ) → Machine → Option (ℕ × Machine)
sys_read ps held fd buf count m =
    int_0x80 ps (record held { eax = Sys.read; ebx = fd; ecx = buf; edx = count }) m

pub sys_write : Registers → (fd buf count : ℕ) → Machine → Option (ℕ × Machine)
sys_write held fd buf count m =
    int_0x80 [] (record held { eax = Sys.write; ebx = fd; ecx = buf; edx = count }) m

pub sys_clear : Registers → Machine → Option (ℕ × Machine)
sys_clear held m = int_0x80 [] (record held { eax = Sys.clear }) m

-- A call that a program makes for its output, and its memory at that time.
pub data Call : Type 0 where
  writes : (held : Registers) (memory : Memory) (buf count : ℕ) → Call
  clears : (held : Registers) (memory : Memory) → Call

pub make : Call → Machine → Option (ℕ × Machine)
make (writes held memory buf count) m = sys_write held 1 buf count (record m { memory = memory })
make (clears held memory) m = sys_clear held (record m { memory = memory })

-- The calls, one behind another.
pub perform : List Call → Machine → Option Machine
perform [] m = some m
perform (c ∷ cs) m = elim (make c m) [ none ↦ none | some (result, m') ↦ perform cs m' ]
