-- ===== src/Syscall.antt =====
-- kernel/syscall.c: the handler of `int 0x80`, with the line editor of SYS_READ.
-- Only the registers that it reads or writes are modelled. What happens while SYS_READ waits is a
-- list with one entry for each turn of its loop.
pub mod Sys
pub mod Edit
pub mod Refine
pub mod Lines
pub mod Ends
pub mod Calls
pub mod Gate
pub mod Echo
pub mod Keeps
pub mod Frame
mod Examples
use little_os.Base.{
  ℕ, zero, suc, ◌+◌, ◌-◌, ◌^◌, Bool, true, false, not, ◌&&◌, ◌||◌, Option, none, some, List, [],
  ◌∷◌, Memory, store8, ltb, leb, ◌==◌, if◌then◌else◌, u8, u32,
}
use little_os.Keyboard.{Keyboard, getchar}
use little_os.Keyboard
use little_os.Framebuffer.{Framebuffer, fb_write}
use little_os.Framebuffer
use little_os.Serial.{serial_write, serial_write_char, serial_read_char, serial_interrupt}
use little_os.Tables.{IdtEntry, idt_set_gate}

pub record Registers : Type 0 where
  pub eax : ℕ
  pub ebx : ℕ
  pub ecx : ℕ
  pub edx : ℕ

-- What a system call reaches: the drivers, the bytes sent on COM1, newest first, and the memory.
pub record Machine : Type 0 where
  pub keyboard : Keyboard
  pub screen : Framebuffer
  pub line : List ℕ
  pub memory : Memory

pub data Interrupt : Type 0 where
  keyboard_irq : ℕ → Interrupt
  serial_irq : List ℕ → Interrupt

unfoldable pub interrupts : List Interrupt → Keyboard → Keyboard
interrupts [] k = k
interrupts (keyboard_irq s ∷ rest) k = interrupts rest (Keyboard.interrupt_handler s k)
interrupts (serial_irq cs ∷ rest) k = interrupts rest (serial_interrupt cs k)

-- The interrupts that come before a turn of the loop, and what the UART answers in it.
pub record Poll : Type 0 where
  pub before : List Interrupt
  pub status : ℕ
  pub byte : ℕ

-- The `c` of a turn: the keyboard's character, else the UART's.
unfoldable pub poll : Poll → Keyboard → Option ℕ × Keyboard
poll p k =
    let (c, k') = getchar (interrupts p.before k) in
    (elim c [ some c ↦ some c | none ↦ serial_read_char p.status p.byte ], k')

-- `fb_write` and `serial_write` of what a key shows.
pub echo : (shown sent : List ℕ) → Machine → Machine
echo shown sent m = record m { screen = fb_write shown m.screen; line = serial_write sent m.line }

-- A turn of the loop breaks, or goes on, with the index and the machine.
pub data Turn : Type 0 where
  breaks goes_on : ℕ → Machine → Turn

pub handle_char : (buf c idx : ℕ) → Machine → Turn
handle_char buf c idx m =
    if c == 0 || c == 10 || c == 13
    then breaks idx (echo (10 ∷ []) (13 ∷ 10 ∷ []) m)
    else if c == 8 || c == 127
    then (if ltb 0 idx
        then goes_on (idx - 1) (echo (8 ∷ []) (8 ∷ 32 ∷ 8 ∷ []) m)
        else goes_on idx m)
    else goes_on (idx + 1) (record m {
      memory = store8 m.memory (u32 (buf + idx)) (u8 c);
      screen = fb_write (u8 c ∷ []) m.screen;
      line = serial_write_char (u8 c) m.line;
    })

pub turn : (buf idx : ℕ) → Poll → Machine → Turn
turn buf idx p m =
    let (c, k) = poll p m.keyboard in
    elim c [
      | none ↦ goes_on idx (record m { keyboard = k })
      | some c ↦ handle_char buf c idx (record m { keyboard = k })
    ]

-- `while (idx < max_count - 1)`; `none` is a wait that has not ended with the list.
pub read_line : List Poll → (buf max_count idx : ℕ) → Machine → Option (ℕ × Machine)
read_line [] buf max_count idx m = if ltb idx (max_count - 1) then none else some (idx, m)
read_line (p ∷ ps) buf max_count idx m = elim (ltb idx (max_count - 1)) [
  | true ↦ elim (turn buf idx p m) [
    | breaks i m' ↦ some (i, m')
    | goes_on i m' ↦ read_line ps buf max_count i m'
  ]
  | false ↦ some (idx, m)
]

pub finish_line : (buf : ℕ) → Option (ℕ × Machine) → Option (ℕ × Machine)
finish_line buf none = none
finish_line buf (some (idx, m)) =
    some (idx, record m { memory = store8 m.memory (u32 (buf + idx)) 0 })

-- The case SYS_READ for the descriptor 0: the result for `eax`, and the machine.
pub sys_read : List Poll → (buf max_count : ℕ) → Machine → Option (ℕ × Machine)
sys_read ps buf max_count m =
    if buf == 0 || leb max_count 1
    then some (
      0,
      (if not (buf == 0) && max_count == 1 then record m { memory = store8 m.memory buf 0 } else m),
    )
    else finish_line buf (read_line ps buf max_count 0 m)

unfoldable pub load_bytes : Memory → (a n : ℕ) → List ℕ
load_bytes mem a zero = []
load_bytes mem a (suc n) = mem (u32 a) ∷ load_bytes mem (a + 1) n

-- The case SYS_WRITE for the descriptors 1 and 2.
pub sys_write : (buf count : ℕ) → Machine → Machine
sys_write buf count m =
    if not (buf == 0) && ltb 0 count
    then echo (load_bytes m.memory buf count) (load_bytes m.memory buf count) m
    else m

-- "\033[2J\033[H"
abbrev pub wipe_code : List ℕ
wipe_code = 27 ∷ 91 ∷ 50 ∷ 74 ∷ 27 ∷ 91 ∷ 72 ∷ []

-- SYS_CLEAR, which also sends the escape codes.
pub sys_clear : Machine → Machine
sys_clear m = record m { screen = Framebuffer.clear m.screen; line = serial_write wipe_code m.line }

-- The casts `(uint32_t)-1` and `(uint32_t)-ENOSYS`.
abbrev pub minus_one : ℕ
minus_one = 2 ^ 32 - 1

abbrev pub minus_enosys : ℕ
minus_enosys = 2 ^ 32 - 38

-- `regs->eax = result`
pub returns : Registers → Option (ℕ × Machine) → Option (Registers × Machine)
returns r none = none
returns r (some (result, m)) = some (record r { eax = result }, m)

-- `regs` is the frame that the stub passes, which is never null. A buffer is any address: the memory
-- is the whole of what a user pointer reaches.
pub do_syscall : List Poll → Registers → Machine → Option (Registers × Machine)
do_syscall ps r m = returns r (
    if r.eax == Sys.write
    then (if r.ebx == 1 || r.ebx == 2
        then some (r.edx, sys_write r.ecx r.edx m)
        else some (minus_one, m))
    else if r.eax == Sys.exit
    then some (r.ebx, m)
    else if r.eax == Sys.clear
    then some (0, sys_clear m)
    else if r.eax == Sys.read
    then (if r.ebx == 0 then sys_read ps r.ecx r.edx m else some (minus_one, m))
    else some (minus_enosys, m))

-- `handler` is the address of `Int128Handler`.
pub syscall_init : (handler : ℕ) → (ℕ → IdtEntry) → ℕ → IdtEntry
syscall_init handler idt = idt_set_gate 0x80 handler 0x08 0xEE idt
