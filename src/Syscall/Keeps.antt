-- ===== src/Syscall/Keeps.antt =====
-- Every system call keeps the ring buffer valid and the console on its screen.
use little_os.Base.{
  ℕ, ◌-◌, ◌≡◌, refl, not, ◌&&◌, ◌||◌, ltb, leb, ◌==◌, inl, inr, Bool-cases, Option, none, some,
  if◌then◌else◌, List, [], ◌∷◌,
}
use little_os.Keyboard.{Keyboard}
use little_os.Keyboard.Refine.{IsValid, getchar-IsValid}
use little_os.Keyboard.Runs.{interrupt_handler-IsValid}
use little_os.Framebuffer.Shown.{IsShown, fb_write-IsShown, clear-IsShown}
use little_os.Serial.Ring.{serial_interrupt-IsValid}
use little_os.Syscall.{
  Interrupt, keyboard_irq, serial_irq, interrupts, Registers, Machine, echo, turn, Poll, poll, Turn,
  breaks, goes_on, handle_char, read_line, finish_line, sys_read, sys_write, sys_clear, do_syscall,
  returns, minus_one,
}

-- The drivers that a call uses are in a proper state.
pub record IsFit (m : Machine) : Type 0 where
  pub ring : IsValid m.keyboard
  pub console : IsShown m.screen

pub interrupts-IsValid :
    (is : List Interrupt) (k : Keyboard) → IsValid k → IsValid (interrupts is k)
unfolding interrupts
interrupts-IsValid [] k v = v
interrupts-IsValid (keyboard_irq s ∷ is) k v =
    interrupts-IsValid is _ (interrupt_handler-IsValid s k v)
interrupts-IsValid (serial_irq cs ∷ is) k v =
    interrupts-IsValid is _ (serial_interrupt-IsValid cs k v)

poll-IsValid : (p : Poll) (k : Keyboard) → IsValid k → IsValid (poll p k).1
unfolding poll
poll-IsValid p k v = getchar-IsValid (interrupts p.before k) (interrupts-IsValid p.before k v)

-- A turn of the loop, and what it ends with.
abbrev IsFitTurn : Turn → Type 0
IsFitTurn (breaks idx m) = IsFit m
IsFitTurn (goes_on idx m) = IsFit m

abbrev IsFitResult : Option (ℕ × Machine) → Type 0
IsFitResult none = Unit
IsFitResult (some (result, m)) = IsFit m

echo-IsFit : (shown sent : List ℕ) (m : Machine) → IsFit m → IsFit (echo shown sent m)
unfolding echo
echo-IsFit shown sent m h = record {
  ring = h.ring;
  console = fb_write-IsShown shown m.screen h.console;
}

handle_char-IsFit : (buf c idx : ℕ) (m : Machine) → IsFit m → IsFitTurn (handle_char buf c idx m)
unfolding handle_char
handle_char-IsFit buf c idx m h = elim (Bool-cases (c == 0 || c == 10 || c == 13)) [
  | inl is_end ↦ rw is_end (echo-IsFit _ _ m h)
  | inr goes ↦ elim (Bool-cases (c == 8 || c == 127)) [
    | inl is_rub ↦ elim (Bool-cases (ltb 0 idx)) [
      | inl some_left ↦ rw (goes, is_rub, some_left) (echo-IsFit _ _ m h)
      | inr none_left ↦ rw (goes, is_rub, none_left) h
    ]
    | inr shown ↦
        rw (goes, shown) (record { ring = h.ring; console = fb_write-IsShown _ m.screen h.console })
  ]
]

turn-IsFit : (buf idx : ℕ) (p : Poll) (m : Machine) → IsFit m → IsFitTurn (turn buf idx p m)
unfolding turn
turn-IsFit buf idx p m h = out (poll p m.keyboard).0 refl
  where
    fit : IsFit (record m { keyboard = (poll p m.keyboard).1 })
    fit = record { ring = poll-IsValid p m.keyboard h.ring; console = h.console }

    out : (r : Option ℕ) → (poll p m.keyboard).0 ≡ r → IsFitTurn (turn buf idx p m)
    out none e = rw (turn, e) fit
    out (some c) e = rw (turn, e) (handle_char-IsFit buf c idx _ fit)

read_line-IsFit :
    (ps : List Poll) (buf max_count idx : ℕ) (m : Machine)
    → IsFit m
    → IsFitResult (read_line ps buf max_count idx m)
unfolding read_line
read_line-IsFit [] buf max_count idx m h = elim (Bool-cases (ltb idx (max_count - 1))) [
  | inl more ↦ rw more tt
  | inr full ↦ rw full h
]
read_line-IsFit (p ∷ ps) buf max_count idx m h = elim (Bool-cases (ltb idx (max_count - 1))) [
  | inl more ↦
      rw (more, read_line)
        (out (read_line-IsFit ps buf max_count) (turn buf idx p m) (turn-IsFit buf idx p m h))
  | inr full ↦ rw (full, read_line) h
]
  where
    out :
        ((i : ℕ) (m' : Machine) → IsFit m' → IsFitResult (read_line ps buf max_count i m'))
        → (t : Turn) → IsFitTurn t
        → IsFitResult
            (elim t [ breaks i m' ↦ some (i, m') | goes_on i m' ↦ read_line ps buf max_count i m' ])
    out later (breaks i m') h = h
    out later (goes_on i m') h = later i m' h

finish_line-IsFit :
    (buf : ℕ) (r : Option (ℕ × Machine)) → IsFitResult r → IsFitResult (finish_line buf r)
unfolding finish_line
finish_line-IsFit buf none h = h
finish_line-IsFit buf (some (idx, m)) h = record { ring = h.ring; console = h.console }

sys_read-IsFit :
    (ps : List Poll) (buf max_count : ℕ) (m : Machine)
    → IsFit m
    → IsFitResult (sys_read ps buf max_count m)
unfolding sys_read
sys_read-IsFit ps buf max_count m h = elim (Bool-cases (buf == 0 || leb max_count 1)) [
  | inl improper ↦ elim (Bool-cases (not (buf == 0) && max_count == 1)) [
    | inl one ↦ rw (sys_read, improper, one) (record { ring = h.ring; console = h.console })
    | inr nothing ↦ rw (sys_read, improper, nothing) h
  ]
  | inr proper ↦
      rw (sys_read, proper) (finish_line-IsFit buf _ (read_line-IsFit ps buf max_count 0 m h))
]

sys_write-IsFit : (buf count : ℕ) (m : Machine) → IsFit m → IsFit (sys_write buf count m)
unfolding sys_write
sys_write-IsFit buf count m h = elim (Bool-cases (not (buf == 0) && ltb 0 count)) [
  | inl given ↦ rw given (echo-IsFit _ _ m h)
  | inr nothing ↦ rw nothing h
]

abbrev IsFitCall : Option (Registers × Machine) → Type 0
IsFitCall none = Unit
IsFitCall (some (r, m)) = IsFit m

returns-IsFit :
    (r : Registers) (result : Option (ℕ × Machine))
    → IsFitResult result
    → IsFitCall (returns r result)
unfolding returns
returns-IsFit r none h = tt
returns-IsFit r (some (result, m)) h = h

read_call :
    (ps : List Poll) (r : Registers) (m : Machine)
    → IsFit m
    → IsFitCall (returns r (if r.ebx == 0 then sys_read ps r.ecx r.edx m else some (minus_one, m)))
read_call ps r m h = elim (Bool-cases (r.ebx == 0)) [
  | inl keys ↦ rw keys (returns-IsFit r _ (sys_read-IsFit ps r.ecx r.edx m h))
  | inr bad ↦ rw bad (returns-IsFit r _ h)
]

write_call :
    (r : Registers) (m : Machine)
    → IsFit m
    → IsFitCall (
        returns r (
          if r.ebx == 1 || r.ebx == 2
          then some (r.edx, sys_write r.ecx r.edx m)
          else some (minus_one, m)))
write_call r m h = elim (Bool-cases (r.ebx == 1 || r.ebx == 2)) [
  | inl out ↦ rw out (returns-IsFit r _ (sys_write-IsFit r.ecx r.edx m h))
  | inr bad ↦ rw bad (returns-IsFit r _ h)
]

do_syscall-IsFitCall :
    (ps : List Poll) (r : Registers) (m : Machine) → IsFit m → IsFitCall (do_syscall ps r m)
unfolding do_syscall sys_clear
do_syscall-IsFitCall ps r m h = elim (Bool-cases (r.eax == 4)) [
  | inl write ↦ rw write (write_call r m h)
  | inr n4 ↦ elim (Bool-cases (r.eax == 1)) [
    | inl exit ↦ rw (n4, exit) (returns-IsFit r _ h)
    | inr n1 ↦ elim (Bool-cases (r.eax == 5)) [
      | inl clear ↦
          rw (n4, n1, clear)
            (returns-IsFit r _ (record { ring = h.ring; console = clear-IsShown m.screen }))
      | inr n5 ↦ elim (Bool-cases (r.eax == 3)) [
        | inl read ↦ rw (n4, n1, n5, read) (read_call ps r m h)
        | inr unknown ↦ rw (n4, n1, n5, unknown) (returns-IsFit r _ h)
      ]
    ]
  ]
]

-- A system call that returns keeps the ring buffer valid and the console on its screen, whatever it
-- asks for and whatever arrives while it waits.
pub do_syscall-IsFit :
    (ps : List Poll) (r r' : Registers) (m m' : Machine)
    → do_syscall ps r m ≡ some (r', m')
    → IsFit m
    → IsFit m'
do_syscall-IsFit ps r r' m m' e h = rw e at (do_syscall-IsFitCall ps r m h)
