-- ===== src/Syscall/Calls.antt =====
-- The calls that return at once, the rejected ones, SYS_WRITE and SYS_CLEAR, and what a caller of
-- SYS_READ gets.
use little_os.Base.{
  zero, suc, sym, ℕ, ◌≡◌, ◌≢◌, ◌⊎◌, inl, inr, refl, true, false, not, ◌&&◌, some, List, ltb, ◌==◌,
  ◌||◌, arith,
}
use little_os.Framebuffer.Place.{Shows}
use little_os.Framebuffer.Screen.{Screen, type_chars}
use little_os.Framebuffer.Refine.{fb_write-Shows, wiped, clear-wiped}
use little_os.Framebuffer.Loops.{fb_write-nil}
use little_os.Serial.{serial_write}
use little_os.Serial.Rate.{serial_write-nil}
use little_os.Syscall.Echo.{Wrote}
use little_os.Syscall.{
  Registers, Machine, Poll, echo, sys_write, load_bytes, sys_read, sys_clear, wipe_code, do_syscall,
  returns, minus_one, minus_enosys,
}

-- A call that is not served: what it asks and the code it gets.
abbrev pub IsRejected : Registers → ℕ → Type 0
IsRejected r code =
    ((code ≡ minus_enosys) × (r.eax ≢ 1) × (r.eax ≢ 3) × (r.eax ≢ 4) × (r.eax ≢ 5))
    ⊎ ((code ≡ minus_one) × (r.eax ≡ 4) × (r.ebx ≢ 1) × (r.ebx ≢ 2))
    ⊎ ((code ≡ minus_one) × (r.eax ≡ 3) × (r.ebx ≢ 0))

-- A call with an unknown number, or with a wrong file descriptor, gets its error code at once and
-- changes nothing else.
pub do_syscall_rejects :
    (ps : List Poll) (r : Registers) (m : Machine) (code : ℕ)
    → IsRejected r code
    → do_syscall ps r m ≡ some (record r { eax = code }, m)
unfolding do_syscall returns
do_syscall_rejects ps r m code (inl h) =
    let n4 : (r.eax == 4) ≡ false = ground (arith, h) in
    let n1 : (r.eax == 1) ≡ false = ground (arith, h) in
    let n5 : (r.eax == 5) ≡ false = ground (arith, h) in
    let n3 : (r.eax == 3) ≡ false = ground (arith, h) in rw (n4, n1, n5, n3, h.0) refl
do_syscall_rejects ps r m code (inr (inl h)) =
    let bad : (r.ebx == 1 || r.ebx == 2) ≡ false = ground (arith, h) in rw (h.1, bad, h.0) refl
do_syscall_rejects ps r m code (inr (inr h)) =
    let bad : (r.ebx == 0) ≡ false = ground (arith, h) in rw (h.1, bad, h.0) refl

-- SYS_WRITE of a null buffer, or of no bytes, does nothing; the bytes of any other are echoed.
sys_write-Wrote :
    (buf count : ℕ) (m : Machine)
    → buf ≢ 0
    → Wrote
        (load_bytes m.memory buf count)
        (load_bytes m.memory buf count)
        m
        (sys_write buf count m)
      × ((sys_write buf count m).keyboard ≡ m.keyboard)
      × ((sys_write buf count m).memory ≡ m.memory)
unfolding sys_write echo load_bytes
sys_write-Wrote buf zero m given =
    let empty : (not (buf == 0) && ltb 0 0) ≡ false = ground (arith, given) in
    rw empty (
      record { screen = sym (fb_write-nil m.screen); line = sym (serial_write-nil m.line) },
      refl,
      refl,
    )
sys_write-Wrote buf (suc n) m given =
    let some_bytes : (not (buf == 0) && ltb 0 (suc n)) ≡ true = ground (arith, given) in
    rw some_bytes (record { screen = refl; line = refl }, refl, refl)

-- SYS_WRITE of a buffer that is not null to the descriptor 1 or 2, on a console that shows a screen,
-- returns its count at once, types its bytes on the screen, sends the same bytes on COM1, and leaves
-- the keyboard and the memory as they are.
pub do_syscall_writes :
    (ps : List Poll) (r : Registers) (m : Machine) (s : Screen)
    → r.eax ≡ 4
    → (r.ebx ≡ 1) ⊎ (r.ebx ≡ 2)
    → r.ecx ≢ 0
    → Shows m.screen s
    → (m' : Machine) × (do_syscall ps r m ≡ some (record r { eax = r.edx }, m'))
      × Shows m'.screen (type_chars (load_bytes m.memory r.ecx r.edx) s)
      × (m'.line ≡ serial_write (load_bytes m.memory r.ecx r.edx) m.line)
      × (m'.keyboard ≡ m.keyboard)
      × (m'.memory ≡ m.memory)
unfolding do_syscall returns
do_syscall_writes ps r m s write fd buf v =
    let stdout : (r.ebx == 1 || r.ebx == 2) ≡ true = ground (arith, fd) in
    let done = sys_write-Wrote r.ecx r.edx m buf in
    (
      sys_write r.ecx r.edx m,
      rw (write, stdout) refl,
      rw done.0.screen (fb_write-Shows (load_bytes m.memory r.ecx r.edx) m.screen s v),
      done.0.line,
      done.1,
      done.2,
    )

-- SYS_CLEAR wipes the screen, and sends the code that wipes a terminal.
pub do_syscall_clears :
    (ps : List Poll) (r : Registers) (m : Machine) (s : Screen)
    → r.eax ≡ 5
    → Shows m.screen s
    → (m' : Machine) × (do_syscall ps r m ≡ some (record r { eax = 0 }, m'))
      × Shows m'.screen (wiped s)
      × (m'.line ≡ serial_write wipe_code m.line)
      × (m'.keyboard ≡ m.keyboard)
      × (m'.memory ≡ m.memory)
unfolding do_syscall returns sys_clear
do_syscall_clears ps r m s clear v =
    (sys_clear m, rw clear refl, clear-wiped m.screen s v, refl, refl, refl)

-- SYS_READ of the descriptor 0 returns what the line editor does.
pub do_syscall_reads :
    (ps : List Poll) (r : Registers) (m m' : Machine) (result : ℕ)
    → r.eax ≡ 3
    → r.ebx ≡ 0
    → sys_read ps r.ecx r.edx m ≡ some (result, m')
    → do_syscall ps r m ≡ some (record r { eax = result }, m')
unfolding do_syscall returns
do_syscall_reads ps r m m' result read fd e = rw (read, fd, e) refl
