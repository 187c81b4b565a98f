-- ===== src/User/Examples.antt =====
-- The theorems of the user programs, at a shell that reads `echo hi`.
use little_os.Base.{
  ℕ, ◌-◌, ◌≡◌, refl, ◌++◌, false, get_or, some, List, [], ◌∷◌, arith, bytes, All, ◌<◌, take, Memory,
}
use little_os.Framebuffer.Place.{Shows}
use little_os.Framebuffer.Sample.{dark, dark_screen, dark-Shows}
use little_os.Framebuffer.Screen.{type_chars}
use little_os.Keyboard.{Keyboard, getchar}
use little_os.Serial.{serial_read_char}
use little_os.Shell.{max_args, is_space}
use little_os.Shell.Words.{words}
use little_os.Shell.Commands.{Event, answer}
use little_os.Shell.Commands.Dispatch.{sent}
use little_os.Shell.Commands.Echo.{join}
use little_os.Shell.Commands.Replies
use little_os.Shell.Commands.Sample.{place, holding, line-Literals}
use little_os.Syscall.{Registers, Machine, Poll, poll, interrupts, load_bytes}
use little_os.Syscall.Echo.{echoes, screen_echo}
use little_os.Syscall.Edit.{edit, stroke}
use little_os.Syscall.Refine.{answers}
use little_os.User.{sys_read, Call, writes, clears, perform}
use little_os.User.Calls.{asked_all, show, Told, perform_lem}
use little_os.User.Shell.{text, text_onto, line_lem}

abbrev silent_keyboard : Keyboard
silent_keyboard = record { shift_active = false; buffer = λ i. 0; head = 0; tail = 0; count = 0 }

abbrev machine : Machine
machine = record { keyboard = silent_keyboard; screen = dark; line = []; memory = holding [] }

abbrev held : Registers
held = record { eax = 7; ebx = 8; ecx = 9; edx = 10 }

-- The text `hi` and a new line, at 4096.
abbrev reply : Memory
reply x = get_or (bytes "hi\n") (x - 4096) 0

-- The reply in two calls, and a call that clears.
abbrev split_calls : List Call
split_calls = writes held reply 4096 2 ∷ clears held reply ∷ writes held reply 4098 1 ∷ []

perform_lem_example :
    (m' : Machine) × (perform split_calls machine ≡ some m')
    × Told (asked_all split_calls) dark_screen machine m'
perform_lem_example =
    perform_lem split_calls machine dark_screen ((omega arith), (tt, (omega arith, tt))) dark-Shows

abbrev keys : List ℕ → List Poll
keys [] = []
keys (c ∷ cs) = record { before = []; status = 1; byte = c } ∷ keys cs

abbrev typing : List Poll
typing = keys (bytes "echo hi\n")

abbrev line : List ℕ
line = bytes "ih ohce"

typed : edit 127 (answers typing silent_keyboard) [] ≡ some line
unfolding edit stroke answers poll interrupts getchar serial_read_char
typed = refl

-- The reply in one call.
abbrev calls : List Call
calls = writes held reply 4096 3 ∷ []

abbrev out : List Event
out = sent (join (bytes "hi" ∷ []) ++ bytes "\n")

asks : asked_all calls ≡ out
unfolding join load_bytes
asks = refl

line-words : take max_args (words (text line)) ≡ bytes "echo" ∷ bytes "hi" ∷ []
unfolding words is_space text_onto
line-words = refl

small : All (λ c. c < 256) line
small = (
  omega arith,
  (omega arith, (omega arith, (omega arith, (omega arith, (omega arith, (omega arith, tt)))))),
)

line_lem_example :
    (m' : Machine) × (m'' : Machine) × (sys_read typing held 0 64 128 machine ≡ some (7, m'))
    × (answer place 130 64 7 (λ i. 0) m'.memory ≡ some out)
    × (perform calls m' ≡ some m'')
    × Shows m''.screen (
        show out
          (type_chars (echoes screen_echo 127 (answers typing silent_keyboard) 0) dark_screen))
unfolding words is_space text_onto
line_lem_example =
    line_lem typing held 64 machine dark_screen line (omega arith) (omega arith) typed dark-Shows
      place 130 (λ i. 0) out (omega arith) (line-Literals []) small (omega arith)
      (Replies.echoes (bytes "hi" ∷ [])) calls (omega arith, tt) asks
