-- ===== src/Keyboard/Examples.antt =====
-- Runs of the keyboard driver, and its theorems at concrete keyboards.
use little_os.Base.{◌≡◌, refl, true, false, none, some, List, [], ◌∷◌, arith, store8}
use little_os.Keyboard.{Keyboard, put_char, getchar, interrupt_handler, run, read_char}
use little_os.Keyboard.Layout.{us_ascii, us_ascii_shift}
use little_os.Keyboard.Queue
use little_os.Keyboard.Queue.{Event, key, char, read, meaning, press, types}
use little_os.Keyboard.Refine.{IsValid, view}
use little_os.Keyboard.Runs.{run_refines}
use little_os.Keyboard.Wait
use little_os.Keyboard.Wait.{read_char_lem, drain_lem, outcome, IsQuiet}

abbrev idle : Keyboard
idle = record { shift_active = false; buffer = λ i. 0; head = 255; tail = 255; count = 0 }

idle-IsValid : IsValid idle
idle-IsValid = omega arith

-- Shift, A, release of both, B.
abbrev typing : List Event
typing = key 0x2A ∷ key 0x1E ∷ key 0x9E ∷ key 0xAA ∷ key 0x30 ∷ read ∷ read ∷ read ∷ []

run_typing : run idle typing ≡ some b'A' ∷ some b'b' ∷ none ∷ []
unfolding run interrupt_handler put_char getchar us_ascii us_ascii_shift store8
run_typing = refl

run_refines_example : run idle typing ≡ Queue.run (view idle) typing
run_refines_example = run_refines typing idle (omega arith) idle-IsValid

shift_is_quiet : ¬ Wait.IsTyping (meaning 0x2A)
unfolding meaning
shift_is_quiet h = h

a_types : meaning 0x1E ≡ types b'a' b'A'
unfolding meaning us_ascii us_ascii_shift
a_types = refl

-- Shift and then A, while the caller waits.
read_char_lem_example :
    outcome (read_char (0x2A ∷ 0x1E ∷ 0x30 ∷ []) idle)
    ≡ (some b'A', record { shift = true; pending = [] })
unfolding meaning
read_char_lem_example =
    read_char_lem (0x2A ∷ []) 0x1E (0x30 ∷ []) idle ((omega arith, shift_is_quiet), tt)
      (omega arith) a_types idle-IsValid refl
