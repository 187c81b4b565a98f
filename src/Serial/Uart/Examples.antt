-- ===== src/Serial/Uart/Examples.antt =====
-- Runs of the loops that wait for the UART.
use little_os.Base.{◌≡◌, refl, true, some, [], ◌∷◌, arith}
use little_os.Keyboard.{Keyboard}
use little_os.Keyboard.Refine.{IsValid}
use little_os.Serial.Uart.{write, serial_interrupt_handler}
use little_os.Serial.Uart.Transmit.{IsSent, write_lem}
use little_os.Serial.Uart.Receive.{IsTaken, serial_interrupt_handler_lem}
use little_os.Serial.Uart.Sample.{Line, line}

abbrev typed : Line
typed = record { waiting = b'h' ∷ b'i' ∷ []; out = []; shifting = true }

-- The ring has room for one character more.
abbrev nearly_full : Keyboard
nearly_full = record { shift_active = true; buffer = λ i. i; head = 3; tail = 2; count = 255 }

nearly_full-IsValid : IsValid nearly_full
nearly_full-IsValid = record { head_in = omega arith; count_in = omega arith; tail_at = refl }

write_lem_example :
    (u' : Line) × (write line 2 (b'o' ∷ b'k' ∷ []) typed ≡ some u')
    × IsSent line typed (b'o' ∷ b'k' ∷ []) u'
write_lem_example = write_lem line 2 (b'o' ∷ b'k' ∷ []) typed (omega arith)

serial_interrupt_handler_lem_example :
    (r : Line × Keyboard) × (serial_interrupt_handler line 3 typed nearly_full ≡ some r)
    × IsTaken line typed nearly_full r.0 r.1
serial_interrupt_handler_lem_example =
    serial_interrupt_handler_lem line 3 typed nearly_full nearly_full-IsValid (omega arith)
