-- ===== src/Keyboard/Interleave/Examples.antt =====
-- Keys that come while a character is taken.
use little_os.Base.{◌+◌, ◌≡◌, refl, false, [], ◌∷◌, arith}
use little_os.Keyboard.{Keyboard, getchar, put_char, interrupt_handler}
use little_os.Keyboard.Layout.{us_ascii}
use little_os.Keyboard.Refine.{IsValid}
use little_os.Keyboard.Interleave.{Gaps, presses, getchar_between, getchar_between_lem}
use little_os.Keyboard.Interleave.Lost.{late, Loses, getchar_between-Loses}

-- A ring that holds `x`.
abbrev waiting : Keyboard
waiting = record { shift_active = false; buffer = λ i. b'x'; head = 0; tail = 1; count = 1 }

waiting-IsValid : IsValid waiting
waiting-IsValid = record { head_in = omega arith; count_in = omega arith; tail_at = refl }

-- The key `a` before the character is read, and a shift before the count is loaded.
abbrev early : Gaps
early = record { to_read = 0x1E ∷ []; to_move = []; to_load = 0x2A ∷ []; to_store = [] }

getchar_between_lem_example :
    getchar_between early waiting ≡ getchar (presses (0x1E ∷ 0x2A ∷ []) waiting)
getchar_between_lem_example = getchar_between_lem early waiting waiting-IsValid refl

typed : (interrupt_handler 0x1E waiting).count ≡ waiting.count + 1
unfolding interrupt_handler put_char us_ascii
typed = refl

getchar_between-Loses_example : Loses waiting (getchar_between (late 0x1E) waiting).1
getchar_between-Loses_example =
    getchar_between-Loses 0x1E waiting waiting-IsValid (omega arith) typed
