-- ===== src/Stdio/Examples.antt =====
-- Runs of the formatted output.
use mathlib.Core.List.{map}
use little_os.Base.{
  if◌then◌else◌, ltb, get_or, bytes, ◌-◌, ◌^◌, ◌≡◌, refl, some, List, [], ◌∷◌, Memory,
}
use little_os.Stdio.{print_number, then_print, putchar, digits_loop, digit_char, magnitude}
use little_os.Stdio.Format.{spell}
use little_os.Stdio.Conversions.{Item, text, character, string, decimal, unknown, piece_of}

print_minus_twelve : print_number (2 ^ 32 - 12) 10 ≡ some (b'-' ∷ b'1' ∷ b'2' ∷ [])
unfolding print_number then_print putchar digits_loop digit_char magnitude
print_minus_twelve = refl

-- The format `%c%s%d%q!` and its arguments, with a string at 100.
abbrev items : List Item
items =
    character b'A' ∷ string 100 (bytes "hi") ∷ decimal (2 ^ 32 - 5) ∷ unknown b'q' ∷ text b'!' ∷ []

abbrev format : Memory
format x =
    if ltb x 100
    then get_or (spell (map piece_of items)) (x - 16) 0
    else get_or (bytes "hi") (x - 100) 0
