-- ===== src/Stdio/Conversions.antt =====
-- What `printf` prints of its arguments, told apart from the code.
use little_os.Base.{ℕ, ◌^◌, ◌<◌, ◌≡◌, ◌≢◌, List, [], ◌∷◌, ◌++◌, Memory, length, All, u8, bytes}
use mathlib.Core.List.{map}
use little_os.Strings.Content.{IsString}
use little_os.Stdio.Numbers.{read, read_signed, int_of}
use little_os.Stdio.Format.{Piece, plain, conversion}

-- A piece of a format with the argument that stands for it: a character of the text, `%c`, `%s` of a
-- string or of a null pointer, `%d`, `%i`, `%x`, `%p`, `%%`, or a letter that means nothing.
pub data Item : Type 0 where
  text character : ℕ → Item
  string : (at : ℕ) → List ℕ → Item
  null_string : Item
  decimal integer hexadecimal pointer : ℕ → Item
  percent : Item
  unknown : ℕ → Item

abbrev pub piece_of : Item → Piece
piece_of (text c) = plain c
piece_of (character a) = conversion b'c'
piece_of (string at w) = conversion b's'
piece_of null_string = conversion b's'
piece_of (decimal a) = conversion b'd'
piece_of (integer a) = conversion b'i'
piece_of (hexadecimal a) = conversion b'x'
piece_of (pointer a) = conversion b'p'
piece_of percent = conversion b'%'
piece_of (unknown c) = conversion c

-- The arguments of the items, in their order, in front of others.
abbrev pub with_args : List Item → List ℕ → List ℕ
with_args [] more = more
with_args (text c ∷ fs) more = with_args fs more
with_args (character a ∷ fs) more = a ∷ with_args fs more
with_args (string at w ∷ fs) more = at ∷ with_args fs more
with_args (null_string ∷ fs) more = 0 ∷ with_args fs more
with_args (decimal a ∷ fs) more = a ∷ with_args fs more
with_args (integer a ∷ fs) more = a ∷ with_args fs more
with_args (hexadecimal a ∷ fs) more = a ∷ with_args fs more
with_args (pointer a ∷ fs) more = a ∷ with_args fs more
with_args (percent ∷ fs) more = with_args fs more
with_args (unknown c ∷ fs) more = with_args fs more

-- A string stands in the memory, and a number has 32 bits.
abbrev pub IsItem : (strings : ℕ) → Memory → Item → Type 0
IsItem strings m (text c) = c ≢ b'%'
IsItem strings m (string at w) = (at ≢ 0) × IsString m at w × (length w < strings)
IsItem strings m (decimal a) = a < 2 ^ 32
IsItem strings m (integer a) = a < 2 ^ 32
IsItem strings m (hexadecimal a) = a < 2 ^ 32
IsItem strings m (pointer a) = a < 2 ^ 32
IsItem strings m (unknown c) = All (λ d. c ≢ d) (bytes "csdixp%")
IsItem strings m _ = Unit

-- What is printed for a item. A number is what its digits are read as.
abbrev pub Printed : Item → List ℕ → Type 0
Printed (text c) out = out ≡ u8 c ∷ []
Printed (character a) out = out ≡ u8 a ∷ []
Printed (string at w) out = out ≡ map u8 w
Printed null_string out = out ≡ bytes "(null)"
Printed (decimal a) out = read_signed out ≡ int_of a
Printed (integer a) out = read_signed out ≡ int_of a
Printed (hexadecimal a) out = read 16 0 out ≡ a
Printed (pointer a) out = read 16 0 out ≡ a
Printed percent out = out ≡ bytes "%"
Printed (unknown c) out = out ≡ b'%' ∷ u8 c ∷ []

-- The items are printed one behind another.
pub data PrintedAll : List Item → List ℕ → Type 0 where
  ended : PrintedAll [] []
  followed :
      {f : Item} {fs : List Item} (out rest : List ℕ)
      → Printed f out
      → PrintedAll fs rest
      → PrintedAll (f ∷ fs) (out ++ rest)
