-- ===== src/Kmain/Start/Sent.antt =====
-- What `kmain` sends on COM1, from the line before it and the line behind it.
use little_os.Base.{
  ℕ, ◌-◌, ◌≡◌, refl, ◌∙◌, ap, sym, List, [], ◌∷◌, ◌++◌, append_nil, length, length-append, take, u8,
  arith,
}
use mathlib.Core.List.{map}
use little_os.Serial.{serial_write}
use little_os.Serial.Rate.{serial_write-append}
use little_os.Kmain.Start.{turned, since}

-- The line has grown by a text.
abbrev pub Sends : (line line' : List ℕ) → Type 0
Sends line line' = (text : List ℕ) × (line' ≡ serial_write text line)

pub Sends-more :
    (line text line' : List ℕ) → Sends line line' → Sends line (serial_write text line')
Sends-more line text line' (before, e) =
    (before ++ text, ap (serial_write text) e ∙ serial_write-append before text line)

pub Sends-trans :
    (line line' line'' : List ℕ) → Sends line line' → Sends line' line'' → Sends line line''
Sends-trans line line' line'' first (text, e) =
    let (both, e') = Sends-more line text line' first in (both, e ∙ e')

turned-append : (t a l : List ℕ) → turned t (a ++ l) ≡ turned t a ++ l
unfolding turned
turned-append [] a l = refl
turned-append (c ∷ cs) a l = turned-append cs (c ∷ a) l

turned-turned : (t a b : List ℕ) → turned (turned t a) b ≡ turned a (t ++ b)
unfolding turned
turned-turned [] a b = refl
turned-turned (c ∷ cs) a b = turned-turned cs (c ∷ a) b

take-append : (xs l : List ℕ) → take (length xs) (xs ++ l) ≡ xs
take-append [] l = refl
take-append (x ∷ xs) l = ap (λ (r : List ℕ). x ∷ r) (take-append xs l)

turned_nil : (t : List ℕ) → turned [] t ≡ t
unfolding turned
turned_nil t = refl

-- What has been sent since is the text.
since-turned : (t l : List ℕ) → since l (turned t l) ≡ t
unfolding since
since-turned t l =
    let xs : List ℕ = turned t [] in
    let count : length (xs ++ l) - length l ≡ length xs = omega (arith, length-append xs l) in
    rw (turned-append t [] l, count, take-append xs l)
      (turned-turned t [] [] ∙ turned_nil (t ++ []) ∙ append_nil t)

serial_write-turned : (text line : List ℕ) → serial_write text line ≡ turned (map u8 text) line
unfolding serial_write turned
serial_write-turned [] line = refl
serial_write-turned (c ∷ cs) line = serial_write-turned cs (u8 c ∷ line)

u8_twice : (text : List ℕ) → map u8 (map u8 text) ≡ map u8 text
u8_twice [] = refl
u8_twice (c ∷ cs) = let byte : u8 (u8 c) ≡ u8 c = omega arith in rw (byte, u8_twice cs) refl

-- The line is the one before with what has been sent since.
pub Sends-since :
    (line line' : List ℕ) → Sends line line' → line' ≡ serial_write (since line line') line
Sends-since line line' (text, e) =
    let bytes : List ℕ = map u8 text in
    let grown : line' ≡ turned bytes line = e ∙ serial_write-turned text line in
    let text_since : since line line' ≡ bytes =
      ap (λ (l : List ℕ). since line l) grown ∙ since-turned bytes line in
    grown
    ∙ ap (λ (t : List ℕ). turned t line) (sym (u8_twice text))
    ∙ sym (serial_write-turned bytes line)
    ∙ ap (λ (t : List ℕ). serial_write t line) (sym text_since)
