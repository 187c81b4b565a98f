-- ===== src/Stdio/Numbers.antt =====
-- The number that `print_number` prints is read back from its digits.
use little_os.Base.{
  ℕ, zero, suc, ◌+◌, ◌-◌, ◌*◌, ◌/◌, ◌%◌, ◌^◌, ◌≤◌, ◌<◌, ◌≡◌, refl, ◌∙◌, inl, inr, Bool-cases, some,
  List, [], ◌∷◌, All, ltb, ◌==◌, if◌then◌else◌, arith,
}
use native.Mathlib.Nat.{mul_comm, mul-le-mul_right, mod-lt, pow-suc}
use native.Mathlib.Omega.{div_any}
use little_os.Strings.{ℤ, pos, negsuc}
use little_os.Stdio.{
  Output, then_print, putchar, digit_char, digits_loop, is_negative, magnitude, print_number,
}

abbrev pub digit_value : ℕ → ℕ
digit_value c = if ltb c b'a' then c - b'0' else c - b'a' + 10

-- The number that digits spell behind `n`.
unfoldable pub read : (base n : ℕ) → List ℕ → ℕ
read base n [] = n
read base n (c ∷ cs) = read base (n * base + digit_value c) cs

abbrev pub minus : ℕ → ℤ
minus zero = pos 0
minus (suc n) = negsuc n

-- A decimal number with an optional minus sign.
unfoldable pub read_signed : List ℕ → ℤ
read_signed [] = pos 0
read_signed (c ∷ cs) = if c == b'-' then minus (read 10 0 cs) else pos (read 10 0 (c ∷ cs))

-- The number that 32 bits stand for as an `int`.
unfoldable pub int_of : ℕ → ℤ
int_of num = if is_negative num then minus (2 ^ 32 - num) else pos num

abbrev pub IsDigit : ℕ → Type 0
IsDigit c = b'0' ≤ c

digit_lem : (r : ℕ) → r < 36 → (digit_value (digit_char r) ≡ r) × IsDigit (digit_char r)
unfolding digit_char
digit_lem r small = ground arith

div_small : (n base room : ℕ) → 2 ≤ base → n < 2 ^ suc room → n / base < 2 ^ room
div_small n base room two fits =
    omega (arith, div_any n base, mul-le-mul_right (n / base) two, pow-suc 2 room)

mod_small : (n base : ℕ) → 2 ≤ base → n % base < base
mod_small n base two = mod-lt n (omega arith)

last_digit :
    (n base : ℕ) (out : List ℕ)
    → 2 ≤ base
    → base ≤ 36
    → read base (n / base) (digit_char (n % base) ∷ out) ≡ read base n out
unfolding read
last_digit n base out two many =
    let digit = (digit_lem (n % base) (omega (arith, mod_small n base two))).0 in
    let whole : n / base * base + n % base ≡ n =
      omega (arith, mul_comm (n / base) base, div_any n base) in
    rw (digit, whole) refl

-- What the loops print, from the digits `out` on.
digits_loop_lem :
    (room n base : ℕ) (out : List ℕ)
    → 2 ≤ base
    → base ≤ 36
    → n < 2 ^ room
    → All IsDigit out
    → (text : List ℕ) × (digits_loop room n base out ≡ some text)
      × (read base 0 text ≡ read base n out)
      × All IsDigit text
unfolding digits_loop
digits_loop_lem zero n base out two many fits digits =
    let none_left : n ≡ 0 = omega arith in rw none_left (out, refl, refl, digits)
digits_loop_lem (suc room) n base out two many fits digits = elim (Bool-cases (n == 0)) [
  | inl done ↦
      let none_left : n ≡ 0 = ground (arith, done) in rw none_left (out, refl, refl, digits)
  | inr more ↦
      let c : ℕ = digit_char (n % base) in
      let digit = (digit_lem (n % base) (omega (arith, mod_small n base two))).1 in
      let rest =
        digits_loop_lem room (n / base) base (c ∷ out) two many (div_small n base room two fits)
          (digit, digits) in
      (rest.0, rw (more, digits_loop) rest.1, rest.2 ∙ last_digit n base out two many, rest.3)
]

-- What is printed of a number without its sign.
abbrev unsigned : (n base : ℕ) → Output
unsigned n base = if n == 0 then some (putchar b'0') else digits_loop 32 n base []

module _ (n base : ℕ) (two : 2 ≤ base) (many : base ≤ 36) (fits : n < 2 ^ 32) where
  unsigned_lem :
      (text : List ℕ) × (unsigned n base ≡ some text) × (read base 0 text ≡ n) × All IsDigit text
  unfolding putchar read
  unsigned_lem = elim (Bool-cases (n == 0)) [
    | inl none_left ↦
        let zero_n : n ≡ 0 = ground (arith, none_left) in
        (b'0' ∷ [], rw none_left refl, omega (arith, zero_n), omega arith)
    | inr more ↦
        let loop = digits_loop_lem 32 n base [] two many fits tt in
        (loop.0, rw more loop.1, loop.2, loop.3)
  ]

-- `print_number` with base 16 prints the 32 bits so that they are read back.
pub print_number_hex :
    (num : ℕ)
    → num < 2 ^ 32
    → (text : List ℕ) × (print_number num 16 ≡ some text) × (read 16 0 text ≡ num)
unfolding print_number magnitude then_print
print_number_hex num fits =
    let digits = unsigned_lem num 16 (omega arith) (omega arith) fits in
    (digits.0, rw digits.1 refl, digits.2)
