-- ===== src/Kmain/Hex.antt =====
-- `print_hex` prints the 32 bits so that they are read back.
use little_os.Base.{
  ℕ, suc, ◌+◌, ◌-◌, ◌*◌, ◌/◌, ◌%◌, ◌^◌, ◌<◌, ◌≡◌, refl, ◌∙◌, List, [], ◌∷◌, ltb, bit_and,
  bit_and_mask, arith, if◌then◌else◌,
}
use little_os.Kmain.{hex_char, hex_loop}

abbrev pub hex_value : ℕ → ℕ
hex_value c = if ltb c b'A' then c - b'0' else c - b'A' + 10

-- The number that hexadecimal digits spell behind `n`.
unfoldable pub read_hex : (n : ℕ) → List ℕ → ℕ
read_hex n [] = n
read_hex n (c ∷ cs) = read_hex (n * 16 + hex_value c) cs

digit_lem : (d : ℕ) → d < 16 → hex_value (hex_char d) ≡ d
unfolding hex_char
digit_lem d small = ground arith

module _ (n : ℕ) where
  -- The digit `i` goes behind the digits above it.
  read_digit :
      (i high part : ℕ)
      → n / 2 ^ (i * 4) ≡ part
      → high ≡ part / 16
      → read_hex high (hex_loop (suc i) n) ≡ read_hex part (hex_loop i n)
  unfolding read_hex hex_loop
  read_digit i high part at_i above =
      let nibble : bit_and part 0xF ≡ part % 16 = bit_and_mask 4 part in
      let digit = digit_lem (part % 16) (omega arith) in
      let whole : high * 16 + part % 16 ≡ part = omega (arith, above) in
      rw (at_i, nibble, digit, whole) refl

  -- The eight digits that `print_hex` prints are read back as the 32-bit number.
  pub print_hex_lem : n < 2 ^ 32 → read_hex 0 (hex_loop 8 n) ≡ n
  unfolding read_hex hex_loop
  print_hex_lem small =
      read_digit 7 0 (n / 2 ^ 28) refl (omega arith)
      ∙ read_digit 6 (n / 2 ^ 28) (n / 2 ^ 24) refl (omega arith)
      ∙ read_digit 5 (n / 2 ^ 24) (n / 2 ^ 20) refl (omega arith)
      ∙ read_digit 4 (n / 2 ^ 20) (n / 2 ^ 16) refl (omega arith)
      ∙ read_digit 3 (n / 2 ^ 16) (n / 2 ^ 12) refl (omega arith)
      ∙ read_digit 2 (n / 2 ^ 12) (n / 2 ^ 8) refl (omega arith)
      ∙ read_digit 1 (n / 2 ^ 8) (n / 2 ^ 4) refl (omega arith)
      ∙ read_digit 0 (n / 2 ^ 4) n (omega arith) (omega arith)
