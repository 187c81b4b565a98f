-- ===== src/Serial/Rate.antt =====
-- The bytes that are sent and the baud rate of the UART.
use little_os.Base.{
  List, [], ◌++◌, ℕ, ◌+◌, ◌*◌, ◌/◌, ◌^◌, ◌≤◌, ◌<◌, ◌≡◌, refl, true, ◌∷◌, arith, leb, u8, u16,
  bit_and, bit_and_mask,
}
use native.Mathlib.Nat.{mul-div-le, mul-le-mul_right}
use little_os.Serial.{serial_write_char, serial_write, Ports, divisor, config_baud_rate}

quotient_small : (baud : ℕ) → 110 ≤ baud → 115200 / baud ≤ 65535
quotient_small baud slow =
    omega (arith, mul-div-le 115200 baud, mul-le-mul_right (115200 / baud) slow)

divisor_lem : (baud : ℕ) → 110 ≤ baud → divisor baud ≡ 115200 / baud
unfolding divisor
divisor_lem baud slow =
    let normal : leb 110 baud ≡ true = ground arith in
    let fits : u16 (115200 / baud) ≡ 115200 / baud = omega (arith, quotient_small baud slow) in
    rw normal fits

-- For a rate from 110 on, `serial_config_baud_rate` sets DLAB and then writes the two bytes of
-- 115200 divided by the rate, the low one first.
pub config_baud_rate_lem :
    (base baud : ℕ) (ports : Ports)
    → 110 ≤ baud
    → (lo : ℕ) × (hi : ℕ) × (config_baud_rate base baud ports
        ≡ (base + 1, hi) ∷ (base, lo) ∷ (base + 3, 0x80) ∷ ports)
      × (hi * 256 + lo ≡ 115200 / baud)
      × (lo < 256)
      × (hi < 256)
unfolding config_baud_rate
config_baud_rate_lem base baud ports slow =
    let d : ℕ = divisor baud in
    let exact : d ≡ 115200 / baud = divisor_lem baud slow in
    let small : 115200 / baud ≤ 65535 = quotient_small baud slow in
    (
      u8 (bit_and d 0xFF),
      u8 (bit_and (d / 2 ^ 8) 0xFF),
      refl,
      omega (arith, exact, small, bit_and_mask 8 d, bit_and_mask 8 (d / 2 ^ 8)),
      omega arith,
      omega arith,
    )

-- Two texts behind each other are one.
pub serial_write-append :
    (cs ds line : List ℕ) → serial_write ds (serial_write cs line) ≡ serial_write (cs ++ ds) line
unfolding serial_write
serial_write-append [] ds line = refl
serial_write-append (c ∷ cs) ds line = serial_write-append cs ds (u8 c ∷ line)

pub serial_write-nil : (line : List ℕ) → serial_write [] line ≡ line
unfolding serial_write
serial_write-nil line = refl

pub serial_write_char-write :
    (c : ℕ) (line : List ℕ) → serial_write_char c line ≡ serial_write (c ∷ []) line
unfolding serial_write serial_write_char
serial_write_char-write c line = refl
