-- ===== src/Base/Bits/Step.antt =====
-- `&` and `|` are computed one binary digit at a time. This file gives that computation as one
-- law, which the file above uses for both operations.
use Prim.Native.Nat.{
  ℕ, zero, suc, ◌+◌, ◌*◌, ◌/◌, ◌%◌, ◌≤◌, min, max, bit_and, bit_or, digits, bitwise,
  bit_and-bitwise, bit_or-bitwise,
}
use mathlib.Core.Path.{◌≡◌, refl, ◌∙◌}
use native.Mathlib.Decide.{dec_le}
use native.Mathlib.Omega.{arith}

module _ (rest : ℕ → ℕ) (digit : ℕ → ℕ → ℕ) where
  spare_digit :
      (fuel y x : ℕ) → x ≤ fuel → digits rest digit (suc fuel) x y ≡ digits rest digit fuel x y
  spare_digit zero y zero le = refl
  spare_digit (suc fuel) y zero le = refl
  spare_digit zero y (suc x) le = absurd (omega arith)
  spare_digit (suc fuel) y (suc x) le = rw (spare_digit fuel (y / 2) (suc x / 2) (omega arith))

  spare_digits : (fuel x y : ℕ) → x ≤ fuel → digits rest digit fuel x y ≡ bitwise rest digit x y
  spare_digits zero zero y le = refl
  spare_digits zero (suc x) y le = absurd (omega arith)
  spare_digits (suc fuel) x y le = elim (dec_le x fuel) [
    | yes below ↦ spare_digit fuel y x below ∙ spare_digits fuel x y below
    | no beyond ↦ let top : suc fuel ≡ x = omega arith in rw top refl
  ]

  bitwise-halves :
      (x y : ℕ)
      → bitwise rest digit (suc x) y
        ≡ digit (suc x % 2) (y % 2) + 2 * bitwise rest digit (suc x / 2) (y / 2)
  bitwise-halves x y = omega (arith, spare_digits x (suc x / 2) (y / 2) (omega arith))

pub bit_and_digit : (x y : ℕ) → bit_and x y ≡ min (x % 2) (y % 2) + 2 * bit_and (x / 2) (y / 2)
bit_and_digit zero y = simp bit_and-bitwise (omega arith)
bit_and_digit (suc x) y = simp bit_and-bitwise (bitwise-halves (λ y. 0) min x y)

pub bit_or_digit : (x y : ℕ) → bit_or x y ≡ max (x % 2) (y % 2) + 2 * bit_or (x / 2) (y / 2)
bit_or_digit zero y = simp bit_or-bitwise (omega arith)
bit_or_digit (suc x) y = simp bit_or-bitwise (bitwise-halves (λ y. y) max x y)
