-- ===== src/Base/Bits.antt =====
-- Facts about `&` and `|` at variables: both act on the two parts of a shifted number apart, so
-- masks are remainders and disjoint fields add. Also a check of a small range by evaluation.
mod Step
use Step.{bit_and_digit, bit_or_digit}
use Prim.Native.Nat.{
  ℕ, zero, suc, ◌+◌, ◌-◌, ◌*◌, ◌/◌, ◌%◌, ◌^◌, ◌≤◌, ◌<◌, min, max, bit_and, bit_or, bit_or-bitwise,
}
use mathlib.Core.Path.{◌≡◌, refl, ap}
use mathlib.Core.Bool.{Bool, true, ◌&&◌}
use native.Mathlib.Nat.{pow-suc, one-le-pow}
use native.Mathlib.Omega.{arith}

unfoldable pub all_below : (bound : ℕ) (test : ℕ → Bool) → Bool
all_below zero test = true
all_below (suc bound) test = all_below bound test && test bound

pub all_below_sound :
    (bound : ℕ) (test : ℕ → Bool) (i : ℕ) → all_below bound test ≡ true → i < bound → test i ≡ true
unfolding all_below
all_below_sound zero test i checked below = absurd (omega arith)
all_below_sound (suc bound) test i checked below = ground (arith, all_below_sound bound test i)

shift-suc : (k q : ℕ) → q * 2 ^ suc k ≡ 2 * (q * 2 ^ k)
shift-suc k q = omega (arith, ap (λ (p : ℕ). q * p) (pow-suc 2 k))

module _ (digit op : ℕ → ℕ → ℕ)
    (law : (x y : ℕ) → op x y ≡ digit (x % 2) (y % 2) + 2 * op (x / 2) (y / 2))
    (nothing : op 0 0 ≡ 0) where
  -- The operation acts on the low `k` digits and on the others apart.
  by_parts :
      (k hi lo hi' lo' : ℕ)
      → lo < 2 ^ k
      → lo' < 2 ^ k
      → op (hi * 2 ^ k + lo) (hi' * 2 ^ k + lo') ≡ op hi hi' * 2 ^ k + op lo lo'
  by_parts zero hi lo hi' lo' fits fits' = ground (arith, nothing)
  by_parts (suc k) hi lo hi' lo' fits fits' = ground (
    arith,
    law (hi * 2 ^ suc k + lo) (hi' * 2 ^ suc k + lo'),
    law lo lo',
    shift-suc k hi,
    shift-suc k hi',
    shift-suc k (op hi hi'),
    pow-suc 2 k,
    by_parts k hi (lo / 2) hi' (lo' / 2) (omega (arith, pow-suc 2 k)) (omega (arith, pow-suc 2 k)),
  )

bit_or-zero_below : (bound x : ℕ) → x ≤ bound → bit_or x 0 ≡ x
bit_or-zero_below bound zero le = refl
bit_or-zero_below zero (suc x) le = absurd (omega arith)
bit_or-zero_below (suc bound) (suc x) le =
    ground (arith, bit_or_digit (suc x) 0, bit_or-zero_below bound (suc x / 2))

bit_and-zero_below : (bound x : ℕ) → x ≤ bound → bit_and x 0 ≡ 0
bit_and-zero_below bound zero le = refl
bit_and-zero_below zero (suc x) le = absurd (omega arith)
bit_and-zero_below (suc bound) (suc x) le =
    ground (arith, bit_and_digit (suc x) 0, bit_and-zero_below bound (suc x / 2))

-- `(q << k) | r` is a sum when `r` fits `k` bits.
pub bit_or_fields : (k q r : ℕ) → r < 2 ^ k → bit_or (q * 2 ^ k) r ≡ q * 2 ^ k + r
bit_or_fields k q r fits = grind (
  arith,
  by_parts max bit_or bit_or_digit refl k q 0 0 r (omega (arith, one-le-pow k 2)) fits,
  bit_or-zero_below q q (omega arith),
  bit_or-bitwise 0 r,
)

ones : (k r : ℕ) → r < 2 ^ k → bit_and r (2 ^ k - 1) ≡ r
ones zero r fits = ground (arith, bit_and-zero_below r r)
ones (suc k) r fits = ground (arith, bit_and_digit r (2 ^ suc k - 1), pow-suc 2 k, ones k (r / 2))

-- A mask of `k` low bits is the remainder by `2 ^ k`.
pub bit_and_mask : (k a : ℕ) → bit_and a (2 ^ k - 1) ≡ a % 2 ^ k
bit_and_mask k a = ground (
  arith,
  one-le-pow k 2,
  by_parts min bit_and bit_and_digit refl k (a / 2 ^ k) (a % 2 ^ k) 0 (2 ^ k - 1),
  ones k (a % 2 ^ k),
  bit_and-zero_below (a / 2 ^ k) (a / 2 ^ k),
)

-- A mask whose `k` low bits are clear drops the `k` low bits.
pub bit_and_high :
    (k q r m : ℕ) → r < 2 ^ k → bit_and (q * 2 ^ k + r) (m * 2 ^ k) ≡ bit_and q m * 2 ^ k
bit_and_high k q r m fits = grind (
  arith,
  by_parts min bit_and bit_and_digit refl k q r m 0 fits (omega (arith, one-le-pow k 2)),
  bit_and-zero_below r r (omega arith),
)

-- `r | (q << k)` is the same sum.
pub bit_or_fields_swap : (k q r : ℕ) → r < 2 ^ k → bit_or r (q * 2 ^ k) ≡ q * 2 ^ k + r
bit_or_fields_swap k q r fits = grind (
  arith,
  by_parts max bit_or bit_or_digit refl k 0 r q 0 fits (omega (arith, one-le-pow k 2)),
  bit_or-zero_below r r (omega arith),
  bit_or-bitwise 0 q,
)
