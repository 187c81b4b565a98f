-- ===== src/Base/Words.antt =====
-- Byte-addressed memory, with the 32-bit words of a little-endian machine.
use Prim.Native.Nat.{ℕ, ◌+◌, ◌*◌, ◌/◌, ◌^◌, ◌≤◌, ◌<◌}
use mathlib.Core.Path.{◌≡◌}
use mathlib.Core.Logic.{◌⊎◌}
use native.Mathlib.Omega.{arith}
use little_os.Base.Tests.{u8, ◌==◌, if◌then◌else◌}

-- The byte at each address.
abbrev pub Memory : Type 0
Memory = ℕ → ℕ

unfoldable pub store8 : Memory → ℕ → ℕ → Memory
store8 m a v x = if a == x then v else m x

abbrev pub load16 : Memory → ℕ → ℕ
load16 m a = m a + m (a + 1) * 2 ^ 8

unfoldable pub load32 : Memory → ℕ → ℕ
load32 m a = m a + m (a + 1) * 2 ^ 8 + m (a + 2) * 2 ^ 16 + m (a + 3) * 2 ^ 24

unfoldable pub store32 : Memory → ℕ → ℕ → Memory
store32 m a v =
    store8 (store8 (store8 (store8 m a (u8 v)) (a + 1) (u8 (v / 2 ^ 8))) (a + 2) (u8 (v / 2 ^ 16)))
      (a + 3) (u8 (v / 2 ^ 24))

pub store8_self : (m : Memory) (a v : ℕ) → store8 m a v a ≡ v
unfolding store8
store8_self m a v = ground arith

pub store8_ne : (m : Memory) (a v x : ℕ) → (x < a) ⊎ (a < x) → store8 m a v x ≡ m x
unfolding store8
store8_ne m a v x h = ground arith

pub store32_outside : (m : Memory) (a v x : ℕ) → (x < a) ⊎ (a + 4 ≤ x) → store32 m a v x ≡ m x
unfolding store32 store8
store32_outside m a v x h = ground arith

-- A stored word is read back.
pub load32-store32_self : (m : Memory) (a v : ℕ) → v < 2 ^ 32 → load32 (store32 m a v) a ≡ v
unfolding load32 store32 store8
load32-store32_self m a v h = ground arith

-- A word elsewhere is not changed.
pub load32-store32_outside :
    (m : Memory) (a v b : ℕ) → (b + 4 ≤ a) ⊎ (a + 4 ≤ b) → load32 (store32 m a v) b ≡ load32 m b
unfolding load32
load32-store32_outside m a v b h = omega (
  arith,
  store32_outside m a v b (omega arith),
  store32_outside m a v (b + 1) (omega arith),
  store32_outside m a v (b + 2) (omega arith),
  store32_outside m a v (b + 3) (omega arith),
)

-- A word is determined by its four bytes.
pub load32_same :
    (m m' : Memory) (b : ℕ) → ((x : ℕ) → b ≤ x → x < b + 4 → m' x ≡ m x) → load32 m' b ≡ load32 m b
unfolding load32
load32_same m m' b h = omega (
  arith,
  h b (omega arith) (omega arith),
  h (b + 1) (omega arith) (omega arith),
  h (b + 2) (omega arith) (omega arith),
  h (b + 3) (omega arith) (omega arith),
)
