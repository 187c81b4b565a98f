-- ===== src/Strings.antt =====
-- userland/libc/src/string.c: the C strings and byte ranges of the user programs.
-- A `char` is its byte, which is what the comparisons for equality and the casts to `unsigned char`
-- need. A loop that runs to the end of a string has fuel, and `none` is that it runs out.
pub mod Content
pub mod Measure
pub mod Compare
pub mod Copy
mod Examples
use little_os.Base.{
  ℕ, zero, suc, ◌+◌, ◌-◌, Bool, true, false, not, ◌&&◌, ◌||◌, Option, none, some, Memory, store8,
  ltb, leb, ◌==◌, if◌then◌else◌, u8,
}

-- An `int`.
pub data ℤ : Type 0 where
  pos negsuc : ℕ → ℤ

-- `(int)(a - b)` on two bytes.
pub byte_difference : ℕ → ℕ → ℤ
byte_difference a b = if leb b a then pos (a - b) else negsuc (b - a - 1)

pub strlen_loop : (fuel : ℕ) → Memory → (s len : ℕ) → Option ℕ
strlen_loop zero m s len = none
strlen_loop (suc fuel) m s len = elim (not (s == 0) && not (m (s + len) == 0)) [
  | true ↦ strlen_loop fuel m s (len + 1)
  | false ↦ some len
]

pub strlen : (fuel : ℕ) → Memory → ℕ → Option ℕ
strlen fuel m s = strlen_loop fuel m s 0

pub strcmp : (fuel : ℕ) → Memory → (s1 s2 : ℕ) → Option ℤ
strcmp zero m s1 s2 = none
strcmp (suc fuel) m s1 s2 = elim (not (m s1 == 0) && m s1 == m s2) [
  | true ↦ strcmp fuel m (s1 + 1) (s2 + 1)
  | false ↦ some (byte_difference (m s1) (m s2))
]

-- `left` is `n - i`.
pub strncmp_loop : (left i : ℕ) → Memory → (s1 s2 : ℕ) → ℤ
strncmp_loop zero i m s1 s2 = pos 0
strncmp_loop (suc left) i m s1 s2 = elim (not (m (s1 + i) == m (s2 + i)) || m (s1 + i) == 0) [
  | true ↦ byte_difference (m (s1 + i)) (m (s2 + i))
  | false ↦ strncmp_loop left (i + 1) m s1 s2
]

pub strncmp : Memory → (s1 s2 n : ℕ) → ℤ
strncmp m s1 s2 n = strncmp_loop n 0 m s1 s2

-- The loop of `strcpy` copies a byte and stops after a zero.
pub strcpy : (fuel : ℕ) → (d src : ℕ) → Memory → Option Memory
strcpy zero d src m = none
strcpy (suc fuel) d src m = elim (m src == 0) [
  | true ↦ some (store8 m d (m src))
  | false ↦ strcpy fuel (d + 1) (src + 1) (store8 m d (m src))
]

pub strncpy_pad : (left i : ℕ) → (dest : ℕ) → Memory → Memory
strncpy_pad zero i dest m = m
strncpy_pad (suc left) i dest m = strncpy_pad left (i + 1) dest (store8 m (dest + i) 0)

-- The two loops of `strncpy`, which share `i`.
pub strncpy_loop : (left i : ℕ) → (dest src : ℕ) → Memory → Memory
strncpy_loop zero i dest src m = m
strncpy_loop (suc left) i dest src m = elim (m (src + i) == 0) [
  | true ↦ strncpy_pad (suc left) i dest m
  | false ↦ strncpy_loop left (i + 1) dest src (store8 m (dest + i) (m (src + i)))
]

pub strncpy : (dest src n : ℕ) → Memory → Memory
strncpy dest src n m = strncpy_loop n 0 dest src m

pub memset : (s c n : ℕ) → Memory → Memory
memset s c zero m = m
memset s c (suc n) m = memset (s + 1) c n (store8 m s (u8 c))

pub memcpy : (dest src n : ℕ) → Memory → Memory
memcpy dest src zero m = m
memcpy dest src (suc n) m = memcpy (dest + 1) (src + 1) n (store8 m dest (m src))

-- `c` is the byte of the `int`, or the `int` itself where the code does not cast it: its value
-- without sign.
pub strchr : (fuel : ℕ) → Memory → (s c : ℕ) → Option ℕ
strchr zero m s c = none
strchr (suc fuel) m s c = elim (m s == 0) [
  | true ↦ some (if c == 0 then s else 0)
  | false ↦ elim (m s == u8 c) [ true ↦ some s | false ↦ strchr fuel m (s + 1) c ]
]
