-- ===== src/Kheap/Fill.antt =====
-- `kheap_memset` and `kheap_memcpy` byte by byte, and the zeroed chunk of `kcalloc`.
use little_os.Base.{
  ℕ, zero, suc, ◌+◌, ◌^◌, ◌≤◌, ◌<◌, ◌≡◌, refl, ◌⊎◌, Bool, ◌&&◌, arith, Memory, store8, ltb, leb,
  if◌then◌else◌, u8, u32, dec_lt,
}
use little_os.Kheap.{memset_loop, memset, memcpy_loop, memcpy}

-- The address is one of the `n` from `a` on.
abbrev pub within : (a n x : ℕ) → Bool
within a n x = leb a x && ltb x (a + n)

memset_loop_lem :
    (left i dest val : ℕ) (m : Memory) (x : ℕ)
    → dest + i + left ≤ 2 ^ 32
    → memset_loop left i dest val m x ≡ (if within (dest + i) left x then u8 val else m x)
unfolding memset_loop store8
memset_loop_lem zero i dest val m x h = ground arith
memset_loop_lem (suc left) i dest val m x h =
    ground (arith, memset_loop_lem left (i + 1) dest val (store8 m (u32 (dest + i)) (u8 val)) x)

-- `kheap_memset` sets its range and nothing else.
pub memset_lem :
    (m : Memory) (dest val count x : ℕ)
    → dest + count ≤ 2 ^ 32
    → memset m dest val count x ≡ (if within dest count x then u8 val else m x)
unfolding memset
memset_lem m dest val count x h = ground (arith, memset_loop_lem count 0 dest val m x)

memcpy_loop_outside :
    (left i dest src : ℕ) (m : Memory) (x : ℕ)
    → dest + i + left ≤ 2 ^ 32
    → (x < dest + i) ⊎ (dest + i + left ≤ x)
    → memcpy_loop left i dest src m x ≡ m x
unfolding memcpy_loop store8
memcpy_loop_outside zero i dest src m x h out = refl
memcpy_loop_outside (suc left) i dest src m x h out = ground (
  arith,
  memcpy_loop_outside left (i + 1) dest src (store8 m (u32 (dest + i)) (m (u32 (src + i)))) x,
)

memcpy_loop_inside :
    (left i dest src : ℕ) (m : Memory) (j : ℕ)
    → dest + i + left ≤ 2 ^ 32
    → src + i + left ≤ 2 ^ 32
    → (dest + i + left ≤ src) ⊎ (src + i + left ≤ dest)
    → i ≤ j
    → j < i + left
    → memcpy_loop left i dest src m (dest + j) ≡ m (src + j)
unfolding memcpy_loop store8
memcpy_loop_inside zero i dest src m j hd hs apart lo hi = absurd (omega arith)
memcpy_loop_inside (suc left) i dest src m j hd hs apart lo hi = elim (dec_lt i j) [
  | yes later ↦ ground (
    arith,
    memcpy_loop_inside left (i + 1) dest src (store8 m (u32 (dest + i)) (m (u32 (src + i)))) j,
  )
  | no now ↦
      let same : j ≡ i = omega arith in
      rw same (
        ground (
          arith,
          memcpy_loop_outside left (i + 1) dest src (store8 m (u32 (dest + i)) (m (u32 (src + i))))
              (dest + i),
        ))
]

-- `kheap_memcpy` between ranges that do not overlap copies the bytes, and changes no other.
pub memcpy_inside :
    (m : Memory) (dest src count j : ℕ)
    → dest + count ≤ 2 ^ 32
    → src + count ≤ 2 ^ 32
    → (dest + count ≤ src) ⊎ (src + count ≤ dest)
    → j < count
    → memcpy m dest src count (dest + j) ≡ m (src + j)
unfolding memcpy
memcpy_inside m dest src count j hd hs apart lt =
    memcpy_loop_inside count 0 dest src m j (omega arith) (omega arith) (omega arith) (omega arith)
      (omega arith)

pub memcpy_outside :
    (m : Memory) (dest src count x : ℕ)
    → dest + count ≤ 2 ^ 32
    → (x < dest) ⊎ (dest + count ≤ x)
    → memcpy m dest src count x ≡ m x
unfolding memcpy
memcpy_outside m dest src count x hd out =
    memcpy_loop_outside count 0 dest src m x (omega arith) (omega arith)
