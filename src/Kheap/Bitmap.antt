-- ===== src/Kheap/Bitmap.antt =====
-- The bits of the tracking bitmap under `bitmap_set`, `bitmap_clear` and the loops over them.
use little_os.Base.{
  ℕ, zero, suc, ◌+◌, ◌-◌, ◌/◌, ◌%◌, ◌^◌, ◌<◌, ◌≡◌, refl, inl, inr, bit_and, bit_or, Bool, true, not,
  ◌&&◌, ◌||◌, ltb, leb, ◌==◌, if◌then◌else◌, u8, arith, store8, all_below, all_below_sound,
  Bool-cases, same, same-eq,
}
use little_os.Kheap.{
  Bitmap, total_blocks, bitmap_set, bitmap_clear, bitmap_test, set_blocks, clear_blocks,
}

-- Every entry is a byte.
abbrev pub IsBytes : Bitmap → Type 0
IsBytes bm = (i : ℕ) → bm i < 256

abbrev bit : ℕ → ℕ → Bool
bit v k = not (bit_and v (2 ^ k) == 0)

-- A check of every byte and every two bits of it.
every_bit : (ℕ → ℕ → ℕ → Bool) → Bool
every_bit p = all_below 256 (λ v. all_below 8 (λ k. all_below 8 (λ j. p v k j)))

every_bit_sound :
    (p : ℕ → ℕ → ℕ → Bool)
    → every_bit p ≡ true
    → (v k j : ℕ) → v < 256
    → k < 8
    → j < 8
    → p v k j ≡ true
unfolding every_bit
every_bit_sound p h v k j hv hk hj =
    all_below_sound 8 _ j (all_below_sound 8 _ k (all_below_sound 256 _ v h hv) hk) hj

set_byte_table :
    every_bit (λ v k j. same (bit (u8 (bit_or v (u8 (2 ^ k)))) j) (j == k || bit v j)) ≡ true
unfolding every_bit all_below
set_byte_table = refl

clear_byte_table :
    every_bit (λ v k j. same (bit (u8 (bit_and v (255 - 2 ^ k))) j) (not (j == k) && bit v j))
    ≡ true
unfolding every_bit all_below
clear_byte_table = refl

set_byte :
    (v k j : ℕ) → v < 256 → k < 8 → j < 8 → bit (u8 (bit_or v (u8 (2 ^ k)))) j ≡ (j == k || bit v j)
set_byte v k j hv hk hj = same-eq _ _ (every_bit_sound _ set_byte_table v k j hv hk hj)

clear_byte :
    (v k j : ℕ)
    → v < 256
    → k < 8
    → j < 8
    → bit (u8 (bit_and v (255 - 2 ^ k))) j ≡ (not (j == k) && bit v j)
clear_byte v k j hv hk hj = same-eq _ _ (every_bit_sound _ clear_byte_table v k j hv hk hj)

pub bitmap_set-IsBytes : (bm : Bitmap) (b : ℕ) → IsBytes bm → IsBytes (bitmap_set bm b)
unfolding bitmap_set store8
bitmap_set-IsBytes bm b h i = ground (arith, h i)

pub bitmap_clear-IsBytes : (bm : Bitmap) (b : ℕ) → IsBytes bm → IsBytes (bitmap_clear bm b)
unfolding bitmap_clear store8
bitmap_clear-IsBytes bm b h i = ground (arith, h i)

-- `bitmap_set` sets its bit and no other.
pub bitmap_test-set :
    (bm : Bitmap) (b i : ℕ)
    → IsBytes bm
    → bitmap_test (bitmap_set bm b) i ≡ (i == b || bitmap_test bm i)
unfolding bitmap_test bitmap_set store8
bitmap_test-set bm b i h = elim (Bool-cases (b / 8 == i / 8)) [
  | inl e ↦ ground (arith, set_byte (bm (b / 8)) (b % 8) (i % 8), h (b / 8))
  | inr n ↦ ground arith
]

-- `bitmap_clear` clears its bit and no other.
pub bitmap_test-clear :
    (bm : Bitmap) (b i : ℕ)
    → IsBytes bm
    → bitmap_test (bitmap_clear bm b) i ≡ (not (i == b) && bitmap_test bm i)
unfolding bitmap_test bitmap_clear store8
bitmap_test-clear bm b i h = elim (Bool-cases (b / 8 == i / 8)) [
  | inl e ↦ ground (arith, clear_byte (bm (b / 8)) (b % 8) (i % 8), h (b / 8))
  | inr n ↦ ground arith
]

-- Block `i` is one of the `n` from `start` on.
abbrev pub in_range : (start n i : ℕ) → Bool
in_range start n i = leb start i && ltb i (start + n)

pub set_blocks-IsBytes : (left b : ℕ) (bm : Bitmap) → IsBytes bm → IsBytes (set_blocks left b bm)
unfolding set_blocks
set_blocks-IsBytes zero b bm h = h
set_blocks-IsBytes (suc left) b bm h =
    set_blocks-IsBytes left (b + 1) (bitmap_set bm b) (bitmap_set-IsBytes bm b h)

-- The loop over `bitmap_set` sets the bits of its range and no other.
pub bitmap_test-set_blocks :
    (left b : ℕ) (bm : Bitmap) (i : ℕ)
    → IsBytes bm
    → bitmap_test (set_blocks left b bm) i ≡ (in_range b left i || bitmap_test bm i)
unfolding set_blocks
bitmap_test-set_blocks zero b bm i h = ground arith
bitmap_test-set_blocks (suc left) b bm i h = ground (
  arith,
  bitmap_test-set_blocks left (b + 1) (bitmap_set bm b) i (bitmap_set-IsBytes bm b h),
  bitmap_test-set bm b i h,
)

guarded_clear-IsBytes :
    (bm : Bitmap) (b : ℕ)
    → IsBytes bm
    → IsBytes (if ltb b total_blocks then bitmap_clear bm b else bm)
guarded_clear-IsBytes bm b h = elim (Bool-cases (ltb b total_blocks)) [
  | inl e ↦ rw e (bitmap_clear-IsBytes bm b h)
  | inr n ↦ rw n h
]

pub clear_blocks-IsBytes :
    (left b : ℕ) (bm : Bitmap) → IsBytes bm → IsBytes (clear_blocks left b bm)
unfolding clear_blocks
clear_blocks-IsBytes zero b bm h = h
clear_blocks-IsBytes (suc left) b bm h =
    clear_blocks-IsBytes left (b + 1) _ (guarded_clear-IsBytes bm b h)

-- The loop over `bitmap_clear` clears the bits of its range and no other.
pub bitmap_test-clear_blocks :
    (left b : ℕ) (bm : Bitmap) (i : ℕ)
    → IsBytes bm
    → i < total_blocks
    → bitmap_test (clear_blocks left b bm) i ≡ (not (in_range b left i) && bitmap_test bm i)
unfolding clear_blocks
bitmap_test-clear_blocks zero b bm i h lt = ground arith
bitmap_test-clear_blocks (suc left) b bm i h lt = ground (
  arith,
  bitmap_test-clear_blocks left (b + 1) _ i (guarded_clear-IsBytes bm b h) lt,
  bitmap_test-clear bm b i h,
)
