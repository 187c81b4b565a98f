-- ===== src/Kheap/Usage.antt =====
-- `kheap_get_used_memory` and `kheap_get_free_memory` against the chunks in use.
use Prim.Native.Nat.{min, max}
use little_os.Base.{
  ℕ, zero, suc, ◌+◌, ◌-◌, ◌*◌, ◌≤◌, ◌<◌, ◌≡◌, refl, Bool, true, false, ◌||◌, List, [], ◌∷◌, All,
  if◌then◌else◌, arith,
}
use little_os.Kheap.{
  Kheap, Bitmap, block_size, total_blocks, bitmap_test, count_used, get_total_memory,
  get_used_memory, get_free_memory,
}
use little_os.Kheap.Bitmap.{in_range}
use little_os.Kheap.Chunks.{Chunk, in_chunk, owns, AreDisjoint, IsChunk, IsHeap}

-- How many of the `left` numbers from `i` on pass the test.
tally : (ℕ → Bool) → (left i : ℕ) → ℕ
tally p zero i = 0
tally p (suc left) i = (if p i then 1 else 0) + tally p left (i + 1)

count_used-tally :
    (bm : Bitmap) (p : ℕ → Bool) (left i used : ℕ)
    → ((j : ℕ) → i ≤ j → j < i + left → bitmap_test bm j ≡ p j)
    → count_used bm left i used ≡ used + tally p left i
unfolding count_used tally
count_used-tally bm p zero i used same = omega arith
count_used-tally bm p (suc left) i used same =
    let rest = λ (u : ℕ).
      count_used-tally bm p left (i + 1) u (λ j lo hi. same j (omega arith) (omega arith)) in
    ground (arith, same i, rest (used + 1), rest used)

tally-le : (p : ℕ → Bool) (left i : ℕ) → tally p left i ≤ left
unfolding tally
tally-le p zero i = omega arith
tally-le p (suc left) i = ground (arith, tally-le p left (i + 1))

tally_or :
    (p q : ℕ → Bool) (left i : ℕ)
    → ((j : ℕ) → p j ≡ true → q j ≡ false)
    → tally (λ j. p j || q j) left i ≡ tally p left i + tally q left i
unfolding tally
tally_or p q zero i apart = refl
tally_or p q (suc left) i apart = ground (arith, apart i, tally_or p q left (i + 1) apart)

tally-in_range : (s n left i : ℕ) → tally (in_range s n) left i ≡ min (i + left) (s + n) - max i s
unfolding tally
tally-in_range s n zero i = omega arith
tally-in_range s n (suc left) i = ground (arith, tally-in_range s n left (i + 1))

-- The blocks of all chunks.
abbrev pub blocks_of : List Chunk → ℕ
blocks_of [] = 0
blocks_of (c ∷ cs) = c.count + blocks_of cs

tally-none : (left i : ℕ) → tally (owns []) left i ≡ 0
unfolding tally
tally-none zero i = refl
tally-none (suc left) i = omega (arith, tally-none left (i + 1))

module _ (heap_start : ℕ) where
  tally-owns :
      (m : ℕ → ℕ) (cs : List Chunk)
      → All (IsChunk heap_start m) cs
      → AreDisjoint cs
      → tally (owns cs) total_blocks 0 ≡ blocks_of cs
  tally-owns m [] v d = tally-none total_blocks 0
  tally-owns m (c ∷ cs) v d = omega (
    arith,
    tally_or (in_chunk c) (owns cs) total_blocks 0 d.0,
    tally-in_range c.start c.count total_blocks 0,
    tally-owns m cs v.1 d.1,
    v.0.within,
  )

  -- The used memory is the blocks of the chunks in use, and the free memory is the rest.
  pub get_used_memory_lem :
      (h : Kheap) (cs : List Chunk)
      → IsHeap heap_start h cs
      → (get_used_memory h ≡ blocks_of cs * block_size)
        × (get_free_memory h + get_used_memory h ≡ get_total_memory)
  unfolding get_used_memory get_free_memory get_total_memory
  get_used_memory_lem h cs v = omega (
    arith,
    count_used-tally h.bitmap (owns cs) total_blocks 0 0 (λ j lo hi. v.tracked j (omega arith)),
    tally-owns h.memory cs v.chunks v.disjoint,
    tally-le (owns cs) total_blocks 0,
  )
