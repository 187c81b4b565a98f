-- ===== src/Kheap/Examples.antt =====
-- Runs of the heap, and the theorems at a heap with one chunk.
use little_os.Base.{load32, ℕ, ◌+◌, ◌<◌, ◌≡◌, refl, true, [], ◌∷◌, arith, ◌⊎◌, store8, ◌≤◌}
use little_os.Kheap.{
  Kheap, Header, heap_magic, total_blocks, null, bitmap_test, write_header, set_blocks, blocks_for,
  kmalloc, kcalloc, kfree, krealloc, scan, allocate_at, block_address, bitmap_set,
}
use little_os.Kheap.Bitmap.{bitmap_test-set_blocks, set_blocks-IsBytes}
use little_os.Kheap.Scan.{Fits}
use little_os.Kheap.Headers.{read_header-write_header}
use little_os.Kheap.Alloc.{IsPlaced, IsAllocated, kmalloc_lem, kmalloc_oversized, blocks_for_enough}
use little_os.Kheap.Chunks.{Chunk, IsHeap, Keeps, payload_of}
use little_os.Kheap.Live.{kmalloc-IsHeap, kfree-IsHeap, kfree-kfree}
use little_os.Kheap.Init.{kcalloc-IsHeap, bitmap_test_zero}
use little_os.Kheap.Realloc.{krealloc-move, krealloc_fails}

abbrev pool : ℕ
pool = 0xC0120000

pool-IsPlaced : IsPlaced pool
pool-IsPlaced = omega arith

abbrev fresh : Kheap
fresh = record { memory = λ a. 0; bitmap = λ i. 0; initialized = true }

fresh-IsHeap : IsHeap pool fresh []
fresh-IsHeap = record {
  ready = refl;
  bytes = λ i. omega arith;
  tracked = λ i lt. bitmap_test_zero _ i refl;
  chunks = tt;
  disjoint = tt;
}

-- The heap after `kmalloc(100)`.
abbrev first : Chunk
first = record { start = 0; count = 4; size = 100 }

abbrev header_of_first : Header
header_of_first = record { magic = heap_magic; start_block = 0; num_blocks = 4; size = 100 }

one_chunk : Kheap
one_chunk = record {
  memory = write_header (λ a. 0) pool header_of_first;
  bitmap = set_blocks 4 0 (λ i. 0);
  initialized = true;
}

kmalloc_first : kmalloc pool 100 fresh ≡ (pool + 16, one_chunk)
unfolding kmalloc one_chunk blocks_for scan bitmap_test allocate_at block_address
kmalloc_first = refl

one_chunk-IsHeap : IsHeap pool one_chunk (first ∷ [])
unfolding one_chunk
one_chunk-IsHeap = record {
  ready = refl;
  bytes = set_blocks-IsBytes 4 0 _ (λ i. omega arith);
  tracked = λ i lt. ground (
    arith,
    bitmap_test-set_blocks 4 0 (λ i. 0) i (λ i. omega arith),
    bitmap_test_zero (λ i. 0) i,
  );
  chunks = (
    record {
      within = omega arith;
      fits = omega arith;
      header = read_header-write_header _ pool header_of_first (omega arith);
    },
    tt,
  );
  disjoint = ((λ i e. refl), tt);
}

kmalloc_second : (kmalloc pool 200 one_chunk).0 ≡ pool + 144
unfolding kmalloc one_chunk blocks_for scan bitmap_test allocate_at block_address set_blocks
    bitmap_set store8
kmalloc_second = refl

kmalloc_too_large : (kmalloc pool 300000 one_chunk).0 ≡ null
unfolding kmalloc blocks_for one_chunk
kmalloc_too_large = refl

kmalloc-IsHeap_example :
    (c : Chunk) × (c.size ≡ 200)
    × ((kmalloc pool 200 one_chunk).0 ≡ payload_of pool c)
    × IsHeap pool (kmalloc pool 200 one_chunk).1 (c ∷ first ∷ [])
    × Keeps pool (first ∷ []) one_chunk.memory (kmalloc pool 200 one_chunk).1.memory
kmalloc-IsHeap_example =
    kmalloc-IsHeap pool pool-IsPlaced 200 one_chunk (first ∷ []) one_chunk-IsHeap (omega arith)
      (omega arith) (λ e. omega (arith, kmalloc_second))

kfree-IsHeap_example :
    IsHeap pool (kfree pool (pool + 16) one_chunk) []
    × Keeps pool [] one_chunk.memory (kfree pool (pool + 16) one_chunk).memory
kfree-IsHeap_example = kfree-IsHeap pool pool-IsPlaced [] first [] one_chunk one_chunk-IsHeap

-- The freed heap, where another client has since taken all blocks and has written behind the header.
reused : Kheap
reused = record {
  memory = store8 (kfree pool (pool + 16) one_chunk).memory (pool + 20) 7;
  bitmap = λ i. 0xFF;
  initialized = true;
}

kfree-kfree_example : kfree pool (pool + 16) reused ≡ reused
unfolding reused kfree store8 one_chunk load32
kfree-kfree_example =
    kfree-kfree pool pool-IsPlaced first one_chunk reused one_chunk-IsHeap.ready
      one_chunk-IsHeap.bytes one_chunk-IsHeap.chunks.0 refl

-- A request of 4 GB - 1 bytes in an empty heap.
kmalloc_oversized_example :
    (start : ℕ) × IsAllocated pool start 1 0xFFFFFFFF fresh (kmalloc pool 0xFFFFFFFF fresh)
kmalloc_oversized_example =
    kmalloc_oversized pool pool-IsPlaced 0xFFFFFFFF fresh refl (omega arith) 0 (omega arith)
      (omega arith) fresh-IsHeap.bytes (omega arith) (bitmap_test_zero _ 0 refl)

kmalloc_lem_example :
    ((start : ℕ) × IsAllocated pool start (blocks_for 100) 100 fresh (kmalloc pool 100 fresh))
    ⊎ ((kmalloc pool 100 fresh ≡ (null, fresh))
        × ((r : ℕ) → r + blocks_for 100 ≤ total_blocks → ¬ Fits fresh.bitmap (blocks_for 100) r))
kmalloc_lem_example =
    kmalloc_lem pool pool-IsPlaced 100 fresh refl (omega arith) (omega arith)
      (omega (arith, blocks_for_enough 100)) fresh-IsHeap.bytes

krealloc-move_example :
    let r = krealloc pool (pool + 16) 200 one_chunk in
    (d : Chunk) × (d.size ≡ 200)
    × (r.0 ≡ payload_of pool d)
    × IsHeap pool r.1 (d ∷ [])
    × Keeps pool [] one_chunk.memory r.1.memory
    × ((j : ℕ) → j < 100 → r.1.memory (payload_of pool d + j) ≡ one_chunk.memory (pool + 16 + j))
krealloc-move_example =
    krealloc-move pool pool-IsPlaced [] first [] 200 one_chunk one_chunk-IsHeap (omega arith)
      (omega arith) (omega arith) (λ e. omega (arith, kmalloc_second))

krealloc_fails_example : krealloc pool (pool + 16) 300000 one_chunk ≡ (null, one_chunk)
krealloc_fails_example =
    krealloc_fails pool pool-IsPlaced [] first [] 300000 one_chunk one_chunk-IsHeap (omega arith)
      (omega arith) (omega arith) kmalloc_too_large

kcalloc_first : (kcalloc pool 10 20 fresh).0 ≡ pool + 16
unfolding kcalloc kmalloc blocks_for scan bitmap_test allocate_at block_address
kcalloc_first = refl

kcalloc-IsHeap_example :
    (c : Chunk) × (c.size ≡ 200)
    × ((kcalloc pool 10 20 fresh).0 ≡ payload_of pool c)
    × IsHeap pool (kcalloc pool 10 20 fresh).1 (c ∷ [])
    × ((j : ℕ) → j < c.size → (kcalloc pool 10 20 fresh).1.memory (payload_of pool c + j) ≡ 0)
    × Keeps pool [] fresh.memory (kcalloc pool 10 20 fresh).1.memory
kcalloc-IsHeap_example =
    kcalloc-IsHeap pool pool-IsPlaced 10 20 fresh [] fresh-IsHeap (omega arith) (omega arith)
      (λ e. omega (arith, kcalloc_first))
