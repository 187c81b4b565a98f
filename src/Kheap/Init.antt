-- ===== src/Kheap/Init.antt =====
-- `kheap_init` and `kcalloc`: the empty heap, and a zeroed chunk.
use Prim.Native.Nat.{bit_and-bitwise}
use little_os.Base.{
  ℕ, ◌+◌, ◌-◌, ◌*◌, ◌/◌, ◌%◌, ◌^◌, ◌≤◌, ◌<◌, ◌≡◌, ◌≢◌, refl, ◌⊎◌, bit_and, false, List, [], ◌∷◌,
  arith, Memory, u32, ◌∙◌,
}
use little_os.Kheap.{
  Kheap, heap_size, bitmap_size, null, bitmap_test, memset, kheap_init, kmalloc, kcalloc,
}
use little_os.Kheap.Bitmap.{IsBytes}
use little_os.Kheap.Alloc.{IsPlaced}
use little_os.Kheap.Chunks.{Chunk, payload_of, IsChunk, IsHeap, Keeps}
use little_os.Kheap.Live.{kmalloc-IsHeap, payload-IsHeap}
use little_os.Kheap.Fill.{memset_lem}

zero-bit_and : (b : ℕ) → bit_and 0 b ≡ 0
zero-bit_and b = bit_and-bitwise 0 b

pub bitmap_test_zero : (bm : ℕ → ℕ) (i : ℕ) → bm (i / 8) ≡ 0 → bitmap_test bm i ≡ false
unfolding bitmap_test
bitmap_test_zero bm i e = rw e (ground (arith, zero-bit_and (2 ^ (i % 8))))

module _ (heap_start : ℕ) (placed : IsPlaced heap_start) where
  -- `kheap_init` makes a heap with no chunk in use, and zeroes the pool and nothing else.
  pub kheap_init-IsHeap :
      (h : Kheap)
      → IsBytes h.bitmap
      → IsHeap heap_start (kheap_init heap_start h) []
        × ((x : ℕ)
            → heap_start ≤ x
            → x < heap_start + heap_size
            → (kheap_init heap_start h).memory x ≡ 0)
        × ((x : ℕ)
            → (x < heap_start) ⊎ (heap_start + heap_size ≤ x)
            → (kheap_init heap_start h).memory x ≡ h.memory x)
  unfolding kheap_init
  kheap_init-IsHeap h bytes = (
    record {
      ready = refl;
      bytes = λ i. ground (arith, bytes i, memset_lem h.bitmap 0 0 bitmap_size i);
      tracked = λ i lt.
          bitmap_test_zero (memset h.bitmap 0 0 bitmap_size) i
            (ground (arith, memset_lem h.bitmap 0 0 bitmap_size (i / 8)));
      chunks = tt;
      disjoint = tt;
    },
    (λ x p q. ground (arith, memset_lem h.memory heap_start 0 heap_size x)),
    (λ x out. ground (arith, memset_lem h.memory heap_start 0 heap_size x)),
  )

  module _ (num size : ℕ) (h : Kheap) where
    kcalloc_pointer :
        (kcalloc heap_start num size h).0 ≡ (kmalloc heap_start (u32 (num * size)) h).0
    unfolding kcalloc
    kcalloc_pointer = ground arith

    kcalloc_zeroes :
        (kmalloc heap_start (u32 (num * size)) h).0 ≢ null
        → (kcalloc heap_start num size h).1 ≡ (
            let (ptr, h') = kmalloc heap_start (u32 (num * size)) h in
            record h' { memory = memset h'.memory ptr 0 (u32 (num * size)) })
    unfolding kcalloc
    kcalloc_zeroes got = ground arith

  chunk_end :
      (c : Chunk) (m : Memory) → IsChunk heap_start m c → payload_of heap_start c + c.size ≤ 2 ^ 32
  chunk_end c m v = ground (arith, v.within, v.fits)

  -- Zeroing the payload of a chunk.
  zero_fill-IsHeap :
      (c : Chunk) (cs : List Chunk) (h : Kheap)
      → IsHeap heap_start h (c ∷ cs)
      → let m = memset h.memory (payload_of heap_start c) 0 c.size in
        (IsHeap heap_start (record h { memory = m }) (c ∷ cs) × Keeps heap_start cs h.memory m)
        × ((j : ℕ) → j < c.size → m (payload_of heap_start c + j) ≡ 0)
  zero_fill-IsHeap c cs h v =
      let fill = λ (x : ℕ).
        memset_lem h.memory (payload_of heap_start c) 0 c.size x
          (chunk_end c h.memory v.chunks.0) in
      (
        payload-IsHeap heap_start placed [] c cs h _ v
            (λ x out. ground (arith, fill x, v.chunks.0.fits)),
        (λ j lt. ground (arith, fill (payload_of heap_start c + j))),
      )

  -- On a well-formed heap, what `kcalloc` returns for a wrapped product of 1 to 2 ^ 32 - 48 bytes,
  -- if it returns a pointer, is a chunk of that size, zeroed; the bytes of the other chunks are
  -- kept.
  pub kcalloc-IsHeap :
      (num size : ℕ) (h : Kheap) (cs : List Chunk)
      → IsHeap heap_start h cs
      → 0 < u32 (num * size)
      → u32 (num * size) ≤ 2 ^ 32 - 48
      → (kcalloc heap_start num size h).0 ≢ null
      → (c : Chunk) × (c.size ≡ u32 (num * size))
        × ((kcalloc heap_start num size h).0 ≡ payload_of heap_start c)
        × IsHeap heap_start (kcalloc heap_start num size h).1 (c ∷ cs)
        × ((j : ℕ)
            → j < c.size
            → (kcalloc heap_start num size h).1.memory (payload_of heap_start c + j) ≡ 0)
        × Keeps heap_start cs h.memory (kcalloc heap_start num size h).1.memory
  kcalloc-IsHeap num size h cs v pos small got =
      let total : ℕ = u32 (num * size) in
      let r : ℕ × Kheap = kmalloc heap_start total h in
      let got' : r.0 ≢ null = λ e. got (kcalloc_pointer num size h ∙ e) in
      let (c, same, at, live, kept) =
        kmalloc-IsHeap heap_start placed total h cs v pos small got' in
      let zeroed : (kcalloc heap_start num size h).1
          ≡ record r.1 { memory = memset r.1.memory (payload_of heap_start c) 0 c.size } =
        kcalloc_zeroes num size h got' ∙ (rw (at, same)) in
      let (inv, zero) = zero_fill-IsHeap c cs r.1 live in
      (
        c,
        same,
        kcalloc_pointer num size h ∙ at,
        (rw zeroed inv.0),
        (λ j lt. rw zeroed (zero j lt)),
        (λ b x o p q. rw zeroed (inv.1 b x o p q ∙ kept b x o p q)),
      )
