-- ===== src/Kheap/Live.antt =====
-- The operations keep the abstract view: `kmalloc` adds a chunk, `kfree` removes the one it is
-- given, and a client that stays inside its chunk disturbs nothing.
use little_os.Base.{
  ℕ, ◌+◌, ◌-◌, ◌*◌, ◌^◌, ◌≤◌, ◌<◌, ◌≡◌, ◌≢◌, refl, ◌⊎◌, inl, inr, true, false, not, ◌&&◌, List, ◌∷◌,
  ◌++◌, arith, Memory, load32, u32, sub32, ◌∙◌, ap, store32_outside, load32-store32_self,
}
use little_os.Kheap.{
  Kheap, Header, total_blocks, block_size, heap_size, header_size, heap_magic, null, bitmap_test,
  blocks_for, read_header, kmalloc, kfree, release,
}
use little_os.Kheap.Bitmap.{IsBytes, bitmap_test-clear_blocks, clear_blocks-IsBytes}
use little_os.Kheap.Alloc.{IsPlaced, IsAllocated, kmalloc_lem, blocks_for_enough}
use little_os.Kheap.Chunks.{
  Chunk, in_chunk, owns, header_of, payload_of, IsChunk, IsHeap, IsChunk-same, All-IsChunk-same,
  owns_middle, Disjoint_middle, All-middle, All-insert, Keeps,
}

module _ (heap_start : ℕ) (placed : IsPlaced heap_start) where
  module _ {start size : ℕ} {h : Kheap} {r : ℕ × Kheap} {cs : List Chunk}
      (v : IsHeap heap_start h cs) (small : size ≤ 2 ^ 32 - 48)
      (a : IsAllocated heap_start start (blocks_for size) size h r) where
    -- The blocks that the scan found free belong to no chunk.
    unowned : (i : ℕ) → start ≤ i → i < start + blocks_for size → owns cs i ≡ false
    unowned i p q = ground (arith, a.first_fit.fits i, a.first_fit.within, v.tracked i)

    IsAllocated-Keeps : Keeps heap_start cs h.memory r.1.memory
    IsAllocated-Keeps b x o p q =
        ground (arith, a.memory_kept x, unowned start, blocks_for_enough size small)

    -- An allocation adds its chunk.
    IsAllocated-IsHeap :
        IsHeap heap_start r.1 (record { start = start; count = blocks_for size; size = size } ∷ cs)
    IsAllocated-IsHeap = record {
      ready = a.initialized ∙ v.ready;
      bytes = a.bytes;
      tracked = λ i lt. ground (arith, a.marked i, v.tracked i);
      chunks = (
        record {
          within = a.first_fit.within;
          fits = (blocks_for_enough size small).0;
          header = a.header;
        },
        All-IsChunk-same heap_start cs v.chunks IsAllocated-Keeps,
      );
      disjoint = (λ i e. unowned i (ground arith) (ground arith), v.disjoint);
    }

  -- On a well-formed heap, a request of 1 to 2 ^ 32 - 48 bytes that succeeds adds one chunk, of
  -- the size asked for, returns its payload, and keeps every byte of the other chunks.
  pub kmalloc-IsHeap :
      (size : ℕ) (h : Kheap) (cs : List Chunk)
      → IsHeap heap_start h cs
      → 0 < size
      → size ≤ 2 ^ 32 - 48
      → (kmalloc heap_start size h).0 ≢ null
      → (c : Chunk) × (c.size ≡ size)
        × ((kmalloc heap_start size h).0 ≡ payload_of heap_start c)
        × IsHeap heap_start (kmalloc heap_start size h).1 (c ∷ cs)
        × Keeps heap_start cs h.memory (kmalloc heap_start size h).1.memory
  kmalloc-IsHeap size h cs v pos small got =
      elim (kmalloc_lem heap_start placed size h v.ready pos (omega arith)
        (omega (arith, blocks_for_enough size small)) v.bytes) [
          | inl (start, a) ↦ (
            record { start = start; count = blocks_for size; size = size },
            refl,
            a.pointer,
            IsAllocated-IsHeap v small a,
            IsAllocated-Keeps v small a,
          )
          | inr (failed, nowhere) ↦ absurd (got (rw failed))
        ]

  -- A request that fails changes nothing.
  pub kmalloc-null :
      (size : ℕ) (h : Kheap) (cs : List Chunk)
      → IsHeap heap_start h cs
      → 0 < size
      → size ≤ 2 ^ 32 - 48
      → (kmalloc heap_start size h).0 ≡ null
      → kmalloc heap_start size h ≡ (null, h)
  kmalloc-null size h cs v pos small failed =
      elim (kmalloc_lem heap_start placed size h v.ready pos (omega arith)
        (omega (arith, blocks_for_enough size small)) v.bytes) [
          | inl (start, a) ↦ absurd (omega (arith, a.pointer, placed.not_null))
          | inr (same, nowhere) ↦ same
        ]

  -- What a release of `c` does to the heap.
  record IsReleased (c : Chunk) (h h' : Kheap) : Type 0 where
    cleared :
        (i : ℕ)
        → i < total_blocks
        → bitmap_test h'.bitmap i ≡ (not (in_chunk c i) && bitmap_test h.bitmap i)
    kept :
        (a : ℕ)
        → (a < header_of heap_start c) ⊎ (header_of heap_start c + 4 ≤ a)
        → h'.memory a ≡ h.memory a
    invalid : load32 h'.memory (header_of heap_start c) ≡ 0
    initialized : h'.initialized ≡ h.initialized
    bytes : IsBytes h'.bitmap

  -- The address computation of `kfree`, for the payload of a chunk.
  pub payload_in_pool :
      (c : Chunk)
      → c.start < total_blocks
      → (sub32 (payload_of heap_start c) header_size ≡ header_of heap_start c)
        × (payload_of heap_start c ≢ null)
        × (u32 (heap_start + header_size) ≤ payload_of heap_start c)
        × (payload_of heap_start c < u32 (heap_start + heap_size))
  payload_in_pool c lt = omega arith

  release-IsReleased :
      (c : Chunk) (h : Kheap)
      → IsBytes h.bitmap
      → IsChunk heap_start h.memory c
      → IsReleased c h (release heap_start (header_of heap_start c) h)
  unfolding release
  release-IsReleased c h bytes v =
      let rounds : u32 (c.start + c.count) - c.start ≡ c.count = ground (arith, v.within) in
      rw v.header record {
        cleared = λ i lt. rw rounds (bitmap_test-clear_blocks c.count c.start h.bitmap i bytes lt);
        kept = λ a out. store32_outside h.memory (header_of heap_start c) 0 a out;
        invalid = load32-store32_self h.memory (header_of heap_start c) 0 (omega arith);
        initialized = refl;
        bytes = clear_blocks-IsBytes _ c.start h.bitmap bytes;
      }

  pub magic_of :
      (c : Chunk) (m : Memory)
      → IsChunk heap_start m c
      → load32 m (header_of heap_start c) ≡ heap_magic
  unfolding read_header
  magic_of c m v = ap (λ (e : Header). e.magic) v.header

  kfree-release :
      (c : Chunk) (h : Kheap)
      → h.initialized ≡ true
      → IsChunk heap_start h.memory c
      → kfree heap_start (payload_of heap_start c) h ≡ release heap_start (header_of heap_start c) h
  unfolding kfree
  kfree-release c h ready v =
      let at = payload_in_pool c (ground (arith, v.within, v.fits)) in
      rw at.0 (ground (arith, at, magic_of c h.memory v))

  kfree_bad_magic :
      (c : Chunk) (h : Kheap)
      → c.start < total_blocks
      → load32 h.memory (header_of heap_start c) ≡ 0
      → kfree heap_start (payload_of heap_start c) h ≡ h
  unfolding kfree
  kfree_bad_magic c h lt e = let at = payload_in_pool c lt in rw at.0 (ground (arith, e))

  -- On a well-formed heap, freeing a chunk removes it, whatever its place among the others, and
  -- keeps every byte of the others.
  pub kfree-IsHeap :
      (xs : List Chunk) (c : Chunk) (ys : List Chunk) (h : Kheap)
      → IsHeap heap_start h (xs ++ (c ∷ ys))
      → IsHeap heap_start (kfree heap_start (payload_of heap_start c) h) (xs ++ ys)
        × Keeps heap_start (xs ++ ys) h.memory (kfree heap_start (payload_of heap_start c) h).memory
  kfree-IsHeap xs c ys h v =
      let parts = All-middle (IsChunk heap_start h.memory) xs c ys v.chunks in
      let apart = Disjoint_middle xs c ys v.disjoint in
      let r = release-IsReleased c h v.bytes parts.0 in
      let kept : Keeps heap_start (xs ++ ys) h.memory
          (release heap_start (header_of heap_start c) h).memory =
        λ b x o p q. ground (arith, r.kept x, apart.0 c.start, parts.0.fits) in
      rw (kfree-release c h v.ready parts.0) (
        record {
          ready = r.initialized ∙ v.ready;
          bytes = r.bytes;
          tracked =
              λ i lt. ground (arith, r.cleared i, v.tracked i, owns_middle xs c ys i, apart.0 i);
          chunks = All-IsChunk-same heap_start (xs ++ ys) parts.1 kept;
          disjoint = apart.1;
        },
        kept,
      )

  -- After `kfree` of a chunk of an initialised heap, a second `kfree` of the same pointer changes
  -- nothing, whatever was allocated, freed or written in between, as long as the word at the chunk's
  -- header is the one the first `kfree` left. The blocks may belong to another chunk by then.
  pub kfree-kfree :
      (c : Chunk) (h h' : Kheap)
      → h.initialized ≡ true
      → IsBytes h.bitmap
      → IsChunk heap_start h.memory c
      → load32 h'.memory (header_of heap_start c)
        ≡ load32 (kfree heap_start (payload_of heap_start c) h).memory (header_of heap_start c)
      → kfree heap_start (payload_of heap_start c) h' ≡ h'
  kfree-kfree c h h' ready bytes v same =
      let r = release-IsReleased c h bytes v in
      kfree_bad_magic c h' (ground (arith, v.within, v.fits)) (
        same
        ∙ ap (λ (k : Kheap). load32 k.memory (header_of heap_start c)) (kfree-release c h ready v)
        ∙ r.invalid)

  -- On a well-formed heap, a client may change anything in its payload: the heap and all its
  -- chunks stay.
  pub payload-IsHeap :
      (xs : List Chunk) (c : Chunk) (ys : List Chunk) (h : Kheap) (m : Memory)
      → IsHeap heap_start h (xs ++ (c ∷ ys))
      → ((x : ℕ)
          → (x < payload_of heap_start c) ⊎ (header_of heap_start c + c.count * block_size ≤ x)
          → m x ≡ h.memory x)
      → IsHeap heap_start (record h { memory = m }) (xs ++ (c ∷ ys))
        × Keeps heap_start (xs ++ ys) h.memory m
  payload-IsHeap xs c ys h m v same =
      let parts = All-middle (IsChunk heap_start h.memory) xs c ys v.chunks in
      let apart = Disjoint_middle xs c ys v.disjoint in
      let kept : Keeps heap_start (xs ++ ys) h.memory m =
        λ b y o p q. ground (arith, same y, apart.0 b) in
      (
        record {
          ready = v.ready;
          bytes = v.bytes;
          tracked = v.tracked;
          chunks =
              All-insert (IsChunk heap_start m) xs c ys
                (IsChunk-same heap_start parts.0 (λ y p q. same y (omega arith)))
                (All-IsChunk-same heap_start (xs ++ ys) parts.1 kept);
          disjoint = v.disjoint;
        },
        kept,
      )
