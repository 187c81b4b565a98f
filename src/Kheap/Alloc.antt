-- ===== src/Kheap/Alloc.antt =====
-- `kmalloc`: which blocks it takes, what it writes, and when it gives up.
use little_os.Base.{
  ℕ, ◌+◌, ◌-◌, ◌*◌, ◌^◌, ◌≤◌, ◌<◌, ◌≡◌, refl, ◌⊎◌, inl, inr, true, false, ◌||◌, Option, none, some,
  u32, arith, dec_lt,
}
use mathlib.Core.Path.{subst}
use little_os.Kheap.{
  Kheap, total_blocks, block_size, heap_size, header_size, heap_magic, null, bitmap_test, scan,
  blocks_for, read_header, block_address, allocate_at, kmalloc,
}
use little_os.Kheap.Bitmap.{IsBytes, in_range, bitmap_test-set_blocks, set_blocks-IsBytes}
use little_os.Kheap.Scan.{Fits, IsFirstFit, Scanned, scan-Scanned, scan_no_blocks}
use little_os.Kheap.Headers.{read_header-write_header, write_header_outside}

-- The pool lies in the address space, below its last byte and not at NULL.
pub record IsPlaced (heap_start : ℕ) : Type 0 where
  pub not_null : 0 < heap_start
  pub in_space : heap_start + heap_size < 2 ^ 32

-- A request of at most 4 GB - 48 bytes gets blocks for itself and its header, and less than one
-- block to spare.
pub blocks_for_enough :
    (size : ℕ)
    → size ≤ 2 ^ 32 - 48
    → (size + header_size ≤ blocks_for size * block_size)
      × (blocks_for size * block_size < size + header_size + block_size)
unfolding blocks_for
blocks_for_enough size h = omega arith

-- A request of more than 4 GB - 16 bytes gets one block.
pub blocks_for_wraps : (size : ℕ) → 2 ^ 32 - 16 < size → size < 2 ^ 32 → blocks_for size ≡ 1
unfolding blocks_for
blocks_for_wraps size lo hi = omega arith

-- What an allocation of `need` blocks at `start` does to the heap.
pub record IsAllocated (heap_start start need size : ℕ) (h : Kheap) (r : ℕ × Kheap) : Type 0 where
  pub first_fit : IsFirstFit h.bitmap need total_blocks start
  pub pointer : r.0 ≡ heap_start + start * block_size + header_size
  pub marked :
      (i : ℕ) → bitmap_test r.1.bitmap i ≡ (in_range start need i || bitmap_test h.bitmap i)
  pub header :
      read_header r.1.memory (heap_start + start * block_size)
      ≡ record { magic = heap_magic; start_block = start; num_blocks = need; size = size }
  pub memory_kept :
      (a : ℕ)
      → (a < heap_start + start * block_size) ⊎ (heap_start + start * block_size + 16 ≤ a)
      → r.1.memory a ≡ h.memory a
  pub initialized : r.1.initialized ≡ h.initialized
  pub bytes : IsBytes r.1.bitmap

module _ (heap_start : ℕ) (placed : IsPlaced heap_start) where
  block_address_lem :
      (b : ℕ) → b < total_blocks → block_address heap_start b ≡ heap_start + b * block_size
  unfolding block_address
  block_address_lem b h = omega arith

  allocate_at-IsAllocated :
      (start need size : ℕ) (h : Kheap)
      → size < 2 ^ 32
      → 0 < need
      → IsBytes h.bitmap
      → IsFirstFit h.bitmap need total_blocks start
      → IsAllocated heap_start start need size h (allocate_at heap_start start need size h)
  unfolding allocate_at
  allocate_at-IsAllocated start need size h size_fits pos bytes fit =
      let in_heap : start + need ≤ total_blocks = fit.within in
      let at : block_address heap_start start ≡ heap_start + start * block_size =
        block_address_lem start (omega arith) in
      let rounds : u32 (start + need) - start ≡ need = omega arith in
      rw at record {
        first_fit = fit;
        pointer = omega arith;
        marked = λ i. rw rounds (bitmap_test-set_blocks need start h.bitmap i bytes);
        header = read_header-write_header h.memory _ _ (record {
          magic_fits = omega arith;
          start_fits = omega arith;
          num_fits = omega arith;
          size_fits = size_fits;
        });
        memory_kept = λ a out. write_header_outside h.memory _ _ a out;
        initialized = refl;
        bytes = set_blocks-IsBytes _ start h.bitmap bytes;
      }

  module _ (size : ℕ) (h : Kheap) (ready : h.initialized ≡ true) (pos : 0 < size) where
    kmalloc_found :
        {start : ℕ}
        → blocks_for size ≤ total_blocks
        → scan h.bitmap (blocks_for size) total_blocks 0 0 0 ≡ some start
        → kmalloc heap_start size h ≡ allocate_at heap_start start (blocks_for size) size h
    unfolding kmalloc
    kmalloc_found small found = ground arith

    kmalloc_full :
        blocks_for size ≤ total_blocks
        → scan h.bitmap (blocks_for size) total_blocks 0 0 0 ≡ none
        → kmalloc heap_start size h ≡ (null, h)
    unfolding kmalloc
    kmalloc_full small full = ground arith

    kmalloc_large : total_blocks < blocks_for size → kmalloc heap_start size h ≡ (null, h)
    unfolding kmalloc
    kmalloc_large large = ground arith

    -- A request that needs a block, on an initialised heap, either takes the lowest place where it
    -- fits, or gets NULL and changes nothing, and then it fits nowhere.
    pub kmalloc_lem :
        size < 2 ^ 32
        → 0 < blocks_for size
        → IsBytes h.bitmap
        → ((start : ℕ) × IsAllocated heap_start start
              (blocks_for size)
              size
              h
              (kmalloc heap_start size h))
          ⊎ ((kmalloc heap_start size h ≡ (null, h))
              × ((r : ℕ)
                  → r + blocks_for size ≤ total_blocks
                  → ¬ Fits h.bitmap (blocks_for size) r))
    kmalloc_lem size_fits need bytes = elim (dec_lt total_blocks (blocks_for size)) [
      | yes large ↦ inr (kmalloc_large large, λ r p f. omega arith)
      | no small ↦
          outcome (omega arith) (scan h.bitmap (blocks_for size) total_blocks 0 0 0) refl
            (scan-Scanned h.bitmap (blocks_for size) total_blocks need)
    ]
      where
        outcome :
            blocks_for size ≤ total_blocks
            → (o : Option ℕ) → scan h.bitmap (blocks_for size) total_blocks 0 0 0 ≡ o
            → Scanned h.bitmap (blocks_for size) total_blocks o
            → ((start : ℕ) × IsAllocated heap_start start
                  (blocks_for size)
                  size
                  h
                  (kmalloc heap_start size h))
              ⊎ ((kmalloc heap_start size h ≡ (null, h))
                  × ((r : ℕ)
                      → r + blocks_for size ≤ total_blocks
                      → ¬ Fits h.bitmap (blocks_for size) r))
        outcome small none e f = inr (kmalloc_full small e, f)
        outcome small (some start) e f = inl (
          start,
          rw (kmalloc_found small e)
              (allocate_at-IsAllocated start (blocks_for size) size h size_fits need bytes f),
        )

    -- A size whose block count wraps to 0 is refused.
    pub kmalloc_no_blocks : blocks_for size ≡ 0 → kmalloc heap_start size h ≡ (null, h)
    kmalloc_no_blocks e =
        kmalloc_full (omega arith) (scan_no_blocks h.bitmap (blocks_for size) total_blocks 0 0 0 e)

    -- On an initialised heap, a request of more than 4 GB - 16 bytes succeeds as soon as one block
    -- is free: the sum with the size of the header wraps, and the chunk has a single block.
    pub kmalloc_oversized :
        (free : ℕ)
        → 2 ^ 32 - 16 < size
        → size < 2 ^ 32
        → IsBytes h.bitmap
        → free < total_blocks
        → bitmap_test h.bitmap free ≡ false
        → (start : ℕ) × IsAllocated heap_start start 1 size h (kmalloc heap_start size h)
    kmalloc_oversized free lo hi bytes below unused =
        let one = blocks_for_wraps size lo hi in
        elim (kmalloc_lem hi (omega (arith, one)) bytes) [
          | inl (start, a) ↦ (
            start,
            subst (λ n. IsAllocated heap_start start n size h (kmalloc heap_start size h)) one a,
          )
          | inr (failed, nowhere) ↦ absurd (
              nowhere free (omega (arith, one))
                (λ j p q. let same : j ≡ free = omega (arith, one) in rw same unused))
        ]
