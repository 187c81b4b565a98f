-- ===== src/Kheap/Realloc.antt =====
-- `krealloc` on the payload of a chunk: in place where the blocks suffice, else by a move.
use little_os.Base.{
  ℕ, ◌+◌, ◌-◌, ◌*◌, ◌^◌, ◌≤◌, ◌<◌, ◌≡◌, ◌≢◌, refl, sym, ◌∙◌, ◌⊎◌, List, [], ◌∷◌, ◌++◌, arith,
  Memory, store32, store32_outside,
}
use little_os.Kheap.{
  Kheap, block_size, header_size, total_blocks, null, read_header, capacity, kmalloc, kfree,
  krealloc, grow, memcpy,
}
use little_os.Kheap.Alloc.{IsPlaced}
use little_os.Kheap.Headers.{read_header-store_size}
use little_os.Kheap.Chunks.{
  Chunk, Apart, header_of, payload_of, IsChunk, IsHeap, Keeps, Keeps-contents, owns_middle,
  Disjoint_middle, Disjoint_resize, All-middle, All-insert, All-IsChunk-same,
}
use little_os.Kheap.Live.{
  kmalloc-IsHeap, kmalloc-null, kfree-IsHeap, payload-IsHeap, payload_in_pool, magic_of,
}
use little_os.Kheap.Fill.{memcpy_inside, memcpy_outside}

module _ (heap_start : ℕ) (placed : IsPlaced heap_start) where
  capacity_of :
      (c : Chunk) (m : Memory)
      → IsChunk heap_start m c
      → capacity (read_header m (header_of heap_start c)) ≡ c.count * block_size - header_size
  unfolding capacity
  capacity_of c m v = rw v.header (ground (arith, v.within, v.fits))

  module _ (c : Chunk) (new_size : ℕ) (h : Kheap) (v : IsChunk heap_start h.memory c)
      (pos : 0 < new_size) where
    krealloc_in_place :
        new_size ≤ c.count * block_size - header_size
        → krealloc heap_start (payload_of heap_start c) new_size h ≡ (
          payload_of heap_start c,
          record h { memory = store32 h.memory (header_of heap_start c + 12) new_size },
        )
    unfolding krealloc
    krealloc_in_place fits =
        let at = payload_in_pool heap_start placed c (ground (arith, v.within, v.fits)) in
        rw (at.0, capacity_of c h.memory v)
          (ground (arith, at, magic_of heap_start placed c h.memory v))

    krealloc_moves :
        c.count * block_size - header_size < new_size
        → krealloc heap_start (payload_of heap_start c) new_size h
          ≡ grow heap_start (payload_of heap_start c) new_size h
    unfolding krealloc
    krealloc_moves short =
        let at = payload_in_pool heap_start placed c (ground (arith, v.within, v.fits)) in
        rw (at.0, capacity_of c h.memory v)
          (ground (arith, at, magic_of heap_start placed c h.memory v))

  -- Two chunks of one heap lie one after the other.
  order_of_chunks :
      (d : Chunk) (xs : List Chunk) (c : Chunk) (ys : List Chunk)
      → Apart d (xs ++ (c ∷ ys))
      → 0 < d.count
      → 0 < c.count
      → (d.start + d.count ≤ c.start) ⊎ (c.start + c.count ≤ d.start)
  order_of_chunks d xs c ys apart pd pc = ground (
    arith,
    apart c.start,
    apart d.start,
    owns_middle xs c ys c.start,
    owns_middle xs c ys d.start,
  )

  -- Copying the contents of `c` to the start of a larger chunk `d`.
  copy-IsHeap :
      (d : Chunk) (xs : List Chunk) (c : Chunk) (ys : List Chunk) (h : Kheap)
      → IsHeap heap_start h (d ∷ (xs ++ (c ∷ ys)))
      → c.size ≤ d.size
      → let m = memcpy h.memory (payload_of heap_start d) (payload_of heap_start c) c.size in
        (IsHeap heap_start (record h { memory = m }) (d ∷ (xs ++ (c ∷ ys)))
          × Keeps heap_start (xs ++ (c ∷ ys)) h.memory m)
        × ((j : ℕ)
            → j < c.size
            → m (payload_of heap_start d + j) ≡ h.memory (payload_of heap_start c + j))
  copy-IsHeap d xs c ys h v le =
      let vd = v.chunks.0 in
      let vc = (All-middle (IsChunk heap_start h.memory) xs c ys v.chunks.1).0 in
      let order =
        order_of_chunks d xs c ys v.disjoint.0 (ground (arith, vd.fits))
          (ground (arith, vc.fits)) in
      (
        payload-IsHeap heap_start placed [] d (xs ++ (c ∷ ys)) h _ v (λ x out.
            memcpy_outside h.memory (payload_of heap_start d) (payload_of heap_start c) c.size x
              (omega (arith, vd.within, vd.fits)) (omega (arith, vd.fits))),
        (λ j lt.
            memcpy_inside h.memory (payload_of heap_start d) (payload_of heap_start c) c.size j
              (omega (arith, vd.within, vd.fits)) (omega (arith, vc.within, vc.fits))
              (omega (arith, order, vd.fits, vc.fits)) lt),
      )

  module _ (c : Chunk) (new_size : ℕ) (h : Kheap) where
    grow-null :
        kmalloc heap_start new_size h ≡ (null, h)
        → grow heap_start (payload_of heap_start c) new_size h ≡ (null, h)
    unfolding grow
    grow-null e = ground (arith, e)

    grow_moves :
        (kmalloc heap_start new_size h).0 ≢ null
        → c.start < total_blocks
        → IsChunk heap_start (kmalloc heap_start new_size h).1.memory c
        → c.size < new_size
        → grow heap_start (payload_of heap_start c) new_size h ≡ (
            let (new_ptr, h') = kmalloc heap_start new_size h in
            (
              new_ptr,
              kfree heap_start (payload_of heap_start c) (record h' {
                memory = memcpy h'.memory new_ptr (payload_of heap_start c) c.size;
              }),
            ))
    unfolding grow
    grow_moves got lt v larger =
        let at = payload_in_pool heap_start placed c lt in rw (at.0, v.header) (ground (arith, got))

  module _ (xs : List Chunk) (c : Chunk) (ys : List Chunk) (new_size : ℕ) (h : Kheap)
      (v : IsHeap heap_start h (xs ++ (c ∷ ys))) where
    -- The header of `c` with a new size, and nothing else changed.
    resize-IsHeap :
        new_size + header_size ≤ c.count * block_size
        → let m = store32 h.memory (header_of heap_start c + 12) new_size in
          IsHeap heap_start (record h { memory = m }) (xs ++ (record c { size = new_size } ∷ ys))
          × Keeps heap_start (xs ++ ys) h.memory m
    resize-IsHeap fits =
        let c' : Chunk = record c { size = new_size } in
        let m : Memory = store32 h.memory (header_of heap_start c + 12) new_size in
        let parts = All-middle (IsChunk heap_start h.memory) xs c ys v.chunks in
        let apart = Disjoint_middle xs c ys v.disjoint in
        let kept : Keeps heap_start (xs ++ ys) h.memory m = λ b x o p q. ground (
          arith,
          store32_outside h.memory (header_of heap_start c + 12) new_size x,
          apart.0 b,
          parts.0.fits,
        ) in
        let header' =
          read_header-store_size h.memory (header_of heap_start c) new_size
            (ground (arith, parts.0.within)) in
        (
          record {
            ready = v.ready;
            bytes = v.bytes;
            tracked = λ i lt. v.tracked i lt ∙ owns_middle xs c ys i ∙ sym (owns_middle xs c' ys i);
            chunks =
                All-insert (IsChunk heap_start m) xs c' ys
                  (record {
                    within = parts.0.within;
                    fits = fits;
                    header = rw parts.0.header at header';
                  })
                  (All-IsChunk-same heap_start (xs ++ ys) parts.1 kept);
            disjoint = Disjoint_resize xs c new_size ys v.disjoint;
          },
          kept,
        )

    -- On a well-formed heap, a request that fits the blocks of its chunk keeps the pointer and all
    -- payload bytes.
    pub krealloc-in_place :
        0 < new_size
        → new_size + header_size ≤ c.count * block_size
        → let r = krealloc heap_start (payload_of heap_start c) new_size h in
          (r.0 ≡ payload_of heap_start c)
          × IsHeap heap_start r.1 (xs ++ (record c { size = new_size } ∷ ys))
          × Keeps heap_start (xs ++ ys) h.memory r.1.memory
          × ((x : ℕ) → payload_of heap_start c ≤ x → r.1.memory x ≡ h.memory x)
    krealloc-in_place pos fits =
        let parts = All-middle (IsChunk heap_start h.memory) xs c ys v.chunks in
        let (inv, kept) = resize-IsHeap fits in
        rw (krealloc_in_place c new_size h parts.0 pos (omega arith)) (
          refl,
          inv,
          kept,
          (λ x p. store32_outside h.memory (header_of heap_start c + 12) new_size x (omega arith)),
        )

    module _ (pos : 0 < new_size) (small : new_size ≤ 2 ^ 32 - 48)
        (short : c.count * block_size < new_size + header_size) where
      -- On a well-formed heap, a request of 1 to 2 ^ 32 - 48 bytes that does not fit the blocks of
      -- its chunk, and finds no other place, returns NULL and changes nothing.
      pub krealloc_fails :
          (kmalloc heap_start new_size h).0 ≡ null
          → krealloc heap_start (payload_of heap_start c) new_size h ≡ (null, h)
      krealloc_fails none_left =
          let vc = (All-middle (IsChunk heap_start h.memory) xs c ys v.chunks).0 in
          krealloc_moves c new_size h vc pos (omega (arith, vc.fits))
          ∙ grow-null c new_size h
              (kmalloc-null heap_start placed new_size h (xs ++ (c ∷ ys)) v pos small none_left)

      -- On a well-formed heap, a request of 1 to 2 ^ 32 - 48 bytes that does not fit the blocks of
      -- its chunk, and finds another place, frees the old chunk, returns a new one of the size asked
      -- for with the old contents, and keeps every byte of the other chunks.
      pub krealloc-move :
          (kmalloc heap_start new_size h).0 ≢ null
          → let r = krealloc heap_start (payload_of heap_start c) new_size h in
            (d : Chunk) × (d.size ≡ new_size)
            × (r.0 ≡ payload_of heap_start d)
            × IsHeap heap_start r.1 (d ∷ (xs ++ ys))
            × Keeps heap_start (xs ++ ys) h.memory r.1.memory
            × ((j : ℕ)
                → j < c.size
                → r.1.memory (payload_of heap_start d + j) ≡ h.memory (payload_of heap_start c + j))
      krealloc-move got =
          let (d, same, at, live, kept) =
            kmalloc-IsHeap heap_start placed new_size h (xs ++ (c ∷ ys)) v pos small got in
          let r : ℕ × Kheap = kmalloc heap_start new_size h in
          let vc = (All-middle (IsChunk heap_start h.memory) xs c ys v.chunks).0 in
          let vc' = (All-middle (IsChunk heap_start r.1.memory) xs c ys live.chunks.1).0 in
          let (inv, copied) = copy-IsHeap d xs c ys r.1 live (omega (arith, same, vc.fits)) in
          let (freed, kept') = kfree-IsHeap heap_start placed (d ∷ xs) c ys _ inv.0 in
          let moved : krealloc heap_start (payload_of heap_start c) new_size h ≡ (
            payload_of heap_start d,
            kfree heap_start (payload_of heap_start c) (record r.1 {
              memory = memcpy r.1.memory (payload_of heap_start d) (payload_of heap_start c) c.size;
            }),
          ) =
            krealloc_moves c new_size h vc pos (omega (arith, vc.fits))
            ∙ grow_moves c new_size h got (omega (arith, vc.within, vc.fits)) vc'
                (omega (arith, vc.fits))
            ∙ rw at in
          rw moved (
            d,
            same,
            refl,
            freed,
            (λ b x o p q.
                kept' b x (ground arith) p q
                ∙ inv.1 b x (ground (arith, owns_middle xs c ys b)) p q
                ∙ kept b x (ground (arith, owns_middle xs c ys b)) p q),
            (λ j lt.
                Keeps-contents heap_start (d ∷ (xs ++ ys)) d kept' live.chunks.0.fits
                  (λ i e. ground arith) j (omega (arith, same, vc.fits))
                ∙ copied j lt
                ∙ Keeps-contents heap_start (xs ++ (c ∷ ys)) c kept vc.fits
                    (λ i e. ground (arith, owns_middle xs c ys i)) j lt),
          )
