-- ===== src/Kheap/Safety.antt =====
-- The allocations of a client never overlap.
use little_os.Base.{ℕ, ◌+◌, ◌≤◌, ◌≡◌, ◌⊎◌, inl, inr, true, false, List, [], ◌∷◌, All, Memory, arith}
use little_os.Kheap.{Kheap, heap_size, header_size}
use little_os.Kheap.Alloc.{IsPlaced}
use little_os.Kheap.Chunks.{Chunk, in_chunk, Apart, AreDisjoint, IsChunk}
use little_os.Kheap.Client.{Allocation, Reach, Matches, Reach-IsHeap}

-- The bytes of two allocations share none.
abbrev pub IsApart : Allocation → Allocation → Type 0
IsApart a b = (a.address + a.size ≤ b.address) ⊎ (b.address + b.size ≤ a.address)

abbrev pub AreApart : List Allocation → Type 0
AreApart [] = Unit
AreApart (a ∷ held) = All (IsApart a) held × AreApart held

-- The bytes of the allocation lie in the pool, behind a header.
abbrev pub IsInPool : (heap_start : ℕ) → Allocation → Type 0
IsInPool heap_start a =
    (heap_start + header_size ≤ a.address) × (a.address + a.size ≤ heap_start + heap_size)

module _ (heap_start : ℕ) where
  -- Two chunks that share no block.
  chunks-AreApart :
      (m : Memory) (c d : Chunk) (a b : Allocation)
      → IsChunk heap_start m c
      → IsChunk heap_start m d
      → ((i : ℕ) → in_chunk c i ≡ true → in_chunk d i ≡ false)
      → Matches heap_start (a ∷ b ∷ []) (c ∷ d ∷ [])
      → IsApart a b
  chunks-AreApart m c d a b v w apart h =
      let order : (c.start + c.count ≤ d.start) ⊎ (d.start + d.count ≤ c.start) =
        ground (arith, apart c.start, apart d.start, v.fits, w.fits) in
      elim order [
        | inl before ↦ inl (omega (arith, before, h.0, h.1, h.2.0, h.2.1, v.fits))
        | inr behind ↦ inr (omega (arith, behind, h.0, h.1, h.2.0, h.2.1, w.fits))
      ]

  All-AreApart :
      (m : Memory) (c : Chunk) (a : Allocation) (cs : List Chunk) (held : List Allocation)
      → IsChunk heap_start m c
      → All (IsChunk heap_start m) cs
      → Apart c cs
      → Matches heap_start (a ∷ []) (c ∷ [])
      → Matches heap_start held cs
      → All (IsApart a) held
  All-AreApart m c a [] [] v w apart here h = tt
  All-AreApart m c a [] (b ∷ held) v w apart here h = absurd h
  All-AreApart m c a (d ∷ cs) [] v w apart here h = absurd h
  All-AreApart m c a (d ∷ cs) (b ∷ held) v w apart here h = (
    chunks-AreApart m c d a b v w.0 (λ i e. ground (arith, apart i))
        (here.0, here.1, (h.0, h.1, tt)),
    All-AreApart m c a cs held v w.1 (λ i e. ground (arith, apart i)) here h.2,
  )

  held_apart :
      (m : Memory) (cs : List Chunk) (held : List Allocation)
      → All (IsChunk heap_start m) cs
      → AreDisjoint cs
      → Matches heap_start held cs
      → All (IsInPool heap_start) held × AreApart held
  held_apart m [] [] w d h = (tt, tt)
  held_apart m [] (a ∷ held) w d h = absurd h
  held_apart m (c ∷ cs) [] w d h = absurd h
  held_apart m (c ∷ cs) (a ∷ held) w d h =
      let rest = held_apart m cs held w.1 d.1 h.2 in
      let inside : IsInPool heap_start a =
        (omega (arith, h.0), omega (arith, h.0, h.1, w.0.fits, w.0.within)) in
      ((inside, rest.0), (All-AreApart m c a cs held w.0 w.1 d.0 (h.0, h.1, tt) h.2, rest.1))

-- Whatever a client does from the start of the kernel (it asks for 1 to 2 ^ 32 - 48 bytes and is
-- served or refused, resizes, frees or writes what it holds), the bytes that it holds lie in the
-- pool, and no two allocations share a byte.
pub Reach-AreApart :
    (heap_start : ℕ)
    → IsPlaced heap_start
    → {h : Kheap} {held : List Allocation} → Reach heap_start h held
    → All (IsInPool heap_start) held × AreApart held
Reach-AreApart heap_start placed {h} {held} r =
    let state = Reach-IsHeap heap_start placed r in
    held_apart heap_start h.memory state.0 held state.1.chunks state.1.disjoint state.2
