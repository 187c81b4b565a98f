-- ===== src/Kheap/Client.antt =====
-- A client of the heap: any sequence of its calls and of its writes.
use little_os.Base.{
  ℕ, ◌+◌, ◌-◌, ◌*◌, ◌^◌, ◌≤◌, ◌<◌, ◌≡◌, ◌≢◌, ◌⊎◌, inl, inr, refl, ◌∙◌, ap, sym, List, [], ◌∷◌, ◌++◌,
  arith, Memory, dec_le, ℕ_discrete,
}
use mathlib.Core.Path.{subst}
use little_os.Kheap.{Kheap, block_size, header_size, null, kmalloc, kfree, krealloc, kheap_init}
use little_os.Kheap.Bitmap.{IsBytes}
use little_os.Kheap.Alloc.{IsPlaced}
use little_os.Kheap.Chunks.{
  Chunk, payload_of, IsChunk, IsHeap, All-middle, Disjoint_middle, owns_middle,
}
use little_os.Kheap.Live.{kmalloc-IsHeap, kmalloc-null, kfree-IsHeap, payload-IsHeap}
use little_os.Kheap.Realloc.{krealloc-in_place, krealloc_fails, krealloc-move}
use little_os.Kheap.Init.{kheap_init-IsHeap}

-- Bytes that the client was given and has not freed.
pub record Allocation : Type 0 where
  pub address : ℕ
  pub size : ℕ

-- What a client can reach from the start of the kernel: it asks for memory and is served or refused,
-- frees an allocation, writes to its bytes, or asks for it to be resized and is served or refused.
pub data Reach (heap_start : ℕ) : Kheap → List Allocation → Type 0 where
  boot : (h : Kheap) → IsBytes h.bitmap → Reach heap_start (kheap_init heap_start h) []
  served :
      {h : Kheap} {held : List Allocation} (size : ℕ)
      → Reach heap_start h held
      → 0 < size
      → size ≤ 2 ^ 32 - 48
      → (kmalloc heap_start size h).0 ≢ null
      → Reach heap_start
          (kmalloc heap_start size h).1
          (record { address = (kmalloc heap_start size h).0; size = size } ∷ held)
  refused :
      {h : Kheap} {held : List Allocation} (size : ℕ)
      → Reach heap_start h held
      → 0 < size
      → size ≤ 2 ^ 32 - 48
      → (kmalloc heap_start size h).0 ≡ null
      → Reach heap_start (kmalloc heap_start size h).1 held
  freed :
      {h : Kheap} (xs : List Allocation) (a : Allocation) (ys : List Allocation)
      → Reach heap_start h (xs ++ (a ∷ ys))
      → Reach heap_start (kfree heap_start a.address h) (xs ++ ys)
  written :
      {h : Kheap} (xs : List Allocation) (a : Allocation) (ys : List Allocation) (m : Memory)
      → Reach heap_start h (xs ++ (a ∷ ys))
      → ((x : ℕ) → (x < a.address) ⊎ (a.address + a.size ≤ x) → m x ≡ h.memory x)
      → Reach heap_start (record h { memory = m }) (xs ++ (a ∷ ys))
  resized :
      {h : Kheap} (xs : List Allocation) (a : Allocation) (ys : List Allocation) (size : ℕ)
      → Reach heap_start h (xs ++ (a ∷ ys))
      → 0 < size
      → size ≤ 2 ^ 32 - 48
      → (krealloc heap_start a.address size h).0 ≢ null
      → Reach heap_start
          (krealloc heap_start a.address size h).1
          (record { address = (krealloc heap_start a.address size h).0; size = size } ∷ (xs ++ ys))
  not_resized :
      {h : Kheap} (xs : List Allocation) (a : Allocation) (ys : List Allocation) (size : ℕ)
      → Reach heap_start h (xs ++ (a ∷ ys))
      → 0 < size
      → size ≤ 2 ^ 32 - 48
      → (krealloc heap_start a.address size h).0 ≡ null
      → Reach heap_start (krealloc heap_start a.address size h).1 (xs ++ (a ∷ ys))

module _ (heap_start : ℕ) where
  -- The allocations are the payloads of the chunks.
  abbrev pub Matches : List Allocation → List Chunk → Type 0
  Matches [] [] = Unit
  Matches [] (c ∷ cs) = ⊥
  Matches (a ∷ held) [] = ⊥
  Matches (a ∷ held) (c ∷ cs) =
      (a.address ≡ payload_of heap_start c) × (a.size ≡ c.size) × Matches held cs

  -- The chunk of one allocation, between those of the others.
  record Split (xs : List Allocation) (a : Allocation) (ys : List Allocation) (cs : List Chunk)
      : Type 0 where
    before : List Chunk
    chunk : Chunk
    behind : List Chunk
    splits : cs ≡ before ++ (chunk ∷ behind)
    same_before : Matches xs before
    address : a.address ≡ payload_of heap_start chunk
    size : a.size ≡ chunk.size
    same_behind : Matches ys behind

  Matches-Split :
      (xs : List Allocation) (a : Allocation) (ys : List Allocation) (cs : List Chunk)
      → Matches (xs ++ (a ∷ ys)) cs
      → Split xs a ys cs
  Matches-Split [] a ys [] h = absurd h
  Matches-Split [] a ys (c ∷ cs) h = record {
    before = [];
    chunk = c;
    behind = cs;
    splits = refl;
    same_before = tt;
    address = h.0;
    size = h.1;
    same_behind = h.2;
  }
  Matches-Split (x ∷ xs) a ys [] h = absurd h
  Matches-Split (x ∷ xs) a ys (c ∷ cs) h =
      let s = Matches-Split xs a ys cs h.2 in
      record {
        before = c ∷ s.before;
        chunk = s.chunk;
        behind = s.behind;
        splits = ap (◌∷◌ c) s.splits;
        same_before = (h.0, h.1, s.same_before);
        address = s.address;
        size = s.size;
        same_behind = s.same_behind;
      }

  Matches-append :
      (xs ys : List Allocation) (before behind : List Chunk)
      → Matches xs before
      → Matches ys behind
      → Matches (xs ++ ys) (before ++ behind)
  Matches-append [] ys [] behind h g = g
  Matches-append [] ys (c ∷ before) behind h g = absurd h
  Matches-append (x ∷ xs) ys [] behind h g = absurd h
  Matches-append (x ∷ xs) ys (c ∷ before) behind h g =
      (h.0, h.1, Matches-append xs ys before behind h.2 g)

-- The order of the chunks does not matter.
IsHeap-front :
    (heap_start : ℕ) (h : Kheap) (xs : List Chunk) (c : Chunk) (ys : List Chunk)
    → IsHeap heap_start h (xs ++ (c ∷ ys))
    → IsHeap heap_start h (c ∷ (xs ++ ys))
IsHeap-front heap_start h xs c ys v = record {
  ready = v.ready;
  bytes = v.bytes;
  tracked = λ i lt. v.tracked i lt ∙ owns_middle xs c ys i;
  chunks = All-middle (IsChunk heap_start h.memory) xs c ys v.chunks;
  disjoint = Disjoint_middle xs c ys v.disjoint;
}

-- `krealloc` gives NULL and changes nothing, or, in place or not, gives a chunk of the new size.
module _ (heap_start : ℕ) (placed : IsPlaced heap_start) (xs : List Chunk) (c : Chunk)
    (ys : List Chunk) (h : Kheap) (size : ℕ) (v : IsHeap heap_start h (xs ++ (c ∷ ys)))
    (pos : 0 < size) (small : size ≤ 2 ^ 32 - 48) where
  krealloc-IsHeap :
      (krealloc heap_start (payload_of heap_start c) size h ≡ (null, h))
      ⊎ ((d : Chunk) × (d.size ≡ size)
          × ((krealloc heap_start (payload_of heap_start c) size h).0 ≡ payload_of heap_start d)
          × IsHeap heap_start
              (krealloc heap_start (payload_of heap_start c) size h).1
              (d ∷ (xs ++ ys)))
  krealloc-IsHeap = elim (dec_le (size + header_size) (c.count * block_size)) [
    | yes fits ↦
        let r = krealloc-in_place heap_start placed xs c ys size h v pos fits in
        inr (
          record c { size = size },
          refl,
          r.0,
          IsHeap-front heap_start _ xs (record c { size = size }) ys r.1,
        )
    | no short ↦ elim (ℕ_discrete (kmalloc heap_start size h).0 null) [
      | yes none_left ↦
          inl (krealloc_fails heap_start placed xs c ys size h v pos small (omega arith) none_left)
      | no got ↦
          let r = krealloc-move heap_start placed xs c ys size h v pos small (omega arith) got in
          inr (r.0, r.1, r.2, r.3)
    ]
  ]

  krealloc-moved :
      (krealloc heap_start (payload_of heap_start c) size h).0 ≢ null
      → (d : Chunk) × (d.size ≡ size)
        × ((krealloc heap_start (payload_of heap_start c) size h).0 ≡ payload_of heap_start d)
        × IsHeap heap_start
            (krealloc heap_start (payload_of heap_start c) size h).1
            (d ∷ (xs ++ ys))
  krealloc-moved got = elim krealloc-IsHeap [
    | inl failed ↦ absurd (got (ap (λ (r : ℕ × Kheap). r.0) failed))
    | inr d ↦ d
  ]

  krealloc-null :
      (krealloc heap_start (payload_of heap_start c) size h).0 ≡ null
      → krealloc heap_start (payload_of heap_start c) size h ≡ (null, h)
  krealloc-null none_left = elim krealloc-IsHeap [
    | inl failed ↦ failed
    | inr d ↦ absurd (omega (arith, none_left, d.2, placed.not_null))
  ]

-- Whatever a client does from the start of the kernel (it asks for 1 to 2 ^ 32 - 48 bytes and is
-- served or refused, resizes, frees or writes what it holds), the heap is well-formed, and its
-- chunks in use are those that the client holds.
pub Reach-IsHeap :
    (heap_start : ℕ)
    → IsPlaced heap_start
    → {h : Kheap} {held : List Allocation} → Reach heap_start h held
    → (cs : List Chunk) × IsHeap heap_start h cs × Matches heap_start held cs
Reach-IsHeap heap_start placed (boot h bytes) =
    ([], (kheap_init-IsHeap heap_start placed h bytes).0, tt)
Reach-IsHeap heap_start placed (served {h} size r pos small got) =
    let before = Reach-IsHeap heap_start placed r in
    let new = kmalloc-IsHeap heap_start placed size h before.0 before.1 pos small got in
    (new.0 ∷ before.0, new.3, (new.2, sym new.1, before.2))
Reach-IsHeap heap_start placed (refused {h} size r pos small none_left) =
    let before = Reach-IsHeap heap_start placed r in
    let same = kmalloc-null heap_start placed size h before.0 before.1 pos small none_left in
    (before.0, rw same before.1, before.2)
Reach-IsHeap heap_start placed (freed {h} xs a ys r) =
    let before = Reach-IsHeap heap_start placed r in
    let s = Matches-Split heap_start xs a ys before.0 before.2 in
    let v = rw s.splits at before.1 in
    let after = kfree-IsHeap heap_start placed s.before s.chunk s.behind h v in
    (
      s.before ++ s.behind,
      rw s.address after.0,
      Matches-append heap_start xs ys s.before s.behind s.same_before s.same_behind,
    )
Reach-IsHeap heap_start placed (written {h} xs a ys m r same) =
    let before = Reach-IsHeap heap_start placed r in
    let s = Matches-Split heap_start xs a ys before.0 before.2 in
    let v = rw s.splits at before.1 in
    let chunk = (All-middle (IsChunk heap_start h.memory) s.before s.chunk s.behind v.chunks).0 in
    let after =
      payload-IsHeap heap_start placed s.before s.chunk s.behind h m v
        (λ x far. same x (omega (arith, far, s.address, s.size, chunk.fits))) in
    (
      s.before ++ (s.chunk ∷ s.behind),
      after.0,
      Matches-append heap_start xs (a ∷ ys) s.before (s.chunk ∷ s.behind) s.same_before
          (s.address, s.size, s.same_behind),
    )
Reach-IsHeap heap_start placed (resized {h} xs a ys size r pos small got) =
    let before = Reach-IsHeap heap_start placed r in
    let s = Matches-Split heap_start xs a ys before.0 before.2 in
    let v = rw s.splits at before.1 in
    let call = ap (λ (p : ℕ). krealloc heap_start p size h) s.address in
    let new =
      krealloc-moved heap_start placed s.before s.chunk s.behind h size v pos small
        (λ e. got (ap (λ (q : ℕ × Kheap). q.0) call ∙ e)) in
    (
      new.0 ∷ (s.before ++ s.behind),
      subst (λ q. IsHeap heap_start q.1 (new.0 ∷ (s.before ++ s.behind))) (sym call) new.3,
      (
        ap (λ (q : ℕ × Kheap). q.0) call ∙ new.2,
        sym new.1,
        Matches-append heap_start xs ys s.before s.behind s.same_before s.same_behind,
      ),
    )
Reach-IsHeap heap_start placed (not_resized {h} xs a ys size r pos small none_left) =
    let before = Reach-IsHeap heap_start placed r in
    let s = Matches-Split heap_start xs a ys before.0 before.2 in
    let v = rw s.splits at before.1 in
    let call = ap (λ (p : ℕ). krealloc heap_start p size h) s.address in
    let same =
      krealloc-null heap_start placed s.before s.chunk s.behind h size v pos small
        (sym (ap (λ (q : ℕ × Kheap). q.0) call) ∙ none_left) in
    (before.0, subst (λ q. IsHeap heap_start q.1 before.0) (sym (call ∙ same)) before.1, before.2)
