-- ===== src/Kheap/Chunks.antt =====
-- The abstract view of the heap: the chunks that are in use, which share no block.
use little_os.Base.{
  ℕ, ◌+◌, ◌*◌, ◌/◌, ◌≤◌, ◌<◌, ◌≡◌, Bool, true, false, ◌||◌, List, [], ◌∷◌, ◌++◌, All, arith, Memory,
  ◌∙◌, refl,
}
use little_os.Kheap.{
  Kheap, total_blocks, block_size, header_size, heap_magic, bitmap_test, read_header,
}
use little_os.Kheap.Bitmap.{IsBytes, in_range}
use little_os.Kheap.Headers.{read_header_same}

-- A chunk in use: `count` blocks from `start` on, asked for with `size` bytes.
pub record Chunk : Type 0 where
  pub start : ℕ
  pub count : ℕ
  pub size : ℕ

abbrev pub in_chunk : Chunk → ℕ → Bool
in_chunk c i = in_range c.start c.count i

abbrev pub owns : List Chunk → ℕ → Bool
owns [] i = false
owns (c ∷ cs) i = in_chunk c i || owns cs i

-- No block of `c` belongs to `cs`.
abbrev pub Apart : Chunk → List Chunk → Type 0
Apart c cs = (i : ℕ) → in_chunk c i ≡ true → owns cs i ≡ false

abbrev pub AreDisjoint : List Chunk → Type 0
AreDisjoint [] = Unit
AreDisjoint (c ∷ cs) = Apart c cs × AreDisjoint cs

module _ (heap_start : ℕ) where
  abbrev pub header_of : Chunk → ℕ
  header_of c = heap_start + c.start * block_size

  -- The pointer that the client of the chunk holds.
  abbrev pub payload_of : Chunk → ℕ
  payload_of c = header_of c + header_size

  -- The chunk lies in the pool, holds its bytes, and has its header in memory.
  pub record IsChunk (m : Memory) (c : Chunk) : Type 0 where
    pub within : c.start + c.count ≤ total_blocks
    pub fits : c.size + header_size ≤ c.count * block_size
    pub header :
        read_header m (header_of c)
        ≡ record { magic = heap_magic; start_block = c.start; num_blocks = c.count; size = c.size }

  -- The heap is initialised, its bitmap marks the blocks of `cs` and no other, and the chunks of
  -- `cs` are disjoint and have their headers.
  pub record IsHeap (h : Kheap) (cs : List Chunk) : Type 0 where
    pub ready : h.initialized ≡ true
    pub bytes : IsBytes h.bitmap
    pub tracked : (i : ℕ) → i < total_blocks → bitmap_test h.bitmap i ≡ owns cs i
    pub chunks : All (IsChunk h.memory) cs
    pub disjoint : AreDisjoint cs

  pub IsChunk-same :
      {m m' : Memory} {c : Chunk}
      → IsChunk m c
      → ((x : ℕ) → header_of c ≤ x → x < header_of c + 16 → m' x ≡ m x)
      → IsChunk m' c
  IsChunk-same {m} {m'} {c} v same = record {
    within = v.within;
    fits = v.fits;
    header = read_header_same m m' (header_of c) same ∙ v.header;
  }

  -- `m'` has the bytes of `m` in every block of `cs`.
  abbrev pub Keeps : List Chunk → (m m' : Memory) → Type 0
  Keeps cs m m' =
      (b x : ℕ)
      → owns cs b ≡ true
      → heap_start + b * block_size ≤ x
      → x < heap_start + b * block_size + block_size
      → m' x ≡ m x

  -- Memory that is the same in every block of `cs` keeps the headers of `cs`.
  pub All-IsChunk-same :
      {m m' : Memory} (cs : List Chunk) → All (IsChunk m) cs → Keeps cs m m' → All (IsChunk m') cs
  All-IsChunk-same [] v same = tt
  All-IsChunk-same (c ∷ cs) v same = (
    IsChunk-same (v.0)
        (λ x p q. same c.start x (ground (arith, v.0.fits)) (omega arith) (omega arith)),
    All-IsChunk-same cs v.1 (λ b x o p q. same b x (ground arith) p q),
  )

  -- The contents of a chunk of `cs` are kept with its blocks.
  pub Keeps-contents :
      (cs : List Chunk) {m m' : Memory} (c : Chunk)
      → Keeps cs m m'
      → c.size + header_size ≤ c.count * block_size
      → ((i : ℕ) → in_chunk c i ≡ true → owns cs i ≡ true)
      → (j : ℕ) → j < c.size
      → m' (payload_of c + j) ≡ m (payload_of c + j)
  Keeps-contents cs c kept fits member j lt =
      let b : ℕ = c.start + (header_size + j) / 32 in
      kept b (payload_of c + j) (member b (ground arith)) (omega arith) (omega arith)

-- Taking one chunk out of the list.
pub owns_middle :
    (xs : List Chunk) (c : Chunk) (ys : List Chunk) (i : ℕ)
    → owns (xs ++ (c ∷ ys)) i ≡ (in_chunk c i || owns (xs ++ ys) i)
owns_middle [] c ys i = refl
owns_middle (x ∷ xs) c ys i = ground (arith, owns_middle xs c ys i)

pub Disjoint_middle :
    (xs : List Chunk) (c : Chunk) (ys : List Chunk)
    → AreDisjoint (xs ++ (c ∷ ys))
    → Apart c (xs ++ ys) × AreDisjoint (xs ++ ys)
Disjoint_middle [] c ys d = d
Disjoint_middle (x ∷ xs) c ys d =
    let rest = Disjoint_middle xs c ys d.1 in
    (
      λ i e. ground (arith, owns_middle xs c ys i, rest.0 i, d.0 i),
      ((λ i e. ground (arith, owns_middle xs c ys i, d.0 i)), rest.1),
    )

pub All-middle {ℓ} :
    (P : Chunk → Type ℓ) (xs : List Chunk) (c : Chunk) (ys : List Chunk)
    → All P (xs ++ (c ∷ ys))
    → P c × All P (xs ++ ys)
All-middle P [] c ys v = v
All-middle P (x ∷ xs) c ys v = let rest = All-middle P xs c ys v.1 in (rest.0, (v.0, rest.1))

pub All-insert {ℓ} :
    (P : Chunk → Type ℓ) (xs : List Chunk) (c : Chunk) (ys : List Chunk)
    → P c
    → All P (xs ++ ys)
    → All P (xs ++ (c ∷ ys))
All-insert P [] c ys p v = (p, v)
All-insert P (x ∷ xs) c ys p v = (v.0, All-insert P xs c ys p v.1)

-- Giving a chunk another size.
pub Disjoint_resize :
    (xs : List Chunk) (c : Chunk) (n : ℕ) (ys : List Chunk)
    → AreDisjoint (xs ++ (c ∷ ys))
    → AreDisjoint (xs ++ (record c { size = n } ∷ ys))
Disjoint_resize [] c n ys d = d
Disjoint_resize (x ∷ xs) c n ys d = (
  λ i e. ground (arith, owns_middle xs (record c { size = n }) ys i, owns_middle xs c ys i, d.0 i),
  Disjoint_resize xs c n ys d.1,
)
