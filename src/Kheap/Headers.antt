-- ===== src/Kheap/Headers.antt =====
-- `kheap_header_t` in memory: what is written is read back, and other headers stay.
use little_os.Base.{
  ℕ, ◌+◌, ◌^◌, ◌≤◌, ◌<◌, ◌≡◌, ◌⊎◌, arith, Memory, store32, store32_outside, load32-store32_self,
  load32-store32_outside, load32_same,
}
use little_os.Kheap.{Header, read_header, write_header}

-- Every field of the header fits its word.
pub record IsHeader (e : Header) : Type 0 where
  pub magic_fits : e.magic < 2 ^ 32
  pub start_fits : e.start_block < 2 ^ 32
  pub num_fits : e.num_blocks < 2 ^ 32
  pub size_fits : e.size < 2 ^ 32

module _ (m : Memory) (a : ℕ) (e : Header) where
  pub read_header-write_header : IsHeader e → read_header (write_header m a e) a ≡ e
  unfolding read_header write_header
  read_header-write_header v = ground (
    arith,
    load32-store32_self m a e.magic,
    load32-store32_self m1 (a + 4) e.start_block,
    load32-store32_self m2 (a + 8) e.num_blocks,
    load32-store32_self m3 (a + 12) e.size,
    load32-store32_outside m1 (a + 4) e.start_block a,
    load32-store32_outside m2 (a + 8) e.num_blocks a,
    load32-store32_outside m2 (a + 8) e.num_blocks (a + 4),
    load32-store32_outside m3 (a + 12) e.size a,
    load32-store32_outside m3 (a + 12) e.size (a + 4),
    load32-store32_outside m3 (a + 12) e.size (a + 8),
  )
    where
      m1 : Memory
      m1 = store32 m a e.magic

      m2 : Memory
      m2 = store32 m1 (a + 4) e.start_block

      m3 : Memory
      m3 = store32 m2 (a + 8) e.num_blocks

  pub write_header_outside : (x : ℕ) → (x < a) ⊎ (a + 16 ≤ x) → write_header m a e x ≡ m x
  unfolding write_header
  write_header_outside x h = ground (
    arith,
    store32_outside m a e.magic x,
    store32_outside (store32 m a e.magic) (a + 4) e.start_block x,
    store32_outside (store32 (store32 m a e.magic) (a + 4) e.start_block) (a + 8) e.num_blocks x,
    store32_outside
        (store32 (store32 (store32 m a e.magic) (a + 4) e.start_block) (a + 8) e.num_blocks)
        (a + 12) e.size x,
  )

-- A header is determined by its sixteen bytes.
pub read_header_same :
    (m m' : Memory) (a : ℕ)
    → ((x : ℕ) → a ≤ x → x < a + 16 → m' x ≡ m x)
    → read_header m' a ≡ read_header m a
unfolding read_header
read_header_same m m' a h = ground (
  arith,
  load32_same m m' a (λ x p q. h x (omega arith) (omega arith)),
  load32_same m m' (a + 4) (λ x p q. h x (omega arith) (omega arith)),
  load32_same m m' (a + 8) (λ x p q. h x (omega arith) (omega arith)),
  load32_same m m' (a + 12) (λ x p q. h x (omega arith) (omega arith)),
)

-- The store of `header->size = n`.
pub read_header-store_size :
    (m : Memory) (a n : ℕ)
    → n < 2 ^ 32
    → read_header (store32 m (a + 12) n) a ≡ record {
      magic = (read_header m a).magic;
      start_block = (read_header m a).start_block;
      num_blocks = (read_header m a).num_blocks;
      size = n;
    }
unfolding read_header
read_header-store_size m a n fits = ground (
  arith,
  load32-store32_self m (a + 12) n,
  load32-store32_outside m (a + 12) n a,
  load32-store32_outside m (a + 12) n (a + 4),
  load32-store32_outside m (a + 12) n (a + 8),
)
