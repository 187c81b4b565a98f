-- ===== src/Kheap.antt =====
-- kernel/kheap.c with include/kernel/kheap.h: the bitmap heap of the kernel.
-- The state is the byte memory, the tracking bitmap (a byte for each index) and the flag
-- `kheap_initialized`. A pointer is an address below 2 ^ 32, and 0 is NULL. The address at which
-- the linker puts `kheap_memory` is the parameter `heap_start`. A function that changes the heap
-- returns its result and the new state.
pub mod Bitmap
pub mod Scan
pub mod Headers
pub mod Alloc
pub mod Chunks
pub mod Live
pub mod Fill
pub mod Init
pub mod Realloc
pub mod Usage
pub mod Client
pub mod Safety
pub mod Stats
mod Examples
mod Session
use little_os.Base.{
  ℕ, zero, suc, ◌+◌, ◌-◌, ◌*◌, ◌/◌, ◌%◌, ◌^◌, bit_and, bit_or, Bool, true, false, not, ◌&&◌, ◌||◌,
  Option, none, some, ltb, leb, ◌==◌, if◌then◌else◌, u8, u32, sub32, Memory, store8, load32,
  store32,
}

abbrev pub block_size : ℕ
block_size = 32

abbrev pub heap_size : ℕ
heap_size = 256 * 1024

abbrev pub total_blocks : ℕ
total_blocks = heap_size / block_size

abbrev pub bitmap_size : ℕ
bitmap_size = total_blocks / 8

abbrev pub heap_magic : ℕ
heap_magic = 0x1EA9BEEF

-- `sizeof(kheap_header_t)`
abbrev pub header_size : ℕ
header_size = 16

abbrev pub null : ℕ
null = 0

abbrev pub Bitmap : Type 0
Bitmap = ℕ → ℕ

pub record Kheap : Type 0 where
  pub memory : Memory
  pub bitmap : Bitmap
  pub initialized : Bool

-- `kheap_header_t`, as it is read from memory.
pub record Header : Type 0 where
  pub magic : ℕ
  pub start_block : ℕ
  pub num_blocks : ℕ
  pub size : ℕ

pub read_header : Memory → ℕ → Header
read_header m a = record {
  magic = load32 m a;
  start_block = load32 m (a + 4);
  num_blocks = load32 m (a + 8);
  size = load32 m (a + 12);
}

pub write_header : Memory → ℕ → Header → Memory
write_header m a e =
    store32 (store32 (store32 (store32 m a e.magic) (a + 4) e.start_block) (a + 8) e.num_blocks)
      (a + 12) e.size

-- The loop of `kheap_memset` with `left` rounds to go, at index `i`.
pub memset_loop : ℕ → ℕ → (dest val : ℕ) → Memory → Memory
memset_loop zero i dest val m = m
memset_loop (suc left) i dest val m =
    memset_loop left (i + 1) dest val (store8 m (u32 (dest + i)) (u8 val))

pub memset : Memory → (dest val count : ℕ) → Memory
memset m dest val count = memset_loop count 0 dest val m

-- The loop of `kheap_memcpy`.
pub memcpy_loop : ℕ → ℕ → (dest src : ℕ) → Memory → Memory
memcpy_loop zero i dest src m = m
memcpy_loop (suc left) i dest src m =
    memcpy_loop left (i + 1) dest src (store8 m (u32 (dest + i)) (m (u32 (src + i))))

pub memcpy : Memory → (dest src count : ℕ) → Memory
memcpy m dest src count = memcpy_loop count 0 dest src m

pub bitmap_set : Bitmap → ℕ → Bitmap
bitmap_set bm b = store8 bm (b / 8) (u8 (bit_or (bm (b / 8)) (u8 (2 ^ (b % 8)))))

-- `(uint8_t)~(1 << k)` is `255 - 2 ^ k`.
pub bitmap_clear : Bitmap → ℕ → Bitmap
bitmap_clear bm b = store8 bm (b / 8) (u8 (bit_and (bm (b / 8)) (255 - 2 ^ (b % 8))))

pub bitmap_test : Bitmap → ℕ → Bool
bitmap_test bm b = not (bit_and (bm (b / 8)) (2 ^ (b % 8)) == 0)

-- `for (b = start; b < start + n; b++) bitmap_set(b)`
pub set_blocks : ℕ → ℕ → Bitmap → Bitmap
set_blocks zero b bm = bm
set_blocks (suc left) b bm = set_blocks left (b + 1) (bitmap_set bm b)

-- The same loop over `bitmap_clear`, which skips a block outside of the heap.
pub clear_blocks : ℕ → ℕ → Bitmap → Bitmap
clear_blocks zero b bm = bm
clear_blocks (suc left) b bm =
    clear_blocks left (b + 1) (if ltb b total_blocks then bitmap_clear bm b else bm)

-- `kheap_init`. The bitmap is an array of its own, so its `memset` starts at index 0.
pub kheap_init : (heap_start : ℕ) → Kheap → Kheap
kheap_init heap_start h = record {
  memory = memset h.memory heap_start 0 heap_size;
  bitmap = memset h.bitmap 0 0 bitmap_size;
  initialized = true;
}

-- The scan of `kmalloc` at block `i`, with `left` blocks to go: `free` is `consecutive_free`, and
-- `some s` is the `start_block` at which the loop body allocates.
pub scan : Bitmap → (need left i free start : ℕ) → Option ℕ
scan bm need zero i free start = none
scan bm need (suc left) i free start =
    let s = if free == 0 then i else start in
    elim (bitmap_test bm i) [
      | true ↦ scan bm need left (i + 1) 0 start
      | false ↦ elim (free + 1 == need) [
        | true ↦ some s
        | false ↦ scan bm need left (i + 1) (free + 1) s
      ]
    ]

-- `total_needed` and `blocks_needed` of `kmalloc`, with the wrap of `size_t`.
pub blocks_for : ℕ → ℕ
blocks_for size = u32 (u32 (header_size + size) + block_size - 1) / block_size

-- `current_capacity` of `krealloc`.
pub capacity : Header → ℕ
capacity e = sub32 (u32 (e.num_blocks * block_size)) header_size

module _ (heap_start : ℕ) where
  -- `&kheap_memory[b * KHEAP_BLOCK_SIZE]`
  pub block_address : ℕ → ℕ
  block_address b = u32 (heap_start + b * block_size)

  -- What `kmalloc` does once the scan has found `start` for `need` blocks.
  pub allocate_at : (start need size : ℕ) → Kheap → ℕ × Kheap
  allocate_at start need size h =
      let header = block_address start in
      (
        u32 (header + header_size),
        record h {
          memory =
              write_header h.memory header (record {
                magic = heap_magic;
                start_block = start;
                num_blocks = need;
                size = size;
              });
          bitmap = set_blocks (u32 (start + need) - start) start h.bitmap;
        },
      )

  pub kmalloc : ℕ → Kheap → ℕ × Kheap
  kmalloc size h =
      if not h.initialized || size == 0
      then (null, h)
      else if ltb total_blocks (blocks_for size)
      then (null, h)
      else elim (scan h.bitmap (blocks_for size) total_blocks 0 0 0) [
        | none ↦ (null, h)
        | some start ↦ allocate_at start (blocks_for size) size h
      ]

  pub kcalloc : (num size : ℕ) → Kheap → ℕ × Kheap
  kcalloc num size h =
      let total_size = u32 (num * size) in
      let (ptr, h') = kmalloc total_size h in
      if ptr == null
      then (ptr, h')
      else (ptr, record h' { memory = memset h'.memory ptr 0 total_size })

  -- The body of `kfree` behind its checks: the blocks of the header, then its signature.
  pub release : (header : ℕ) → Kheap → Kheap
  release header h =
      let e = read_header h.memory header in
      record h {
        memory = store32 h.memory header 0;
        bitmap =
            clear_blocks (u32 (e.start_block + e.num_blocks) - e.start_block) e.start_block
              h.bitmap;
      }

  pub kfree : ℕ → Kheap → Kheap
  kfree ptr h =
      if ptr == null || not h.initialized
      then h
      else if ltb ptr (u32 (heap_start + header_size)) || leb (u32 (heap_start + heap_size)) ptr
      then h
      else if not (load32 h.memory (sub32 ptr header_size) == heap_magic)
      then h
      else release (sub32 ptr header_size) h

  -- The end of `krealloc`: a new chunk, the old contents, and the old chunk freed. The header of
  -- the old chunk is read after the allocation.
  pub grow : (ptr new_size : ℕ) → Kheap → ℕ × Kheap
  grow ptr new_size h =
      let (new_ptr, h') = kmalloc new_size h in
      let old_size = (read_header h'.memory (sub32 ptr header_size)).size in
      let copy_bytes = if ltb old_size new_size then old_size else new_size in
      if new_ptr == null
      then (null, h')
      else (new_ptr, kfree ptr (record h' { memory = memcpy h'.memory new_ptr ptr copy_bytes }))

  pub krealloc : (ptr new_size : ℕ) → Kheap → ℕ × Kheap
  krealloc ptr new_size h =
      if ptr == null
      then kmalloc new_size h
      else if new_size == 0
      then (null, kfree ptr h)
      else if not (load32 h.memory (sub32 ptr header_size) == heap_magic)
      then (null, h)
      else if leb new_size (capacity (read_header h.memory (sub32 ptr header_size)))
      then (ptr, record h { memory = store32 h.memory (sub32 ptr header_size + 12) new_size })
      else grow ptr new_size h

-- The loop of `kheap_get_used_memory` at block `i`.
pub count_used : Bitmap → (left i used : ℕ) → ℕ
count_used bm zero i used = used
count_used bm (suc left) i used =
    count_used bm left (i + 1) (if bitmap_test bm i then used + 1 else used)

pub get_total_memory : ℕ
get_total_memory = heap_size

pub get_used_memory : Kheap → ℕ
get_used_memory h = u32 (count_used h.bitmap total_blocks 0 0 * block_size)

pub get_free_memory : Kheap → ℕ
get_free_memory h = sub32 get_total_memory (get_used_memory h)
