-- ===== src/Kheap/Session.antt =====
-- A client that asks for 100 bytes and for 40 bytes, and the report on a new heap.
use little_os.Base.{ℕ, ◌+◌, ◌≡◌, ◌≢◌, refl, true, List, [], ◌∷◌, All, arith, store8}
use little_os.Kheap.{
  Kheap, null, kheap_init, kmalloc, blocks_for, scan, bitmap_test, memset, memset_loop, allocate_at,
  block_address, set_blocks, bitmap_set,
}
use little_os.Kheap.Alloc.{IsPlaced}
use little_os.Kheap.Chunks.{Chunk, IsHeap}
use little_os.Framebuffer.Sample.{dark}
use little_os.Kheap.Init.{kheap_init-IsHeap}
use little_os.Kheap.Stats.{kheap_print_stats, to_both, report, read_digits, kheap_print_stats_lem}
use little_os.Kheap.Client.{Allocation, Reach, boot, served, Matches, Reach-IsHeap}
use little_os.Kheap.Safety.{IsInPool, AreApart, Reach-AreApart}

abbrev pool : ℕ
pool = 0xC0120000

pool-IsPlaced : IsPlaced pool
pool-IsPlaced = omega arith

abbrev loaded : Kheap
loaded = record { memory = λ a. 0; bitmap = λ i. 0; initialized = true }

started : Reach pool (kheap_init pool loaded) []
started = boot loaded (λ i. omega arith)

first_served : (kmalloc pool 100 (kheap_init pool loaded)).0 ≡ pool + 16
unfolding kmalloc kheap_init blocks_for scan bitmap_test memset memset_loop allocate_at
    block_address store8
first_served = refl

abbrev first : Kheap
first = (kmalloc pool 100 (kheap_init pool loaded)).1

second_served : (kmalloc pool 40 first).0 ≡ pool + 144
unfolding kmalloc kheap_init blocks_for scan bitmap_test memset memset_loop allocate_at
    block_address store8 set_blocks bitmap_set
second_served = refl

served_address : {a : ℕ} (n : ℕ) → a ≡ pool + n → a ≢ null
served_address n e = ground (arith, e)

abbrev held : List Allocation
held =
    record { address = (kmalloc pool 40 first).0; size = 40 }
    ∷ record { address = (kmalloc pool 100 (kheap_init pool loaded)).0; size = 100 }
    ∷ []

served_two : Reach pool (kmalloc pool 40 first).1 held
served_two =
    served 40 (served 100 started (omega arith) (omega arith) (served_address 16 first_served))
      (omega arith) (omega arith) (served_address 144 second_served)

abbrev empty : Kheap
empty = kheap_init pool loaded

empty-IsHeap : IsHeap pool empty []
empty-IsHeap = (kheap_init-IsHeap pool pool-IsPlaced loaded (λ i. omega arith)).0

Reach-IsHeap_example :
    (cs : List Chunk) × IsHeap pool (kmalloc pool 40 first).1 cs × Matches pool held cs
Reach-IsHeap_example = Reach-IsHeap pool pool-IsPlaced served_two

Reach-AreApart_example : All (IsInPool pool) held × AreApart held
Reach-AreApart_example = Reach-AreApart pool pool-IsPlaced served_two

-- The pool without chunks in use.
kheap_print_stats_lem_example :
    (total : List ℕ) × (used : List ℕ) × (free : List ℕ) × (kheap_print_stats empty (dark, [])
      ≡ to_both (report total used free) (dark, []))
    × (read_digits 0 total ≡ 256)
    × (read_digits 0 used ≡ 0)
    × (read_digits 0 free ≡ 256)
kheap_print_stats_lem_example = kheap_print_stats_lem pool empty [] (dark, []) empty-IsHeap
