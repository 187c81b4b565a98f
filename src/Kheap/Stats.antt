-- ===== src/Kheap/Stats.antt =====
-- `kheap_print_stats`: the statistics of the heap on the console and on COM1.
use little_os.Base.{
  arith, ◌*◌, ◌<◌, ◌≡◌, ◌-◌, refl, ap, ◌∙◌, ℕ, ◌+◌, ◌/◌, ◌%◌, List, [], ◌∷◌, ◌++◌, bytes, u8,
}
use little_os.Framebuffer.{Framebuffer, fb_write}
use little_os.Framebuffer.Loops.{fb_write-append}
use little_os.Framebuffer.Shown.{IsShown, fb_write-IsShown}
use little_os.Serial.{serial_write}
use little_os.Serial.Rate.{serial_write-append}
use little_os.Kheap.Chunks.{Chunk, IsHeap}
use little_os.Kheap.Usage.{blocks_of, get_used_memory_lem}
use little_os.Kheap.{
  block_size, heap_size, Kheap, get_total_memory, get_used_memory, get_free_memory,
}

-- The digits of a count, as they stand in `buf`.
pub three_digits : ℕ → List ℕ
three_digits kb = u8 (b'0' + kb / 100) ∷ u8 (b'0' + kb / 10 % 10) ∷ u8 (b'0' + kb % 10) ∷ []

-- The same bytes for the console and for COM1.
pub to_both : List ℕ → Framebuffer × List ℕ → Framebuffer × List ℕ
to_both text (screen, line) = (fb_write text screen, serial_write text line)

pub kheap_print_stats : Kheap → Framebuffer × List ℕ → Framebuffer × List ℕ
kheap_print_stats h out =
    let header = to_both (bytes "[ KHEAP ] Total: ") out in
    let total = to_both (three_digits (get_total_memory / 1024) ++ bytes " KB, Used: ") header in
    let used = to_both (three_digits (get_used_memory h / 1024) ++ bytes " KB, Free: ") total in
    to_both (three_digits (get_free_memory h / 1024) ++ bytes " KB\n") used

-- The number that digits spell behind `n`.
unfoldable pub read_digits : (n : ℕ) → List ℕ → ℕ
read_digits n [] = n
read_digits n (c ∷ cs) = read_digits (n * 10 + (c - b'0')) cs

three_digits_lem : (kb : ℕ) → kb < 1000 → read_digits 0 (three_digits kb) ≡ kb
unfolding read_digits three_digits
three_digits_lem kb small = omega arith

-- The report, with the digits of the three counts.
abbrev pub report : (total used free : List ℕ) → List ℕ
report total used free =
    bytes "[ KHEAP ] Total: "
    ++ ((total ++ bytes " KB, Used: ")
        ++ ((used ++ bytes " KB, Free: ") ++ (free ++ bytes " KB\n")))

to_both-append :
    (cs ds : List ℕ) (out : Framebuffer × List ℕ)
    → to_both ds (to_both cs out) ≡ to_both (cs ++ ds) out
unfolding to_both
to_both-append cs ds (screen, line) =
    rw (fb_write-append cs ds screen, serial_write-append cs ds line) refl

-- Four texts in one.
in_one :
    (first bs cs ds : List ℕ) (out : Framebuffer × List ℕ)
    → to_both ds (to_both cs (to_both bs (to_both first out)))
      ≡ to_both (first ++ (bs ++ (cs ++ ds))) out
in_one first bs cs ds out =
    to_both-append cs ds (to_both bs (to_both first out))
    ∙ to_both-append bs (cs ++ ds) (to_both first out)
    ∙ to_both-append first (bs ++ (cs ++ ds)) out

-- On a well-formed heap, `kheap_print_stats` writes one report to the console and to COM1, and its
-- three numbers are read back as the whole kilobytes of the pool, of the chunks in use and of the rest.
pub kheap_print_stats_lem :
    (heap_start : ℕ) (h : Kheap) (cs : List Chunk) (out : Framebuffer × List ℕ)
    → IsHeap heap_start h cs
    → (total : List ℕ) × (used : List ℕ) × (free : List ℕ) × (kheap_print_stats h out
        ≡ to_both (report total used free) out)
      × (read_digits 0 total ≡ 256)
      × (read_digits 0 used ≡ blocks_of cs * block_size / 1024)
      × (read_digits 0 free ≡ (heap_size - blocks_of cs * block_size) / 1024)
unfolding kheap_print_stats get_total_memory
kheap_print_stats_lem heap_start h cs out v =
    let counts = get_used_memory_lem heap_start h cs v in
    let used_small : get_used_memory h / 1024 < 1000 = omega (arith, counts.1) in
    let free_small : get_free_memory h / 1024 < 1000 = omega (arith, counts.1) in
    let total : List ℕ = three_digits 256 in
    let used : List ℕ = three_digits (get_used_memory h / 1024) in
    let free : List ℕ = three_digits (get_free_memory h / 1024) in
    (
      total,
      used,
      free,
      in_one (bytes "[ KHEAP ] Total: ") (total ++ bytes " KB, Used: ")
          (used ++ bytes " KB, Free: ") (free ++ bytes " KB\n") out,
      three_digits_lem 256 (omega arith),
      three_digits_lem _ used_small ∙ ap (λ (n : ℕ). n / 1024) counts.0,
      three_digits_lem _ free_small ∙ omega (arith, counts.0, counts.1),
    )

pub to_both-IsShown :
    (text : List ℕ) (out : Framebuffer × List ℕ) → IsShown out.0 → IsShown (to_both text out).0
unfolding to_both
to_both-IsShown text (screen, line) v = fb_write-IsShown text screen v

-- The report leaves a console that shows a screen.
pub kheap_print_stats-IsShown :
    (h : Kheap) (out : Framebuffer × List ℕ) → IsShown out.0 → IsShown (kheap_print_stats h out).0
unfolding kheap_print_stats
kheap_print_stats-IsShown h out v =
    to_both-IsShown _ _ (to_both-IsShown _ _ (to_both-IsShown _ _ (to_both-IsShown _ out v)))

-- The report goes to COM1 behind what was sent before.
pub kheap_print_stats_line :
    (h : Kheap) (out : Framebuffer × List ℕ)
    → (text : List ℕ) × ((kheap_print_stats h out).1 ≡ serial_write text out.1)
unfolding kheap_print_stats to_both
kheap_print_stats_line h out =
    let total : List ℕ = three_digits (get_total_memory / 1024) in
    let used : List ℕ = three_digits (get_used_memory h / 1024) in
    let free : List ℕ = three_digits (get_free_memory h / 1024) in
    (
      report total used free,
      ap (λ (o : Framebuffer × List ℕ). o.1)
          (in_one (bytes "[ KHEAP ] Total: ") (total ++ bytes " KB, Used: ")
            (used ++ bytes " KB, Free: ") (free ++ bytes " KB\n") out),
    )
