-- ===== src/Kmain/Start/Tested.antt =====
-- The test of the heap gives its memory back.
use little_os.Base.{
  bytes, ℕ, zero, suc, ◌+◌, ◌<◌, ◌≡◌, ◌≢◌, refl, ◌∙◌, ap, true, false, Bool-cases, inl, inr, some,
  List, [], ◌∷◌, ◌==◌, arith, length, All, Memory, store8, store8_self, store8_ne, ◌⊎◌,
}
use little_os.Strings.Content.{IsString}
use little_os.Kheap.{Kheap, kheap_init, kmalloc, kfree}
use little_os.Kheap.Alloc.{IsPlaced}
use little_os.Kheap.Bitmap.{IsBytes}
use little_os.Kheap.Chunks.{Chunk, IsHeap}
use little_os.Kheap.Client.{
  Allocation, Reach, boot, served, refused, freed, written, Reach-IsHeap, Matches,
}
use little_os.Framebuffer.Palette
use little_os.Kmain.{
  Linked, Kernel, strlen_loop, bytes_from, print, print_string, colour, print_stats, copy_text,
}
use little_os.Framebuffer.Shown.{IsShown}
use little_os.Serial.{serial_write}
use little_os.Kmain.Console.{console_rules, colour-IsShown}
use little_os.Kheap.Stats.{kheap_print_stats_line}
use little_os.Kmain.Start.Sent.{Sends, Sends-trans}
use little_os.Kmain.Start.{use_test, test_heap}
use little_os.Kmain.Start.Texts.{test_str}

copy_text-outside :
    (cs : List ℕ) (a : ℕ) (m : Memory) (x : ℕ)
    → (x < a) ⊎ (a + length cs < x)
    → copy_text cs a m x ≡ m x
unfolding copy_text
copy_text-outside [] a m x far = store8_ne m a 0 x (omega (arith, far))
copy_text-outside (c ∷ cs) a m x far =
    copy_text-outside cs (a + 1) (store8 m a c) x (omega (arith, far))
    ∙ store8_ne m a c x (omega (arith, far))

copy_text-IsString :
    (cs : List ℕ) (a : ℕ) (m : Memory) → All (λ c. c ≢ 0) cs → IsString (copy_text cs a m) a cs
unfolding copy_text
copy_text-IsString [] a m h = store8_self m a 0
copy_text-IsString (c ∷ cs) a m h = (
  copy_text-outside cs (a + 1) (store8 m a c) a (inl (omega arith)) ∙ store8_self m a c,
  h.0,
  copy_text-IsString cs (a + 1) (store8 m a c) h.1,
)

strlen_loop_lem :
    (fuel : ℕ) (m : Memory) (str len : ℕ) (cs : List ℕ)
    → IsString m (str + len) cs
    → length cs < fuel
    → strlen_loop fuel m str len ≡ some (len + length cs)
unfolding strlen_loop
strlen_loop_lem zero m str len cs h enough = absurd (omega arith)
strlen_loop_lem (suc fuel) m str len [] h enough =
    let stop : (m (str + len) == 0) ≡ true = ground (arith, h) in
    rw (stop, strlen_loop) (ap some (omega arith))
strlen_loop_lem (suc fuel) m str len (c ∷ cs) h enough =
    let more : (m (str + len) == 0) ≡ false = ground (arith, h) in
    let place : str + len + 1 ≡ str + (len + 1) = omega arith in
    let tail = rw place at h.2 in
    rw (more, strlen_loop)
      (strlen_loop_lem fuel m str (len + 1) cs tail (omega arith) ∙ ap some (omega arith))

bytes_from-IsString :
    (m : Memory) (str : ℕ) (cs : List ℕ) → IsString m str cs → bytes_from m str (length cs) ≡ cs
unfolding bytes_from
bytes_from-IsString m str [] h = refl
bytes_from-IsString m str (c ∷ cs) h = rw (h.0, bytes_from-IsString m (str + 1) cs h.2) refl

-- `print` of a string.
pub print_string_lem :
    (fuel : ℕ) (m : Memory) (str : ℕ) (cs : List ℕ) (k : Kernel)
    → IsString m str cs
    → length cs < fuel
    → print_string fuel m str k ≡ some (print cs k)
unfolding print_string
print_string_lem fuel m str cs k h enough =
    let start : str + 0 ≡ str = omega arith in
    let none : 0 + length cs ≡ length cs = omega arith in
    let len = strlen_loop_lem fuel m str 0 cs (rw start h) enough ∙ ap some none in
    rw (print_string, len, bytes_from-IsString m str cs h) refl

-- What the test leaves as it is.
pub record Same (k k' : Kernel) : Type 0 where
  pub handlers : k'.handlers ≡ k.handlers
  pub segments : k'.segments ≡ k.segments
  pub idt : k'.idt ≡ k.idt
  pub idtr : k'.idtr ≡ k.idtr
  pub keyboard : k'.keyboard ≡ k.keyboard
  pub paging : k'.paging ≡ k.paging
  pub user : k'.user ≡ k.user
  pub shown : IsShown k.screen → IsShown k'.screen
  pub sends : Sends k.line k'.line

test_str-nonzero : All (λ c. c ≢ 0) test_str
test_str-nonzero = omega arith

no_chunks : (heap_start : ℕ) (cs : List Chunk) → Matches heap_start [] cs → cs ≡ []
no_chunks heap_start [] h = refl
no_chunks heap_start (c ∷ cs) h = absurd h

module _ (at : Linked) (k : Kernel) where
  use_test_lem :
      (test_alloc : ℕ)
      → (k' : Kernel) × (use_test at test_alloc k ≡ some k')
        × (k'.heap
            ≡ kfree at.heap_start test_alloc
                (record k.heap { memory = copy_text test_str test_alloc k.heap.memory }))
        × Same k k'
  unfolding use_test print print_stats
  use_test_lem test_alloc =
      let m : Memory = copy_text test_str test_alloc k.heap.memory in
      let string = copy_text-IsString test_str test_alloc k.heap.memory test_str-nonzero in
      let filled : Kernel =
        print (bytes "  -> ") (record k { heap = record k.heap { memory = m } }) in
      let printed = print_string_lem 27 m test_alloc test_str filled string (omega arith) in
      let stats : Kernel = print_stats (print test_str filled) in
      let freed : Kernel = record stats { heap = kfree at.heap_start test_alloc stats.heap } in
      (
        print_stats (print (bytes "  -> Freed test block. ") freed),
        rw (use_test, printed) refl,
        refl,
        record {
          handlers = refl;
          segments = refl;
          idt = refl;
          idtr = refl;
          keyboard = refl;
          paging = refl;
          user = refl;
          shown = λ v. search (console_rules) depth 12;
          sends =
              Sends-trans k.line stats.line _ (kheap_print_stats_line filled.heap (_, k.line))
                (kheap_print_stats_line freed.heap (_, stats.line));
        },
      )

module _ (at : Linked) (placed : IsPlaced at.heap_start) (k : Kernel) (h : Kheap)
    (bytes_in : IsBytes h.bitmap) (started : k.heap ≡ kheap_init at.heap_start h) where
  given : Reach at.heap_start k.heap []
  given = rw started (boot h bytes_in)

  emptied : {h' : Kheap} → Reach at.heap_start h' [] → IsHeap at.heap_start h' []
  emptied r =
      let state = Reach-IsHeap at.heap_start placed r in
      rw (no_chunks at.heap_start state.0 state.2) at state.1

  -- The heap after the test, whether `kmalloc` serves it or not.
  pub test_heap_lem :
      (k' : Kernel) × (test_heap at k ≡ some k') × IsHeap at.heap_start k'.heap [] × Same k k'
  unfolding test_heap colour serial_write
  test_heap_lem = elim (Bool-cases ((kmalloc at.heap_start 128 k.heap).0 == 0)) [
    | inl none_left ↦ (
      record (colour Palette.light_brown k) { heap = (kmalloc at.heap_start 128 k.heap).1 },
      rw (test_heap, none_left) refl,
      emptied (refused 128 given (omega arith) (omega arith) (ground (arith, none_left))),
      record {
        handlers = refl;
        segments = refl;
        idt = refl;
        idtr = refl;
        keyboard = refl;
        paging = refl;
        user = refl;
        shown = λ v. search console_rules;
        sends = ([], refl);
      },
    )
    | inr got ↦
        let p : ℕ = (kmalloc at.heap_start 128 k.heap).0 in
        let k1 : Kernel = record (colour Palette.light_brown k) {
          heap = (kmalloc at.heap_start 128 k.heap).1;
        } in
        let run = use_test_lem at k1 p in
        let chunk : Allocation = record { address = p; size = 128 } in
        let there = served 128 given (omega arith) (omega arith) (ground (arith, got)) in
        let filled =
          written [] chunk [] (copy_text test_str p k1.heap.memory) there
            (λ x far. copy_text-outside test_str p k1.heap.memory x (omega (arith, far))) in
        let back = emptied (freed [] chunk [] filled) in
        (
          run.0,
          rw (test_heap, got) run.1,
          rw run.2 back,
          record {
            handlers = run.3.handlers;
            segments = run.3.segments;
            idt = run.3.idt;
            idtr = run.3.idtr;
            keyboard = run.3.keyboard;
            paging = run.3.paging;
            user = run.3.user;
            shown = λ v. run.3.shown (colour-IsShown Palette.light_brown k v);
            sends = run.3.sends;
          },
        )
  ]
