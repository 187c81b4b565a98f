-- ===== src/Kmain/Start/Boot.antt =====
-- What `kmain` leaves.
use little_os.Base.{
  ◌∷◌, List, sub32, bytes, ap, if◌then◌else◌, ◌≢◌, ℕ, ◌+◌, ◌-◌, ◌*◌, ◌^◌, ◌<◌, ◌≤◌, ◌≡◌, ◌↔◌, ◌⊎◌,
  refl, ◌∙◌, true, false, Bool-cases, inl, inr, some, [], Memory, bit_and,
}
use little_os.Kheap.Alloc.{IsPlaced}
use little_os.Kheap.Bitmap.{IsBytes}
use little_os.Kheap.Chunks.{IsHeap}
use little_os.Kheap.{kheap_init}
use little_os.Tables.{idt_init, idtr_init, gdt_init}
use little_os.Tables.Rings.{ring0_stack, tss_set_kernel_stack_lem}
use little_os.Tables.Init.{IsGate}
use little_os.Syscall.{syscall_init}
use little_os.Syscall.Gate.{can_raise, syscall_init-IsGate, syscall_init_lem}
use little_os.Paging.{paging_init}
use little_os.Paging.Walk.{walk, user_can}
use little_os.Paging.Space
use little_os.Paging.Space.{Holds}
use little_os.Paging.Isolation.{paging_setup_isolates}
use little_os.Kmain.Multiboot.{read_info, read_module}
use little_os.Framebuffer.Palette
use little_os.Kmain.{
  keyboard_interrupt_handler, serial_interrupt_handler, Linked, Kernel, print, colour, send,
  register, print_hex,
}
use little_os.Kmain.Start.{
  start_console, start_serial, start_tables, start_devices, print_layout, enable_interrupts,
  enter_user_mode, start_process, start_user, kmain, Outcome, entered, returned, state_of,
  has_module, is_readable, since,
}
use little_os.Keyboard.{keyboard_init}
use little_os.Keyboard.Wait.{drain_lem}
use little_os.Serial.Uart.{Uart, write}
use little_os.Serial.Uart.Transmit.{IsSent, write_lem}
use little_os.Keyboard.Refine.{IsValid, contents, keyboard_init-IsValid, contents-keyboard_init}
use little_os.Framebuffer.Shown.{IsShown}
use little_os.Kmain.Start.Shown.{
  start_console-IsShown, start_serial-IsShown, start_tables-IsShown, start_devices-IsShown,
  print_layout-IsShown, enable_interrupts-IsShown, start_process-IsShown, warned-IsShown,
}
use little_os.Serial.{serial_write, serial_write_char}
use little_os.Kmain.Start.Sent.{Sends, Sends-trans, Sends-since}
use little_os.Kmain.Start.Tested.{Same, test_heap_lem}

-- The state in which the user mode is entered.
pub record Entered (at : Linked) (k : Kernel) : Type 0 where
  pub entry : k.user ≡ some (0, 0xBFFFFFFB)
  pub stack : ring0_stack k.segments.tss ≡ (0x10, at.kernel_stack + 4096)
  pub isolated :
      (ram : ℕ → ℕ → ℕ) (v : ℕ)
      → Holds at.places k.paging ram
      → v < 2 ^ 32
      → user_can (walk ram k.paging.cr3 v) ≡ true
      → (v < 2 ^ 16) ⊎ ((0xBFFFF000 ≤ v) × (v < 0xC0000000))

-- What holds with a module and without one.
pub record Booted (at : Linked) (k : Kernel) : Type 0 where
  pub heap : IsHeap at.heap_start k.heap []
  pub raises : (n : ℕ) → n < 256 → (can_raise 3 (k.idt n) ≡ true) ↔ (n ≡ 0x80)
  pub gates : (n : ℕ) → n < 48 → IsGate (at.stubs n) (k.idt n)
  pub keys : k.handlers 33 ≡ some keyboard_interrupt_handler
  pub serial : k.handlers 36 ≡ some serial_interrupt_handler
  pub enabled : k.interrupts_enabled ≡ true
  pub table : k.idtr ≡ record { limit = 256 * 8 - 1; base = at.idt }
  pub ring : IsValid k.keyboard
  pub no_keys : contents k.keyboard ≡ []
  pub console : IsShown k.screen

-- What goes to COM1 in front of the user mode.
abbrev iret_text : List ℕ
iret_text = bytes "[User Mode] Switching to Ring 3 via iret (CS=0x1B, SS=0x23, EIP=0x0)...\r\n"

-- What the linker and the assembly promise.
pub record IsLinked (at : Linked) : Type 0 where
  pub heap : IsPlaced at.heap_start
  pub places : Space.IsPlaced at.places
  pub handler : at.int128_handler < 2 ^ 32
  pub stubs : (v : ℕ) → v < 48 → at.stubs v < 2 ^ 32
  pub stack : at.kernel_stack + 4096 < 2 ^ 32

-- The devices answer within the fuel of a wait: the controller of the keyboard holds `pending` bytes,
-- and the transmitter is free again within its latency.
pub record Answers (uart : Uart) (status : ℕ → ℕ) (fuel : ℕ) : Type 0 where
  pub pending : ℕ
  pub busy : (i : ℕ) → i < pending → bit_and (status i) 1 ≢ 0
  pub idle : bit_and (status pending) 1 ≡ 0
  pub enough : pending < fuel
  pub patient : uart.latency < fuel

-- `kmain` ends in the user mode exactly when there is a module.
abbrev pub outcome_of : Memory → (info : ℕ) → Kernel → Outcome
outcome_of m info k = if has_module m info then entered k else returned k

pub state_of-outcome_of : (m : Memory) (info : ℕ) (k : Kernel) → state_of (outcome_of m info k) ≡ k
state_of-outcome_of m info k = elim (Bool-cases (has_module m info)) [
  | inl given ↦ rw given refl
  | inr missing ↦ rw missing refl
]

module _ (at : Linked) (linked : IsLinked at) (k : Kernel) (bytes_in : IsBytes k.heap.bitmap) where
  abbrev started : Kernel
  started = start_devices at (start_tables at (start_serial (start_console k)))

  started_heap : started.heap ≡ kheap_init at.heap_start k.heap
  unfolding start_devices start_tables start_serial start_console print colour send register
  started_heap = refl

  started_idt : started.idt ≡ syscall_init at.int128_handler (idt_init at.stubs k.idt)
  unfolding start_devices start_tables start_serial start_console print colour send register
  started_idt = refl

  started_segments : started.segments ≡ gdt_init at.gdt at.tss k.segments
  unfolding start_devices start_tables start_serial start_console print colour send register
  started_segments = refl

  started_paging : started.paging ≡ paging_init at.places k.paging
  unfolding start_devices start_tables start_serial start_console print colour send register
  started_paging = refl

  started_idtr : started.idtr ≡ record { limit = 256 * 8 - 1; base = at.idt }
  unfolding start_devices start_tables start_serial start_console print colour send register
      idtr_init
  started_idtr = refl

  started_keyboard : started.keyboard ≡ keyboard_init k.keyboard
  unfolding start_devices start_tables start_serial start_console print colour send register
  started_keyboard = refl

  started-IsShown : IsShown started.screen
  started-IsShown =
      start_devices-IsShown at _
        (start_tables-IsShown at _ (start_serial-IsShown _ (start_console-IsShown k)))

  started_user : started.user ≡ k.user
  unfolding start_devices start_tables start_serial start_console print colour send register
  started_user = refl

  started-Sends : Sends k.line started.line
  unfolding start_devices start_tables start_serial start_console print colour send register
      serial_write serial_write_char
  started-Sends = (
    b'A' ∷ b'E' ∷ bytes " [Serial COM1] LittleOS Serial Driver initialized successfully!\r\n",
    refl,
  )

  started_handlers :
      (started.handlers 33 ≡ some keyboard_interrupt_handler)
      × (started.handlers 36 ≡ some serial_interrupt_handler)
  unfolding start_devices start_tables start_serial start_console print colour send register
  started_handlers = (refl, refl)

  -- The state in front of the search for a module, from what the test leaves.
  abbrev ready : Kernel → Kernel
  ready tested = enable_interrupts (print_layout at tested)

  ready-Same : (tested : Kernel) → Same started tested → Same started (ready tested)
  unfolding enable_interrupts print_layout print_hex print colour
  ready-Same tested same = record {
    handlers = same.handlers;
    segments = same.segments;
    idt = same.idt;
    idtr = same.idtr;
    keyboard = same.keyboard;
    paging = same.paging;
    user = same.user;
    shown = λ v.
        enable_interrupts-IsShown (print_layout at tested)
          (print_layout-IsShown at tested (same.shown v));
    sends = same.sends;
  }

  ready_heap : (tested : Kernel) → (ready tested).heap ≡ tested.heap
  unfolding enable_interrupts print_layout print_hex print colour
  ready_heap tested = refl

  ready_enabled : (tested : Kernel) → (ready tested).interrupts_enabled ≡ true
  unfolding enable_interrupts print colour
  ready_enabled tested = refl

  Same-Booted :
      (r : Kernel)
      → IsHeap at.heap_start r.heap []
      → r.idt ≡ started.idt
      → r.handlers ≡ started.handlers
      → r.interrupts_enabled ≡ true
      → r.idtr ≡ started.idtr
      → r.keyboard ≡ started.keyboard
      → IsShown r.screen
      → Booted at r
  Same-Booted r empty idt handlers enabled idtr keyboard shown =
      let gates = syscall_init_lem at.stubs at.int128_handler k.idt linked.handler linked.stubs in
      record {
        heap = empty;
        raises = λ n byte. rw (idt, started_idt) (gates.0 n byte);
        gates = λ n low.
            rw (idt, started_idt)
              (syscall_init-IsGate at.stubs at.int128_handler k.idt n low (linked.stubs n low));
        keys = rw handlers started_handlers.0;
        serial = rw handlers started_handlers.1;
        enabled = enabled;
        table = idtr ∙ started_idtr;
        ring = rw (keyboard, started_keyboard) (keyboard_init-IsValid k.keyboard);
        no_keys = rw (keyboard, started_keyboard) (contents-keyboard_init k.keyboard);
        console = shown;
      }

  module _ (m : Memory) (info : ℕ) (r : Kernel) (same : Same started r)
      (empty : IsHeap at.heap_start r.heap []) (enabled : r.interrupts_enabled ≡ true) where
    process-Booted : (start size : ℕ) → Booted at (start_process at m start size r)
    unfolding start_process enter_user_mode print colour send
    process-Booted start size =
        Same-Booted (start_process at m start size r) empty same.idt same.handlers enabled same.idtr
          same.keyboard (start_process-IsShown at m start size r (same.shown started-IsShown))

    process-Entered : (start size : ℕ) → Entered at (start_process at m start size r)
    unfolding start_process enter_user_mode print colour send
    process-Entered start size = record {
      entry = refl;
      stack =
          rw (same.segments, started_segments)
            (tss_set_kernel_stack_lem at.gdt at.tss (at.kernel_stack + 4096) k.segments
              linked.stack).0;
      isolated = λ ram v holds small access.
          let paging : r.paging ≡ paging_init at.places k.paging = same.paging ∙ started_paging in
          paging_setup_isolates at.places m start size k.paging ram linked.places
            (rw paging at holds) v small (rw paging at access);
    }

    start_user-Booted :
        (k' : Kernel) × (start_user at m info r ≡ outcome_of m info k')
        × Booted at k'
        × (((has_module m info ≡ true) × Entered at k')
            ⊎ ((has_module m info ≡ false) × (k'.user ≡ k.user)))
        × Sends r.line k'.line
    unfolding start_user start_process enter_user_mode send print colour serial_write
    start_user-Booted = elim (Bool-cases (has_module m info)) [
      | inl given ↦
          let modules = read_module m (read_info m info).mods_addr in
          (
            start_process at m modules.mod_start (sub32 modules.mod_end modules.mod_start) r,
            rw given refl,
            process-Booted _ _,
            inl (given, process-Entered _ _),
            (iret_text, refl),
          )
      | inr missing ↦ (
        print (bytes "[ WARN ] No Multiboot module found.\n") (colour Palette.light_red r),
        rw missing refl,
        Same-Booted _ empty same.idt same.handlers enabled same.idtr same.keyboard
            (warned-IsShown r (same.shown started-IsShown)),
        inr (missing, same.user ∙ started_user),
        ([], refl),
      )
    ]

  pub kmain_lem :
      (uart : Uart) (status : ℕ → ℕ) (fuel : ℕ) (m : Memory) (info : ℕ) (u : uart.State)
      → (answers : Answers uart status fuel) → is_readable m info ≡ true
      → (k' : Kernel) × (u' : uart.State) × (kmain uart fuel status at m info k u
          ≡ some (outcome_of m info k', u', answers.pending))
        × Booted at k'
        × (((has_module m info ≡ true) × Entered at k')
            ⊎ ((has_module m info ≡ false) × (k'.user ≡ k.user)))
        × IsSent uart u (since k.line k'.line) u'
        × (k'.line ≡ serial_write (since k.line k'.line) k.line)
  unfolding kmain
  kmain_lem uart status fuel m info u answers readable =
      let dropped =
        drain_lem status answers.pending fuel answers.busy answers.idle answers.enough in
      let test = test_heap_lem at linked.heap started k.heap bytes_in started_heap in
      let r : Kernel = ready test.0 in
      let (k', end, booted, user, wrote) =
        start_user-Booted m info r (ready-Same test.0 test.3) (rw (ready_heap test.0) test.2)
          (ready_enabled test.0) in
      let (u', written, sent) = write_lem uart fuel (since k.line k'.line) u answers.patient in
      let state : state_of (outcome_of m info k') ≡ k' = state_of-outcome_of m info k' in
      let same_line : since k.line (state_of (start_user at m info r)).line ≡ since k.line k'.line =
        ap (λ (o : Outcome). since k.line (state_of o).line) end
        ∙ ap (λ (s : Kernel). since k.line s.line) state in
      let on_wire : write uart fuel (since k.line (state_of (start_user at m info r)).line) u
          ≡ some u' =
        ap (λ (text : List ℕ). write uart fuel text u) same_line ∙ written in
      (
        k',
        u',
        rw (kmain, dropped, test.1, readable, on_wire)
            (ap (λ (o : Outcome). some (o, u', answers.pending)) end),
        booted,
        user,
        sent,
        Sends-since k.line k'.line (
            Sends-trans k.line r.line k'.line
              (Sends-trans k.line started.line r.line started-Sends
                (ready-Same test.0 test.3).sends)
              wrote),
      )
