-- ===== src/Running/Invariant.antt =====
-- The invariant of the running kernel.
use little_os.Base.{
  ap, false, inl, inr, ◌⊎◌, ℕ, ◌<◌, ◌≡◌, ◌↔◌, refl, sym, ◌∙◌, true, some, [], Memory,
}
use mathlib.Core.Option.{some-injective}
use little_os.Kheap.Bitmap.{IsBytes}
use little_os.Kheap.Chunks.{IsHeap}
use little_os.Kmain.{keyboard_interrupt_handler, serial_interrupt_handler, Linked, Kernel}
use little_os.Kmain.Start.{Outcome, kmain, has_module, is_readable, state_of}
use little_os.Kmain.Start.Boot.{
  IsLinked, Entered, Answers, outcome_of, state_of-outcome_of, kmain_lem,
}
use little_os.Serial.Uart.{Uart}
use little_os.Syscall.Frame.{SameHigh, do_syscall-SameHigh}
use little_os.Syscall.Gate.{can_raise}
use little_os.Syscall.Keeps.{do_syscall-IsFit}
use little_os.Tables.Init.{IsGate}
use little_os.Running.{
  interrupt, Running, machine, after, Step, interrupted, called, computed, Reach, here, step,
}
use little_os.Running.Sound.{IsSound, interrupt-IsSound}

-- What a step leaves as it is.
record Keeps (k k' : Kernel) : Type 0 where
  handlers : k'.handlers ≡ k.handlers
  idt : k'.idt ≡ k.idt
  heap : k'.heap ≡ k.heap
  paging : k'.paging ≡ k.paging
  segments : k'.segments ≡ k.segments
  user : k'.user ≡ k.user
  sound : IsSound k → IsSound k'

Step-Keeps : (r r' : Running) → Step r r' → Keeps r.kernel r'.kernel
unfolding interrupt machine after
Step-Keeps r _ (interrupted cpu stack vector scancode received _ stub) = record {
  handlers = refl;
  idt = refl;
  heap = refl;
  paging = refl;
  segments = refl;
  user = refl;
  sound = interrupt-IsSound cpu stack vector scancode received r.kernel stub;
}
Step-Keeps r _ (called ps regs regs' m' _ low e) = record {
  handlers = refl;
  idt = refl;
  heap = refl;
  paging = refl;
  segments = refl;
  user = refl;
  sound = λ h.
      let fit =
        do_syscall-IsFit ps regs regs' (machine r) m' e
          (record { ring = h.ring; console = h.console }) in
      record { ring = fit.ring; console = fit.console };
}
Step-Keeps r _ (computed memory _ same) = record {
  handlers = refl;
  idt = refl;
  heap = refl;
  paging = refl;
  segments = refl;
  user = refl;
  sound = λ h. h;
}

Keeps-trans : (k k' k'' : Kernel) → Keeps k k' → Keeps k' k'' → Keeps k k''
Keeps-trans k k' k'' f g = record {
  handlers = g.handlers ∙ f.handlers;
  idt = g.idt ∙ f.idt;
  heap = g.heap ∙ f.heap;
  paging = g.paging ∙ f.paging;
  segments = g.segments ∙ f.segments;
  user = g.user ∙ f.user;
  sound = λ h. g.sound (f.sound h);
}

Reach-Keeps : {start r : Running} → Reach start r → Keeps start.kernel r.kernel
Reach-Keeps here = record {
  handlers = refl;
  idt = refl;
  heap = refl;
  paging = refl;
  segments = refl;
  user = refl;
  sound = λ h. h;
}
Reach-Keeps (step before s) = Keeps-trans _ _ _ (Reach-Keeps before) (Step-Keeps _ _ s)

-- What the running kernel can rely on.
pub record IsLive (at : Linked) (k : Kernel) : Type 0 where
  pub sound : IsSound k
  pub keys : k.handlers 33 ≡ some keyboard_interrupt_handler
  pub serial : k.handlers 36 ≡ some serial_interrupt_handler
  pub raises : (n : ℕ) → n < 256 → (can_raise 3 (k.idt n) ≡ true) ↔ (n ≡ 0x80)
  pub gates : (n : ℕ) → n < 48 → IsGate (at.stubs n) (k.idt n)
  pub heap : IsHeap at.heap_start k.heap []

-- The user mode is entered and isolated, or there is no module.
abbrev pub Enters : Linked → Memory → (info : ℕ) → (start k : Kernel) → Type 0
Enters at m info start k =
    ((has_module m info ≡ true) × Entered at k)
    ⊎ ((has_module m info ≡ false) × (k.user ≡ start.user))

Enters-Keeps :
    (at : Linked) (m : Memory) (info : ℕ) (start k k' : Kernel)
    → Keeps k k'
    → Enters at m info start k
    → Enters at m info start k'
Enters-Keeps at m info start k k' kept (inl (given, e)) = inl (
  given,
  record {
    entry = kept.user ∙ e.entry;
    stack = rw kept.segments e.stack;
    isolated = λ ram v holds small access.
        e.isolated ram v (rw kept.paging at holds) small (rw kept.paging at access);
  },
)
Enters-Keeps at m info start k k' kept (inr (missing, same)) = inr (missing, kept.user ∙ same)

-- No step writes to the kernel's half through a pointer of the process.
Step-SameHigh : (r r' : Running) → Step r r' → SameHigh r.memory r'.memory
unfolding machine after
Step-SameHigh r _ (interrupted cpu stack vector scancode received _ stub) = λ x high. refl
Step-SameHigh r _ (called ps regs regs' m' _ low e) =
    do_syscall-SameHigh ps regs regs' (machine r) m' e low
Step-SameHigh r _ (computed memory _ same) = same

Reach-SameHigh : {start r : Running} → Reach start r → SameHigh start.memory r.memory
Reach-SameHigh here = λ x high. refl
Reach-SameHigh (step before s) = λ x high. Step-SameHigh _ _ s x high ∙ Reach-SameHigh before x high

-- In every state that interrupts, system calls that return and steps of the process in its own
-- memory reach behind `kmain`, where each buffer of a SYS_READ lies below the kernel's base, no
-- byte from that base on has changed through a pointer of the process, the ring buffer is valid,
-- the console shows a screen, the two drivers are registered, the system call is the one gate that
-- the user process can raise, the stubs are in their gates, and the heap has no chunks. With a
-- module of the boot loader, interrupts still switch to the kernel's stack, and the process can
-- still access nothing but its 64 KB and its stack, where the memory holds the tables. `kmain`
-- starts from whatever state with bytes in its bitmap, its devices answer, what it reads of the
-- boot loader's memory is mapped, and the linker's addresses are as it wants them.
pub Reach-IsLive :
    (at : Linked) (k : Kernel) (uart : Uart) (status : ℕ → ℕ) (fuel : ℕ) (m memory : Memory)
    (info dropped : ℕ) (u u' : uart.State) (o : Outcome)
    → IsLinked at
    → IsBytes k.heap.bitmap
    → Answers uart status fuel
    → is_readable m info ≡ true
    → kmain uart fuel status at m info k u ≡ some (o, u', dropped)
    → {r : Running} → Reach (record { kernel = state_of o; memory = memory }) r
    → IsLive at r.kernel × Enters at m info k r.kernel × SameHigh memory r.memory
Reach-IsLive at k uart status fuel m memory info dropped u u' o linked bytes_in answers readable
      done {r} reached =
    let (k'', u'', run, booted, user, sent, grown) =
      kmain_lem at linked k bytes_in uart status fuel m info u answers readable in
    let end : state_of o ≡ k'' =
      ap (λ (x : Outcome × uart.State × ℕ). state_of x.0)
        (some-injective (o, u', dropped) (outcome_of m info k'', u'', answers.pending)
          (sym done ∙ run))
      ∙ state_of-outcome_of m info k'' in
    let kept = Reach-Keeps reached in
    (
      record {
        sound = kept.sound (rw end (record { ring = booted.ring; console = booted.console }));
        keys = rw (kept.handlers, end) booted.keys;
        serial = rw (kept.handlers, end) booted.serial;
        raises = rw (kept.idt, end) booted.raises;
        gates = rw (kept.idt, end) booted.gates;
        heap = rw (kept.heap, end) booted.heap;
      },
      Enters-Keeps at m info k (state_of o) r.kernel kept (rw end user),
      Reach-SameHigh reached,
    )
