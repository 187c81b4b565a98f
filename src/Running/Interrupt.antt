-- ===== src/Running/Interrupt.antt =====
-- What an interrupt does to a kernel in which the drivers are registered.
use little_os.Base.{
  ◌⊎◌, inl, inr, sym, ◌≢◌, ℕ, ◌<◌, ◌≤◌, ◌≡◌, ◌≢◌, refl, ◌∙◌, ap, false, none, some, List, ◌++◌,
  ◌==◌, if◌then◌else◌, arith,
}
use mathlib.Core.Option.{none-ne-some}
use little_os.Keyboard.Queue.{Input, press, meaning}
use little_os.Keyboard.Refine.{IsValid, view, interrupt_handler_refines}
use little_os.Serial.Ring.{enqueue_all, serial_interrupt_refines}
use little_os.Interrupts.{Cpu, StackState}
use little_os.Interrupts.Dispatch.{end_of_interrupt}
use little_os.Interrupts.Effects.{interrupt_handler_runs, interrupt_handler_ignores}
use little_os.Kmain.{Driver, keyboard_interrupt_handler, serial_interrupt_handler, Kernel}
use little_os.Running.{Devices, driver_handler, handlers_of, system, interrupt}

-- What an interrupt means for the input of the system: vector 33 is the keyboard, and 36 the UART.
unfoldable pub arrived : (vector scancode : ℕ) (received : List ℕ) → Input → Input
arrived vector scancode received i =
    if vector == 33
    then press (meaning scancode) i
    else if vector == 36
    then enqueue_all received i
    else i

pub driver_there :
    (k : Kernel) (vector : ℕ) (driver : Driver)
    → k.handlers vector ≡ some driver
    → handlers_of k.handlers vector ≡ some (driver_handler driver)
unfolding handlers_of
driver_there k vector driver there = rw (there, handlers_of) refl

pub none_there :
    (k : Kernel) (vector : ℕ) → k.handlers vector ≡ none → handlers_of k.handlers vector ≡ none
unfolding handlers_of
none_there k vector free = rw (free, handlers_of) refl

module _ (cpu : Cpu) (stack : StackState) (scancode : ℕ) (received : List ℕ) (k : Kernel) where
  -- What an interrupt leaves.
  pub record Serves (vector : ℕ) (k' : Kernel) : Type 0 where
    pub input : view k'.keyboard ≡ arrived vector scancode received (view k.keyboard)
    pub ports : k'.ports ≡ end_of_interrupt vector ++ k.ports
    pub screen : k'.screen ≡ k.screen

  keyboard_there :
      scancode < 256
      → IsValid k.keyboard
      → k.handlers 33 ≡ some keyboard_interrupt_handler
      → Serves 33 (interrupt cpu stack 33 scancode received k)
  unfolding interrupt driver_handler system arrived
  keyboard_there byte v there =
      let ends =
        interrupt_handler_runs Devices cpu stack 33 (system scancode received k)
          (handlers_of k.handlers) _ (omega arith) (driver_there k 33 _ there) in
      record {
        input =
            ap (λ (d : Devices). view d.keyboard) ends.devices
            ∙ interrupt_handler_refines scancode k.keyboard byte v;
        ports = ends.ports;
        screen = ends.screen;
      }

  serial_there :
      IsValid k.keyboard
      → k.handlers 36 ≡ some serial_interrupt_handler
      → Serves 36 (interrupt cpu stack 36 scancode received k)
  unfolding interrupt driver_handler system arrived
  serial_there v there =
      let ends =
        interrupt_handler_runs Devices cpu stack 36 (system scancode received k)
          (handlers_of k.handlers) _ (omega arith) (driver_there k 36 _ there) in
      record {
        input =
            ap (λ (d : Devices). view d.keyboard) ends.devices
            ∙ serial_interrupt_refines received k.keyboard v;
        ports = ends.ports;
        screen = ends.screen;
      }

  nothing_there :
      (vector : ℕ)
      → 32 ≤ vector
      → vector ≢ 33
      → vector ≢ 36
      → k.handlers vector ≡ none
      → Serves vector (interrupt cpu stack vector scancode received k)
  unfolding interrupt system arrived
  nothing_there vector hardware not_keys not_serial free =
      let ends =
        interrupt_handler_ignores Devices cpu stack vector (system scancode received k)
          (handlers_of k.handlers) hardware (none_there k vector free) in
      let n33 : (vector == 33) ≡ false = ground (arith, not_keys) in
      let n36 : (vector == 36) ≡ false = ground (arith, not_serial) in
      record {
        input = ap (λ (d : Devices). view d.keyboard) ends.devices ∙ rw (n33, n36) refl;
        ports = ends.ports;
        screen = ends.screen;
      }

  -- In a kernel with the drivers of the keyboard and the UART at the vectors 33 and 36 and a valid ring
  -- buffer, an interrupt of the hardware, a scancode of a byte with it, does to the input what its
  -- vector means: 33 presses the key of the scancode, 36 adds the bytes that the UART holds, in their
  -- order, and a vector without a driver does nothing. It leaves the screen as it is, and ends with the
  -- acknowledgement of its controllers.
  pub interrupt_lem :
      (vector : ℕ)
      → 32 ≤ vector
      → scancode < 256
      → IsValid k.keyboard
      → k.handlers 33 ≡ some keyboard_interrupt_handler
      → k.handlers 36 ≡ some serial_interrupt_handler
      → (vector ≡ 33) ⊎ ((vector ≡ 36) ⊎ (k.handlers vector ≡ none))
      → Serves vector (interrupt cpu stack vector scancode received k)
  interrupt_lem vector hardware byte v keys serial (inl is_keys) =
      rw is_keys (keyboard_there byte v keys)
  interrupt_lem vector hardware byte v keys serial (inr (inl is_serial)) =
      rw is_serial (serial_there v serial)
  interrupt_lem vector hardware byte v keys serial (inr (inr free)) =
      nothing_there vector hardware (λ e. none-ne-some _ (sym free ∙ ap k.handlers e ∙ keys))
        (λ e. none-ne-some _ (sym free ∙ ap k.handlers e ∙ serial)) free
