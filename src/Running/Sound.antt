-- ===== src/Running/Sound.antt =====
-- An interrupt, of a device or of an exception, keeps the input and the console sound.
use little_os.Base.{sym, ℕ, ◌<◌, ◌≡◌, refl, Option, none, some, List, arith, dec_lt}
use mathlib.Core.Path.{subst}
use little_os.Framebuffer.Shown.{IsShown}
use little_os.Interrupts.{Cpu, StackState}
use little_os.Interrupts.Effects.{
  interrupt_handler_runs, interrupt_handler_ignores, interrupt_handler_reports,
  report_exception-IsShown,
}
use little_os.Keyboard.Refine.{IsValid}
use little_os.Keyboard.Runs.{interrupt_handler-IsValid}
use little_os.Kmain.{Driver, keyboard_interrupt_handler, serial_interrupt_handler, Kernel}
use little_os.Serial.Ring.{serial_interrupt-IsValid}
use little_os.Running.{Devices, driver_handler, handlers_of, system, interrupt}
use little_os.Running.Interrupt.{driver_there, none_there}

-- The input and the console of the kernel are in a proper state.
pub record IsSound (k : Kernel) : Type 0 where
  pub ring : IsValid k.keyboard
  pub console : IsShown k.screen

module _ (cpu : Cpu) (stack : StackState) (vector scancode : ℕ) (received : List ℕ) (k : Kernel)
    (stub : vector < 48) (h : IsSound k) where
  -- The kernel behind the interrupt.
  abbrev later : Kernel
  later = interrupt cpu stack vector scancode received k

  driver-IsSound : (driver : Driver) → k.handlers vector ≡ some driver → IsSound later
  unfolding interrupt driver_handler system
  driver-IsSound keyboard_interrupt_handler there =
      let ends =
        interrupt_handler_runs Devices cpu stack vector (system scancode received k)
          (handlers_of k.handlers) _ (omega (arith, stub)) (driver_there k vector _ there) in
      record {
        ring =
            subst (λ (d : Devices). IsValid d.keyboard) (sym ends.devices)
              (interrupt_handler-IsValid scancode k.keyboard h.ring);
        console = subst IsShown (sym ends.screen) h.console;
      }
  driver-IsSound serial_interrupt_handler there =
      let ends =
        interrupt_handler_runs Devices cpu stack vector (system scancode received k)
          (handlers_of k.handlers) _ (omega (arith, stub)) (driver_there k vector _ there) in
      record {
        ring =
            subst (λ (d : Devices). IsValid d.keyboard) (sym ends.devices)
              (serial_interrupt-IsValid received k.keyboard h.ring);
        console = subst IsShown (sym ends.screen) h.console;
      }

  none-IsSound : k.handlers vector ≡ none → IsSound later
  unfolding interrupt system
  none-IsSound free = elim (dec_lt vector 32) [
    | yes exception ↦
        let ends =
          interrupt_handler_reports Devices cpu stack vector (system scancode received k)
            (handlers_of k.handlers) exception (none_there k vector free) in
        record {
          ring = subst (λ (d : Devices). IsValid d.keyboard) (sym ends.devices) h.ring;
          console =
              subst IsShown (sym ends.screen) (report_exception-IsShown vector k.screen h.console);
        }
    | no hardware ↦
        let ends =
          interrupt_handler_ignores Devices cpu stack vector (system scancode received k)
            (handlers_of k.handlers) (omega arith) (none_there k vector free) in
        record {
          ring = subst (λ (d : Devices). IsValid d.keyboard) (sym ends.devices) h.ring;
          console = subst IsShown (sym ends.screen) h.console;
        }
  ]

  pub interrupt-IsSound : IsSound later
  interrupt-IsSound = out (k.handlers vector) refl
    where
      out : (d : Option Driver) → k.handlers vector ≡ d → IsSound later
      out none e = none-IsSound e
      out (some driver) e = driver-IsSound driver e
