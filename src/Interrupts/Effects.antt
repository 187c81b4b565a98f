-- ===== src/Interrupts/Effects.antt =====
-- What an interrupt does to the devices and to the screen.
use little_os.Base.{
  ◌++◌, ℕ, ◌<◌, ◌≤◌, ◌≡◌, refl, true, false, Bool-cases, inl, inr, none, some, ltb, leb, ◌&&◌,
  arith,
}
use little_os.Framebuffer.{Framebuffer}
use little_os.Framebuffer.Shown.{IsShown, shown_rules}
use little_os.Interrupts.Dispatch.{end_of_interrupt, acknowledge_ports}
use little_os.Interrupts.{
  System, Handler, Handlers, Cpu, StackState, report_exception, dispatch, acknowledge,
  interrupt_handler,
}

pub report_exception-IsShown :
    (interrupt : ℕ) (f : Framebuffer) → IsShown f → IsShown (report_exception interrupt f)
unfolding report_exception
report_exception-IsShown interrupt f v = search shown_rules

module _ (Devices : Type 0) (cpu : Cpu) (stack : StackState) (vector : ℕ) (s : System Devices) where
  -- The devices and the screen are those of another system, and the vector is acknowledged behind
  -- its ports.
  pub record Ends (s' s'' : System Devices) : Type 0 where
    pub devices : System.devices s' ≡ System.devices s''
    pub screen : System.screen s' ≡ System.screen s''
    pub ports : System.ports s' ≡ end_of_interrupt vector ++ System.ports s''

  acknowledge-Ends : (s' : System Devices) → Ends (acknowledge Devices vector s') s'
  unfolding acknowledge
  acknowledge-Ends s' =
      let ports = acknowledge_ports Devices vector s' in
      elim (Bool-cases (leb 32 vector && leb vector 47)) [
        | inl hardware ↦
            rw hardware (record { devices = refl; screen = refl; ports = rw hardware at ports })
        | inr other ↦ rw other (record { devices = refl; screen = refl; ports = rw other at ports })
      ]

  module _ (handlers : Handlers Devices) where
    -- A vector with a handler runs it.
    pub interrupt_handler_runs :
        (handler : Handler Devices)
        → vector < 256
        → handlers vector ≡ some handler
        → Ends (interrupt_handler Devices handlers cpu stack vector s) (handler cpu stack vector s)
    unfolding interrupt_handler dispatch
    interrupt_handler_runs handler byte there =
        let below : ltb vector 256 ≡ true = ground arith in rw (below, there) (acknowledge-Ends _)

    -- A hardware vector without one changes neither.
    pub interrupt_handler_ignores :
        32 ≤ vector
        → handlers vector ≡ none
        → Ends (interrupt_handler Devices handlers cpu stack vector s) s
    unfolding interrupt_handler dispatch
    interrupt_handler_ignores hardware free =
        let past : ltb vector 32 ≡ false = ground arith in
        elim (Bool-cases (ltb vector 256)) [
          | inl below ↦ rw (below, free, past) (acknowledge-Ends s)
          | inr beyond ↦ rw (beyond, past) (acknowledge-Ends s)
        ]

    -- An exception without one is reported.
    pub interrupt_handler_reports :
        vector < 32
        → handlers vector ≡ none
        → Ends
            (interrupt_handler Devices handlers cpu stack vector s)
            (record s { screen = report_exception vector s.screen })
    unfolding interrupt_handler dispatch
    interrupt_handler_reports exception free =
        let low : ltb vector 32 ≡ true = ground arith in
        let below : ltb vector 256 ≡ true = ground arith in
        rw (below, free, low) (acknowledge-Ends _)
