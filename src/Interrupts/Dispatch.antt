-- ===== src/Interrupts/Dispatch.antt =====
-- What an interrupt runs, and what the interrupt controllers and the screen get.
use little_os.Base.{
  ℕ, ◌+◌, ◌-◌, ◌*◌, ◌<◌, ◌≡◌, ◌≢◌, refl, true, false, none, List, [], ◌∷◌, ◌++◌, ◌&&◌, ◌||◌, ltb,
  leb, ◌==◌, ==_iff, if◌then◌else◌, u8, arith, all_below, all_below_sound, dec_lt,
}
use little_os.Serial.{Ports}
use little_os.Interrupts.{
  pic_ack, vector_text, System, Handler, Handlers, Cpu, StackState, register_interrupt_handler,
  dispatch, acknowledge, interrupt_handler,
}

-- The hardware vectors are the 16 lines of two controllers from 32 on. Lines 8 to 15 are those of
-- the second, which is wired to the first. An end of interrupt is a write to the command port.
abbrev pub end_of_interrupt : (vector : ℕ) → Ports
end_of_interrupt vector =
    if ltb vector 32
    then []
    else if ltb (vector - 32) 8
    then (0x20, 0x20) ∷ []
    else if ltb (vector - 32) 16
    then (0x20, 0x20) ∷ (0xA0, 0x20) ∷ []
    else []

-- The number that the digits before the end of the line spell, after `n`.
abbrev pub read_decimal : (n : ℕ) → List ℕ → ℕ
read_decimal n [] = n
read_decimal n (c ∷ cs) = if c == 10 then n else read_decimal (n * 10 + (c - b'0')) cs

-- The number in the report of an exception, a vector below 32, is its vector.
pub vector_text_lem : (vector : ℕ) → vector < 32 → read_decimal 0 (vector_text vector) ≡ vector
unfolding vector_text all_below
vector_text_lem vector low =
    (==_iff (read_decimal 0 (vector_text vector)) vector).0
      (all_below_sound 32 (λ v. read_decimal 0 (vector_text v) == v) vector refl low)

module _ (Devices : Type 0) where
  -- A handler that is registered for a vector below 256 runs on it, before the acknowledgement, and on no other:
  -- what another vector does is not changed.
  pub register_interrupt_handler_lem :
      (handlers : Handlers Devices) (n k : ℕ) (handler : Handler Devices) (cpu : Cpu)
      (stack : StackState) (s : System Devices)
      → n < 256
      → k ≢ n
      → (interrupt_handler Devices
            (register_interrupt_handler Devices n handler handlers)
            cpu
            stack
            n
            s
          ≡ acknowledge Devices n (handler cpu stack n s))
        × (interrupt_handler Devices
              (register_interrupt_handler Devices n handler handlers)
              cpu
              stack
              k
              s
            ≡ interrupt_handler Devices handlers cpu stack k s)
  unfolding interrupt_handler register_interrupt_handler dispatch
  register_interrupt_handler_lem handlers n k handler cpu stack s byte apart =
      let here : (n == n) ≡ true = ground arith in
      let below : ltb n 256 ≡ true = ground arith in
      let other : (k == n) ≡ false = ground (arith, apart) in (rw (here, below) refl, rw other refl)

  pub acknowledge_ports :
      (vector : ℕ) (s : System Devices)
      → System.ports (acknowledge Devices vector s) ≡ end_of_interrupt vector ++ System.ports s
  unfolding acknowledge pic_ack
  acknowledge_ports vector s = elim (dec_lt vector 32) [
    | yes exception ↦
        let not_hardware : (leb 32 vector && leb vector 47) ≡ false = ground arith in
        let low : ltb vector 32 ≡ true = ground arith in rw (not_hardware, low) refl
    | no high ↦
        let past : ltb vector 32 ≡ false = ground arith in
        elim (dec_lt vector 48) [
          | yes hardware ↦
              let served : (leb 32 vector && leb vector 47) ≡ true = ground arith in
              let cast : u8 vector ≡ vector = omega arith in
              let in_range : (ltb vector 0x20 || ltb (0x28 + 7) vector) ≡ false = ground arith in
              elim (dec_lt vector 40) [
                | yes first ↦
                    let one : leb 0x28 vector ≡ false = ground arith in
                    let line : ltb (vector - 32) 8 ≡ true = ground arith in
                    rw (served, cast, in_range, past, one, line) refl
                | no second ↦
                    let both : leb 0x28 vector ≡ true = ground arith in
                    let line : ltb (vector - 32) 8 ≡ false = ground arith in
                    let line' : ltb (vector - 32) 16 ≡ true = ground arith in
                    rw (served, cast, in_range, past, both, line, line') refl
              ]
          | no beyond ↦
              let not_hardware : (leb 32 vector && leb vector 47) ≡ false = ground arith in
              let line : ltb (vector - 32) 8 ≡ false = ground arith in
              let line' : ltb (vector - 32) 16 ≡ false = ground arith in
              rw (not_hardware, past, line, line') refl
        ]
  ]

  -- An interrupt ends with the acknowledgement of its controllers, and of no others, after all that
  -- its handler writes to the ports.
  pub interrupt_handler_acknowledges :
      (handlers : Handlers Devices) (cpu : Cpu) (stack : StackState) (vector : ℕ)
      (s : System Devices)
      → System.ports (interrupt_handler Devices handlers cpu stack vector s)
        ≡ end_of_interrupt vector
          ++ System.ports (
              dispatch Devices
                (if ltb vector 256 then handlers vector else none)
                cpu
                stack
                vector
                s)
  unfolding interrupt_handler
  interrupt_handler_acknowledges handlers cpu stack vector s =
      acknowledge_ports vector
        (dispatch Devices (if ltb vector 256 then handlers vector else none) cpu stack vector s)
