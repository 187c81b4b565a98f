-- ===== src/Serial/Uart.antt =====
-- drivers/serial.c: the loops that wait for the UART, over the ports that they read.
-- The UART is a device, so it is a parameter: `Uart` is what its documentation says of the ports.
pub mod Transmit
pub mod Receive
pub mod Sample
mod Examples
use little_os.Base.{
  ℕ, zero, suc, ◌+◌, ◌-◌, ◌^◌, ◌<◌, ◌≤◌, ◌≡◌, Bool, true, false, not, Option, none, some, List, [],
  ◌∷◌, bit_and, ◌==◌, u8,
}
use little_os.Keyboard.{Keyboard, put_char}

abbrev pub is_empty : List ℕ → Bool
is_empty [] = true
is_empty (c ∷ cs) = false

-- Bit 0 of the line status is set while a received byte waits, bit 5 while the holding register is
-- empty. The register is free again after at most `latency` readings of the status. A byte that is
-- written then is sent. What is received is what waits while the driver reads.
pub record Uart : Type 1 where
  pub State : Type 0
  pub status : State → ℕ × State
  pub data_in : State → ℕ × State
  pub data_out : ℕ → State → State
  pub received : State → List ℕ
  pub sent : State → List ℕ
  pub busy : State → ℕ
  pub latency : ℕ
  pub ready_bit : (u : State) → (bit_and (status u).0 1 == 0) ≡ is_empty (received u)
  pub free_bit : (u : State) → (bit_and (status u).0 0x20 == 0) ≡ not (busy u == 0)
  pub busy_bounded : (u : State) → busy u ≤ latency
  pub status_busy : (u : State) → busy (status u).1 ≡ busy u - 1
  pub status_received : (u : State) → received (status u).1 ≡ received u
  pub status_sent : (u : State) → sent (status u).1 ≡ sent u
  pub in_byte :
      (u : State) (c : ℕ) (cs : List ℕ)
      → received u ≡ c ∷ cs
      → ((data_in u).0 ≡ c) × (received (data_in u).1 ≡ cs)
  pub in_sent : (u : State) → sent (data_in u).1 ≡ sent u
  pub out_received : (c : ℕ) (u : State) → received (data_out c u) ≡ received u
  pub out_sent : (c : ℕ) (u : State) → busy u ≡ 0 → sent (data_out c u) ≡ c ∷ sent u

-- `if (c != -1) keyboard_put_char((char)c)`
pub feed : Option ℕ → Keyboard → Keyboard
feed none k = k
feed (some c) k = put_char (u8 c) k

module _ (uart : Uart) where
  open uart use {State, status, data_in, data_out}

  pub is_transmit_fifo_empty : State → ℕ × State
  is_transmit_fifo_empty u = let (byte, u') = status u in (bit_and byte 0x20, u')

  -- `while (serial_is_transmit_fifo_empty(com) == 0);`
  pub wait_empty : (fuel : ℕ) → State → Option State
  wait_empty zero u = none
  wait_empty (suc fuel) u =
      let (empty, u') = is_transmit_fifo_empty u in
      elim (empty == 0) [ true ↦ wait_empty fuel u' | false ↦ some u' ]

  -- `serial_write_char`
  pub write_char : (fuel : ℕ) → (c : ℕ) → State → Option State
  write_char fuel c u = elim (wait_empty fuel u) [
    | none ↦ none
    | some u' ↦ some (data_out (u8 c) u')
  ]

  -- `serial_write`
  pub write : (fuel : ℕ) → List ℕ → State → Option State
  write fuel [] u = some u
  write fuel (c ∷ cs) u = elim (write_char fuel c u) [ none ↦ none | some u' ↦ write fuel cs u' ]

  pub serial_receive : State → ℕ × State
  serial_receive u = let (byte, u') = status u in (bit_and byte 1, u')

  -- `serial_read_char`, where `none` is -1.
  pub read_char : State → Option ℕ × State
  read_char u =
      let (ready, u') = serial_receive u in
      elim (ready == 0) [
        | true ↦ (none, u')
        | false ↦ let (byte, u'') = data_in u' in (some byte, u'')
      ]

  -- `serial_interrupt_handler`
  pub serial_interrupt_handler : (fuel : ℕ) → State → Keyboard → Option (State × Keyboard)
  serial_interrupt_handler zero u k = none
  serial_interrupt_handler (suc fuel) u k =
      let (ready, u') = serial_receive u in
      elim (ready == 0) [
        | true ↦ some (u', k)
        | false ↦ let (c, u'') = read_char u' in serial_interrupt_handler fuel u'' (feed c k)
      ]
