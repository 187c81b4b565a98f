-- ===== src/Serial/Uart/Transmit.antt =====
-- The wait for the transmitter ends, and every byte is sent.
use little_os.Base.{
  ℕ, zero, suc, ◌<◌, ◌≡◌, refl, ◌∙◌, ap, true, false, some, List, [], ◌∷◌, bit_and, ◌==◌, u8, arith,
  dec_lt,
}
use little_os.Serial.{serial_write}
use little_os.Serial.Uart.{Uart, is_transmit_fifo_empty, wait_empty, write_char, write}

module _ (uart : Uart) where
  open uart use {State, status, received, sent, busy, latency}

  -- The transmitter is free, and nothing else has changed.
  record IsFree (u u' : State) : Type 0 where
    free : busy u' ≡ 0
    same_sent : sent u' ≡ sent u
    same_received : received u' ≡ received u

  wait_empty_lem :
      (fuel : ℕ) (u : State)
      → busy u < fuel
      → (u' : State) × (wait_empty uart fuel u ≡ some u') × IsFree u u'
  unfolding wait_empty is_transmit_fifo_empty
  wait_empty_lem zero u enough = absurd (omega arith)
  wait_empty_lem (suc fuel) u enough = elim (dec_lt 0 (busy u)) [
    | yes waits ↦
        let shut : (bit_and (status u).0 0x20 == 0) ≡ true =
          uart.free_bit u ∙ ground (arith, waits) in
        let later = wait_empty_lem fuel (status u).1 (omega (arith, uart.status_busy u)) in
        (
          later.0,
          rw (shut, wait_empty) later.1,
          record {
            free = later.2.free;
            same_sent = later.2.same_sent ∙ uart.status_sent u;
            same_received = later.2.same_received ∙ uart.status_received u;
          },
        )
    | no free ↦
        let clear : (bit_and (status u).0 0x20 == 0) ≡ false =
          uart.free_bit u ∙ ground (arith, free) in
        (
          (status u).1,
          rw (clear, wait_empty) refl,
          record {
            free = omega (arith, uart.status_busy u);
            same_sent = uart.status_sent u;
            same_received = uart.status_received u;
          },
        )
  ]

  -- What a write leaves: the bytes sent, and what is received as it was.
  pub record IsSent (u : State) (cs : List ℕ) (u' : State) : Type 0 where
    pub all_sent : sent u' ≡ serial_write cs (sent u)
    pub same_received : received u' ≡ received u

  -- `serial_write`, where the fuel of each wait is more than the latency of the transmitter, ends. It
  -- sends every byte, in order, and takes nothing from what is received.
  pub write_lem :
      (fuel : ℕ) (cs : List ℕ) (u : State)
      → latency < fuel
      → (u' : State) × (write uart fuel cs u ≡ some u') × IsSent u cs u'
  unfolding write write_char serial_write
  write_lem fuel [] u enough = (u, refl, record { all_sent = refl; same_received = refl })
  write_lem fuel (c ∷ cs) u enough =
      let waited = wait_empty_lem fuel u (omega (arith, uart.busy_bounded u)) in
      let rest = write_lem fuel cs (uart.data_out (u8 c) waited.0) enough in
      let one = uart.out_sent (u8 c) waited.0 waited.2.free in
      (
        rest.0,
        rw (waited.1, write) rest.1,
        record {
          all_sent =
              rest.2.all_sent ∙ ap (serial_write cs) (one ∙ ap (λ s. u8 c ∷ s) waited.2.same_sent);
          same_received =
              rest.2.same_received ∙ uart.out_received (u8 c) waited.0 ∙ waited.2.same_received;
        },
      )
