-- ===== src/Serial/Uart/Receive.antt =====
-- The handler of COM1 takes every byte that waits.
use little_os.Base.{
  ℕ, zero, suc, ◌<◌, ◌≡◌, refl, ◌∙◌, ap, true, false, some, List, [], ◌∷◌, bit_and, ◌==◌, length,
  take, ◌++◌, u8, arith,
}
use little_os.Keyboard.{Keyboard}
use mathlib.Core.List.{map}
use little_os.Keyboard.Queue.{Input}
use little_os.Keyboard.Refine.{IsValid, contents, view}
use little_os.Serial.{serial_interrupt}
use little_os.Serial.Ring.{serial_interrupt-IsValid, serial_interrupt-Fills}
use little_os.Serial.Uart.{
  Uart, is_empty, serial_receive, read_char, feed, serial_interrupt_handler,
}

module _ (uart : Uart) where
  open uart use {State, status, data_in, received, sent}

  -- `serial_read_char` gives the oldest byte that waits, or -1 when there is none, and sends nothing.
  pub read_char-waiting :
      (u : State) (c : ℕ) (cs : List ℕ)
      → received u ≡ c ∷ cs
      → ((read_char uart u).0 ≡ some c)
        × (received (read_char uart u).1 ≡ cs)
        × (sent (read_char uart u).1 ≡ sent u)
  unfolding read_char serial_receive
  read_char-waiting u c cs e =
      let ready : (bit_and (status u).0 1 == 0) ≡ false = uart.ready_bit u ∙ ap is_empty e in
      let byte = uart.in_byte (status u).1 c cs (uart.status_received u ∙ e) in
      rw (read_char, ready) (ap some byte.0, byte.1, uart.in_sent (status u).1 ∙ uart.status_sent u)

  -- What the handler leaves to the rest of the kernel.
  pub record IsTaken (u : State) (k : Keyboard) (u' : State) (k' : Keyboard) : Type 0 where
    pub valid : IsValid k'
    pub filled : contents k' ≡ take 256 (contents k ++ map u8 (received u))
    pub same_shift : k'.shift_active ≡ k.shift_active
    pub none_left : received u' ≡ []
    pub same_sent : sent u' ≡ sent u

  -- The loop calls `put_char` on every byte that waits.
  record IsFed (u : State) (k : Keyboard) (u' : State) (k' : Keyboard) : Type 0 where
    fed : k' ≡ serial_interrupt (received u) k
    none_left : received u' ≡ []
    same_sent : sent u' ≡ sent u

  feed_all :
      (cs : List ℕ) (fuel : ℕ) (u : State) (k : Keyboard)
      → received u ≡ cs
      → length cs < fuel
      → (r : State × Keyboard) × (serial_interrupt_handler uart fuel u k ≡ some r)
        × IsFed u k r.0 r.1
  unfolding serial_interrupt_handler serial_receive feed serial_interrupt
  feed_all cs zero u k e enough = absurd (omega arith)
  feed_all [] (suc fuel) u k e enough =
      let ready : (bit_and (status u).0 1 == 0) ≡ true = uart.ready_bit u ∙ ap is_empty e in
      (
        ((status u).1, k),
        rw (ready, serial_interrupt_handler) refl,
        record {
          fed = rw e refl;
          none_left = uart.status_received u ∙ e;
          same_sent = uart.status_sent u;
        },
      )
  feed_all (c ∷ cs) (suc fuel) u k e enough =
      let u1 : State = (status u).1 in
      let ready : (bit_and (status u).0 1 == 0) ≡ false = uart.ready_bit u ∙ ap is_empty e in
      let taken = read_char-waiting u1 c cs (uart.status_received u ∙ e) in
      let rest =
        feed_all cs fuel (read_char uart u1).1 (feed (read_char uart u1).0 k) taken.1
          (omega arith) in
      (
        rest.0,
        rw (ready, serial_interrupt_handler) rest.1,
        record {
          fed = rest.2.fed ∙ rw (e, taken.0, taken.1) refl;
          none_left = rest.2.none_left;
          same_sent = rest.2.same_sent ∙ taken.2 ∙ uart.status_sent u;
        },
      )

  -- `serial_interrupt_handler`, with fuel for one turn more than bytes wait and on a valid ring, ends.
  -- It takes all the bytes from the UART, and sends nothing. The ring then holds what it held and
  -- behind that the bytes, in their order, up to the 256 characters that it has room for. The bytes
  -- that do not fit are lost.
  pub serial_interrupt_handler_lem :
      (fuel : ℕ) (u : State) (k : Keyboard)
      → IsValid k
      → length (received u) < fuel
      → (r : State × Keyboard) × (serial_interrupt_handler uart fuel u k ≡ some r)
        × IsTaken u k r.0 r.1
  serial_interrupt_handler_lem fuel u k v enough =
      let (r, run, f) = feed_all (received u) fuel u k refl enough in
      let ring : view r.1 ≡ record {
        shift = k.shift_active;
        pending = take 256 (contents k ++ map u8 (received u));
      } =
        ap view f.fed ∙ serial_interrupt-Fills (received u) k v in
      (
        r,
        run,
        record {
          valid = rw f.fed (serial_interrupt-IsValid (received u) k v);
          filled = ap (λ (i : Input). i.pending) ring;
          same_shift = ap (λ (i : Input). i.shift) ring;
          none_left = f.none_left;
          same_sent = f.same_sent;
        },
      )
