-- ===== src/Serial/Uart/Sample.antt =====
-- A UART that is busy for one reading of its status behind each byte, for the examples.
use little_os.Base.{
  ◌-◌, ◌≤◌, not, bit_and, ◌==◌, ℕ, ◌≡◌, refl, Bool, true, false, List, [], ◌∷◌, arith,
}
use little_os.Serial.Uart.{Uart, is_empty}

pub record Line : Type 0 where
  pub waiting : List ℕ
  pub out : List ℕ
  pub shifting : Bool

abbrev line_status : List ℕ → Bool → ℕ
line_status [] true = 0
line_status [] false = 0x20
line_status (c ∷ cs) true = 1
line_status (c ∷ cs) false = 0x21

abbrev take_in : List ℕ → Bool → List ℕ → ℕ × Line
take_in out shifting [] = (0, record { waiting = []; out = out; shifting = shifting })
take_in out shifting (c ∷ cs) = (c, record { waiting = cs; out = out; shifting = shifting })

abbrev turns : Bool → ℕ
turns true = 1
turns false = 0

abbrev pub line : Uart
line = record {
  State = Line;
  status = λ u. (line_status u.waiting u.shifting, record u { shifting = false });
  data_in = λ u. take_in u.out u.shifting u.waiting;
  data_out = λ c u. record u { out = c ∷ u.out; shifting = true };
  received = λ u. u.waiting;
  sent = λ u. u.out;
  busy = λ u. turns u.shifting;
  latency = 1;
  ready_bit = λ u. ready u.waiting u.shifting;
  free_bit = λ u. free u.waiting u.shifting;
  busy_bounded = λ u. bounded u.shifting;
  status_busy = λ u. counted u.shifting;
  status_received = λ u. refl;
  status_sent = λ u. refl;
  in_byte = λ u c cs e. rw e (refl, refl);
  in_sent = λ u. kept u.out u.shifting u.waiting;
  out_received = λ c u. refl;
  out_sent = λ c u idle. refl;
}
  where
    ready : (cs : List ℕ) (b : Bool) → (bit_and (line_status cs b) 1 == 0) ≡ is_empty cs
    ready [] true = refl
    ready [] false = refl
    ready (c ∷ cs) true = refl
    ready (c ∷ cs) false = refl

    free : (cs : List ℕ) (b : Bool) → (bit_and (line_status cs b) 0x20 == 0) ≡ not (turns b == 0)
    free [] true = refl
    free [] false = refl
    free (c ∷ cs) true = refl
    free (c ∷ cs) false = refl

    bounded : (b : Bool) → turns b ≤ 1
    bounded true = omega arith
    bounded false = omega arith

    counted : (b : Bool) → 0 ≡ turns b - 1
    counted true = refl
    counted false = refl

    kept : (out : List ℕ) (b : Bool) (cs : List ℕ) → Line.out (take_in out b cs).1 ≡ out
    kept out b [] = refl
    kept out b (c ∷ cs) = refl
