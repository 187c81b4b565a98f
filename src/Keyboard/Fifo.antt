-- ===== src/Keyboard/Fifo.antt =====
-- The states of the driver, up to where in the ring the characters stand, are the FIFOs.
use little_os.Base.{
  ℕ, zero, suc, ◌+◌, ◌%◌, ◌<◌, ◌≤◌, ◌≡◌, refl, ◌∙◌, ap, List, [], ◌∷◌, All, u8, length, get_or,
  arith,
}
use mathlib.Core.Equiv.{◌≃◌, iso_to_equiv}
use mathlib.Core.HLevel.{Σ_prop_path, ×_prop, Σ_set, prop→set}
use native.Mathlib.Bridge.{le_prop}
use mathlib.Core.Quot
use mathlib.Core.Quot.{Quot, Quot-set}
use little_os.Keyboard.{Keyboard, buffer_size, put_char, getchar}
use little_os.Keyboard.Queue.{Input, enqueue, dequeue}
use little_os.Keyboard.Refine.{
  IsValid, window, length-window, view, put_char-IsValid, getchar-IsValid, getchar_refines,
  view-put_char,
}

abbrev pub Ring : Type 0
Ring = (k : Keyboard) × IsValid k

-- The same characters are pending, wherever they stand, and shift is the same.
abbrev pub SameView : Ring → Ring → Type 0
SameView r r' = view r.0 ≡ view r'.0

-- At most 256 characters, each a byte.
abbrev pub IsFifo : Input → Type 0
IsFifo i = (length i.pending ≤ 256) × All (λ c. c < 256) i.pending

abbrev pub Fifo : Type 0
Fifo = (i : Input) × IsFifo i

are_bytes_prop : (q : List ℕ) → IsProp (All (λ c. c < 256) q)
are_bytes_prop [] = hlevel
are_bytes_prop (c ∷ q) = ×_prop le_prop (are_bytes_prop q)

IsFifo-prop : (i : Input) → IsProp (IsFifo i)
IsFifo-prop i = ×_prop le_prop (are_bytes_prop i.pending)

input_set : IsSet Input
input_set = hlevel

fifo_set : IsSet Fifo
fifo_set = Σ_set input_set (λ i. prop→set (IsFifo-prop i))

window_bytes : (buf : ℕ → ℕ) (h n : ℕ) → All (λ c. c < 256) (window buf h n)
window_bytes buf h zero = tt
window_bytes buf h (suc n) = (omega arith, window_bytes buf ((h + 1) % buffer_size) n)

-- The FIFO of a state.
fifo : Ring → Fifo
fifo (k, v) = (
  view k,
  (
    omega (arith, length-window k.buffer k.head k.count, v.count_in),
    window_bytes k.buffer k.head k.count,
  ),
)

-- A state for a FIFO: its characters from the start of the buffer on.
ring : Fifo → Ring
ring (i, fits) = (
  record {
    shift_active = i.shift;
    buffer = λ x. get_or i.pending x 0;
    head = 0;
    tail = length i.pending % buffer_size;
    count = length i.pending;
  },
  record { head_in = omega arith; count_in = fits.0; tail_at = omega arith },
)

window-get_or :
    (q : List ℕ) (buf : ℕ → ℕ) (h : ℕ)
    → h < buffer_size
    → All (λ c. c < 256) q
    → ((x : ℕ) → x < length q → buf ((h + x) % buffer_size) ≡ get_or q x 0)
    → window buf h (length q) ≡ q
window-get_or [] buf h at small same = refl
window-get_or (c ∷ q) buf h at small same =
    let place : (h + 0) % buffer_size ≡ h = omega arith in
    let first : buf h ≡ c = rw place at (same 0 (omega arith)) in
    let byte : u8 (buf h) ≡ c = omega (arith, first, small.0) in
    let later =
      window-get_or q buf ((h + 1) % buffer_size) (omega arith) small.1
        (λ x below. ap buf (omega arith) ∙ same (suc x) (omega (arith, below))) in
    rw (byte, later) refl

fifo-ring : (f : Fifo) → fifo (ring f) ≡ f
unfolding fifo ring
fifo-ring (i, fits) = Σ_prop_path IsFifo-prop (
    ap (λ (q : List ℕ). record { shift = i.shift; pending = q })
      (window-get_or i.pending (λ x. get_or i.pending x 0) 0 (omega arith) fits.1
        (λ x below. ap (λ (j : ℕ). get_or i.pending j 0) (omega (arith, below, fits.0)))))

fifo_equiv : Quot SameView ≃ Fifo
unfolding fifo
fifo_equiv = iso_to_equiv (record {
  fun = Quot.lift fifo_set fifo (λ r r' same. Σ_prop_path IsFifo-prop same);
  inv = λ f. Quot.mk (ring f);
  rinv = fifo-ring;
  linv =
      Quot.ind (λ q. Quot-set _ _) (λ r. Quot.sound (ap (λ (f : Fifo). f.0) (fifo-ring (fifo r))));
})

-- The operations of the driver, on its valid states.
abbrev pub put : ℕ → Ring → Ring
put c (k, v) = (put_char c k, put_char-IsValid c k v)

abbrev pub take : Ring → Ring
take (k, v) = ((getchar k).1, getchar-IsValid k v)

-- The valid states of the driver, where two are one that have the same characters pending and the same
-- shift key, are the FIFOs of at most 256 bytes: each FIFO is the contents of a valid ring, and of one
-- only up to where in the buffer its characters stand. Putting a character into the ring and
-- taking one from it are adding to the FIFO, unless it is full, and taking its oldest one.
pub Ring-Fifo :
    (e : Quot SameView ≃ Fifo) × ((c : ℕ) (r : Ring)
      → (e.0 (Quot.mk (put c r))).0
        ≡ record (e.0 (Quot.mk r)).0 { pending = enqueue c (e.0 (Quot.mk r)).0.pending })
    × ((r : Ring)
        → ((getchar r.0).0, (e.0 (Quot.mk (take r))).0)
          ≡ dequeue (e.0 (Quot.mk r)).0 (e.0 (Quot.mk r)).0.pending)
unfolding fifo_equiv fifo
Ring-Fifo = (fifo_equiv, (λ c r. view-put_char c r.0 r.1), (λ r. getchar_refines r.0 r.1))
