-- ===== src/Serial/Ring.antt =====
-- What the interrupt handler of the UART puts into the ring buffer of the keyboard.
use little_os.Base.{
  ℕ, zero, suc, ◌≤◌, ◌<◌, ◌++◌, length, take, length-append, arith, ◌≡◌, refl, ◌∙◌, ap, List, [],
  ◌∷◌, u8, dec_lt,
}
use mathlib.Core.List.{map}
use little_os.Keyboard.{Keyboard, put_char}
use little_os.Keyboard.Queue.{Input, enqueue}
use little_os.Keyboard.Refine.{
  IsValid, put_char-IsValid, view, view-put_char, contents, length-window,
}
use little_os.Serial.{serial_interrupt}

pub serial_interrupt-IsValid :
    (cs : List ℕ) (k : Keyboard) → IsValid k → IsValid (serial_interrupt cs k)
unfolding serial_interrupt
serial_interrupt-IsValid [] k v = v
serial_interrupt-IsValid (c ∷ cs) k v =
    serial_interrupt-IsValid cs (put_char (u8 c) k) (put_char-IsValid (u8 c) k v)

-- The FIFO behind the bytes of the line.
unfoldable pub enqueue_all : List ℕ → Input → Input
enqueue_all [] i = i
enqueue_all (c ∷ cs) i = enqueue_all cs (record i { pending = enqueue (u8 c) i.pending })

pub serial_interrupt_refines :
    (cs : List ℕ) (k : Keyboard)
    → IsValid k
    → view (serial_interrupt cs k) ≡ enqueue_all cs (view k)
unfolding serial_interrupt enqueue_all
serial_interrupt_refines [] k v = refl
serial_interrupt_refines (c ∷ cs) k v =
    serial_interrupt_refines cs (put_char (u8 c) k) (put_char-IsValid (u8 c) k v)
    ∙ ap (enqueue_all cs) (view-put_char (u8 c) k v)

append-append : (xs ys zs : List ℕ) → (xs ++ ys) ++ zs ≡ xs ++ (ys ++ zs)
append-append [] ys zs = refl
append-append (x ∷ xs) ys zs = ap (λ (r : List ℕ). x ∷ r) (append-append xs ys zs)

take_full : (n : ℕ) (q more : List ℕ) → length q ≡ n → take n (q ++ more) ≡ q
take_full zero [] more e = refl
take_full (suc n) [] more e = absurd (omega (arith, e))
take_full zero (x ∷ q) more e = absurd (omega (arith, e))
take_full (suc n) (x ∷ q) more e =
    ap (λ (r : List ℕ). x ∷ r) (take_full n q more (omega (arith, e)))

take_room : (n : ℕ) (q : List ℕ) → length q ≤ n → take n (q ++ []) ≡ q
take_room zero [] h = refl
take_room (suc n) [] h = refl
take_room zero (x ∷ q) h = absurd (omega (arith, h))
take_room (suc n) (x ∷ q) h = ap (λ (r : List ℕ). x ∷ r) (take_room n q (omega (arith, h)))

enqueue_room : (c : ℕ) (q : List ℕ) → length q < 256 → enqueue (u8 c) q ≡ q ++ (u8 c ∷ [])
unfolding enqueue
enqueue_room c q room = let byte : u8 (u8 c) ≡ u8 c = omega arith in ground (arith, byte)

enqueue_full : (c : ℕ) (q : List ℕ) → length q ≡ 256 → enqueue c q ≡ q
unfolding enqueue
enqueue_full c q full = ground arith

-- The bytes that fit are taken in their order, and the others are dropped.
fill :
    (cs : List ℕ) (i : Input)
    → length i.pending ≤ 256
    → enqueue_all cs i ≡ record i { pending = take 256 (i.pending ++ map u8 cs) }
unfolding enqueue_all
fill [] i h = rw (take_room 256 i.pending h) refl
fill (c ∷ cs) i h = elim (dec_lt (length i.pending) 256) [
  | yes room ↦
      let short : length (i.pending ++ (u8 c ∷ [])) ≤ 256 =
        omega (arith, room, length-append i.pending (u8 c ∷ [])) in
      rw (enqueue_room c i.pending room) (
        fill cs (record i { pending = i.pending ++ (u8 c ∷ []) }) short
        ∙ rw (append-append i.pending (u8 c ∷ []) (map u8 cs)) refl)
  | no full ↦
      let at : length i.pending ≡ 256 = omega (arith, full, h) in
      let none_fits : (more : List ℕ) → take 256 (i.pending ++ more) ≡ i.pending =
        λ more. take_full 256 i.pending more at in
      rw (enqueue_full (u8 c) i.pending at)
        (fill cs i h ∙ rw (none_fits (map u8 cs), none_fits (map u8 (c ∷ cs))) refl)
]

-- The ring behind the bytes of the line.
pub serial_interrupt-Fills :
    (cs : List ℕ) (k : Keyboard)
    → IsValid k
    → view (serial_interrupt cs k)
      ≡ record { shift = k.shift_active; pending = take 256 (contents k ++ map u8 cs) }
serial_interrupt-Fills cs k v =
    serial_interrupt_refines cs k v
    ∙ fill cs (view k) (omega (arith, length-window k.buffer k.head k.count, v.count_in))
