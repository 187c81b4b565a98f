-- ===== src/Keyboard/Refine.antt =====
-- The ring buffer refines the FIFO: through `contents`, each call of the driver is a call of the
-- queue, and no sequence of interrupts and reads tells them apart.
use little_os.Base.{
  ℕ, zero, suc, ◌+◌, ◌-◌, ◌%◌, ◌≤◌, ◌<◌, ◌≡◌, refl, ap, List, [], ◌∷◌, ◌++◌, u8, length, store8,
  store8_self, store8_ne, arith, ◌==◌, all_below, all_below_sound, same, same-eq, get_or, bit_and,
  not, true, leb,
}
use little_os.Keyboard.{Keyboard, buffer_size, put_char, getchar, interrupt_handler, keyboard_init}
use little_os.Keyboard.Queue
use little_os.Keyboard.Layout.{us_ascii, us_ascii_shift}
use little_os.Keyboard.Queue.{Input, Event, key, char, read, press, meaning}

-- The counters are in range and agree.
pub record IsValid (k : Keyboard) : Type 0 where
  pub head_in : k.head < buffer_size
  pub count_in : k.count ≤ buffer_size
  pub tail_at : k.tail ≡ (k.head + k.count) % buffer_size

-- The `n` characters from index `h` on, going round.
abbrev pub window : (ℕ → ℕ) → (h n : ℕ) → List ℕ
window buf h zero = []
window buf h (suc n) = u8 (buf h) ∷ window buf ((h + 1) % buffer_size) n

abbrev pub contents : Keyboard → List ℕ
contents k = window k.buffer k.head k.count

pub length-window : (buf : ℕ → ℕ) (h n : ℕ) → length (window buf h n) ≡ n
length-window buf h zero = refl
length-window buf h (suc n) = ap suc (length-window buf ((h + 1) % buffer_size) n)

window_of_pos :
    (buf : ℕ → ℕ) (h n : ℕ)
    → 0 < n
    → window buf h n ≡ u8 (buf h) ∷ window buf ((h + 1) % buffer_size) (n - 1)
window_of_pos buf h zero p = absurd (omega arith)
window_of_pos buf h (suc n) p = ap (λ k. window buf h (suc k)) (omega arith)

-- Writing just past a window extends it by that character.
window-store8 :
    (buf : ℕ → ℕ) (c n h i : ℕ)
    → h < buffer_size
    → n < buffer_size
    → i ≡ (h + n) % buffer_size
    → window (store8 buf i c) h (suc n) ≡ window buf h n ++ (u8 c ∷ [])
window-store8 buf c zero h i hh hn e =
    let at : i ≡ h = omega arith in ground (arith, store8_self buf h c)
window-store8 buf c (suc n) h i hh hn e =
    ground (arith, store8_ne buf i c h, window-store8 buf c n ((h + 1) % buffer_size) i)

pub put_char-IsValid : (c : ℕ) (k : Keyboard) → IsValid k → IsValid (put_char c k)
unfolding put_char
put_char-IsValid c k v = ground arith

shift-put_char : (c : ℕ) (k : Keyboard) → (put_char c k).shift_active ≡ k.shift_active
unfolding put_char
shift-put_char c k = ground arith

pub getchar-IsValid : (k : Keyboard) → IsValid k → IsValid (getchar k).1
unfolding getchar
getchar-IsValid k v = ground arith

-- A valid keyboard writes and reads inside the buffer.
pub put_char_refines :
    (c : ℕ) (k : Keyboard) → IsValid k → contents (put_char c k) ≡ Queue.enqueue c (contents k)
unfolding put_char Queue.enqueue
put_char_refines c k v =
    ground
      (arith, length-window k.buffer k.head k.count, window-store8 k.buffer c k.count k.head k.tail)

abbrev pub view : Keyboard → Input
view k = record { shift = k.shift_active; pending = contents k }

pub getchar_refines :
    (k : Keyboard)
    → IsValid k
    → (let (c, k') = getchar k in (c, view k')) ≡ Queue.dequeue (view k) (contents k)
unfolding getchar Queue.dequeue
getchar_refines k v = ground (arith, window_of_pos k.buffer k.head k.count)

-- The handler's test of bit 7, and the two tables: a key types with shift exactly if it types
-- without.
bit_seven_table : all_below 256 (λ s. same (not (bit_and s 0x80 == 0)) (leb 0x80 s)) ≡ true
unfolding all_below
bit_seven_table = refl

typing_table :
    all_below 128 (λ s. same (get_or us_ascii s 0 == 0) (get_or us_ascii_shift s 0 == 0)) ≡ true
unfolding all_below us_ascii us_ascii_shift
typing_table = refl

bit_seven : (s : ℕ) → s < 256 → not (bit_and s 0x80 == 0) ≡ leb 0x80 s
bit_seven s h = same-eq _ _ (all_below_sound 256 _ s bit_seven_table h)

typing : (s : ℕ) → s < 128 → (get_or us_ascii s 0 == 0) ≡ (get_or us_ascii_shift s 0 == 0)
typing s h = same-eq _ _ (all_below_sound 128 _ s typing_table h)

pub view-put_char :
    (c : ℕ) (k : Keyboard)
    → IsValid k
    → view (put_char c k)
      ≡ record { shift = k.shift_active; pending = Queue.enqueue c (contents k) }
view-put_char c k v = ground (arith, put_char_refines c k v, shift-put_char c k)

-- In a valid state, the handler does to the FIFO what the scancode, a byte, means.
pub interrupt_handler_refines :
    (s : ℕ) (k : Keyboard)
    → s < 256
    → IsValid k
    → view (interrupt_handler s k) ≡ press (meaning s) (view k)
unfolding interrupt_handler press meaning
interrupt_handler_refines s k byte v = ground (
  arith,
  bit_seven s,
  typing s,
  view-put_char (get_or us_ascii s 0) k v,
  view-put_char (get_or us_ascii_shift s 0) k v,
)

-- `keyboard_init` leaves an empty ring.
pub keyboard_init-IsValid : (k : Keyboard) → IsValid (keyboard_init k)
unfolding keyboard_init
keyboard_init-IsValid k = record { head_in = omega arith; count_in = omega arith; tail_at = refl }

pub contents-keyboard_init : (k : Keyboard) → contents (keyboard_init k) ≡ []
unfolding keyboard_init
contents-keyboard_init k = refl
