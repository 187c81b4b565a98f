-- ===== src/Keyboard.antt =====
-- drivers/keyboard.c: the scancode decoder and the ring buffer of decoded characters.
-- A `char` is its byte. The -1 of `keyboard_getchar` is `none`. The byte that the interrupt
-- handler reads from port 0x60 is its argument.
pub mod Layout
pub mod Queue
pub mod Refine
pub mod Runs
pub mod Wait
pub mod Interleave
pub mod Fifo
mod Examples
use little_os.Base.{
  ℕ, zero, suc, ◌+◌, ◌-◌, ◌%◌, Bool, true, false, not, ◌||◌, Option, none, some, List, [], ◌∷◌,
  bit_and, ltb, ◌==◌, if◌then◌else◌, u8, store8, get_or,
}
use little_os.Keyboard.Layout.{us_ascii, us_ascii_shift}
use little_os.Keyboard.Queue.{Event, key, char, read}

abbrev pub buffer_size : ℕ
buffer_size = 256

-- `kbd_buffer` is a function of the index. The counters are `uint32_t`: they stay below 257, so
-- that their increments do not wrap.
pub record Keyboard : Type 0 where
  pub shift_active : Bool
  pub buffer : ℕ → ℕ
  pub head : ℕ
  pub tail : ℕ
  pub count : ℕ

pub put_char : ℕ → Keyboard → Keyboard
put_char c k =
    if ltb k.count buffer_size
    then record k {
      buffer = store8 k.buffer k.tail c;
      tail = (k.tail + 1) % buffer_size;
      count = k.count + 1;
    }
    else k

pub has_char : Keyboard → Bool
has_char k = ltb 0 k.count

unfoldable pub getchar : Keyboard → Option ℕ × Keyboard
getchar k = if k.count == 0 then (none, k) else (
  some (u8 (k.buffer k.head)),
  record k { head = (k.head + 1) % buffer_size; count = k.count - 1 },
)

-- `keyboard_interrupt_handler`
pub interrupt_handler : ℕ → Keyboard → Keyboard
interrupt_handler scancode k =
    if scancode == 0x2A || scancode == 0x36
    then record k { shift_active = true }
    else if scancode == 0xAA || scancode == 0xB6
    then record k { shift_active = false }
    else if not (bit_and scancode 0x80 == 0)
    then k
    else if ltb scancode 128
    then (let c =
          if k.shift_active then get_or us_ascii_shift scancode 0 else get_or us_ascii scancode 0 in
        if not (c == 0) then put_char c k else k)
    else k

-- The driver under a sequence of events, with the replies of its reads.
pub run : Keyboard → List Event → List (Option ℕ)
run k [] = []
run k (key s ∷ es) = run (interrupt_handler s k) es
run k (char c ∷ es) = run (put_char c k) es
run k (read ∷ es) = let (c, k') = getchar k in c ∷ run k' es

-- `keyboard_read_char`, which halts until an interrupt comes while the buffer is empty. The list
-- is the scancodes of the coming keyboard interrupts; `none` is a wait that has not ended.
pub read_char : List ℕ → Keyboard → Option ℕ × Keyboard
read_char [] k = if has_char k then getchar k else (none, k)
read_char (s ∷ later) k = elim (has_char k) [
  | true ↦ getchar k
  | false ↦ read_char later (interrupt_handler s k)
]

-- The counters of `keyboard_init`. It registers the handler for vector 33 and then drains the
-- controller.
pub keyboard_init : Keyboard → Keyboard
keyboard_init k = record k { head = 0; tail = 0; count = 0 }

-- The drain of `keyboard_init`: `status i` is the `i`-th byte read from the status port, and the
-- result is how many bytes it has read from the data port.
pub drain : (status : ℕ → ℕ) → (fuel i : ℕ) → Option ℕ
drain status zero i = none
drain status (suc fuel) i = elim (bit_and (status i) 0x01 == 0) [
  | true ↦ some i
  | false ↦ drain status fuel (i + 1)
]
