-- ===== src/Keyboard/Queue.antt =====
-- What the keyboard driver promises: a FIFO of at most 256 characters, which drops what does not
-- fit, behind a shift key.
use little_os.Base.{
  ℕ, Bool, true, false, Option, none, some, List, [], ◌∷◌, ◌++◌, ltb, leb, ◌==◌, ◌||◌,
  if◌then◌else◌, u8, length, get_or,
}
use little_os.Keyboard.Layout.{us_ascii, us_ascii_shift}

pub record Input : Type 0 where
  pub shift : Bool
  pub pending : List ℕ

unfoldable pub enqueue : ℕ → List ℕ → List ℕ
enqueue c q = if ltb (length q) 256 then q ++ (u8 c ∷ []) else q

unfoldable pub dequeue : Input → List ℕ → Option ℕ × Input
dequeue i [] = (none, i)
dequeue i (c ∷ q) = (some c, record i { pending = q })

-- What a scancode means: shift goes down or up, a key types a character, or nothing happens.
pub data Key : Type 0 where
  shift_down shift_up silent : Key
  types : (plain shifted : ℕ) → Key

-- The byte 0x80 and above is a key that is let go.
unfoldable pub meaning : ℕ → Key
meaning s =
    if s == 0x2A || s == 0x36
    then shift_down
    else if s == 0xAA || s == 0xB6
    then shift_up
    else if leb 0x80 s || get_or us_ascii s 0 == 0
    then silent
    else types (get_or us_ascii s 0) (get_or us_ascii_shift s 0)

unfoldable pub press : Key → Input → Input
press shift_down i = record i { shift = true }
press shift_up i = record i { shift = false }
press silent i = i
press (types plain shifted) i = record i {
  pending = enqueue (if i.shift then shifted else plain) i.pending;
}

-- What reaches the driver: a keyboard interrupt with its scancode, a character from the serial
-- port, or a call of `keyboard_getchar`.
pub data Event : Type 0 where
  key : ℕ → Event
  char : ℕ → Event
  read : Event

-- The replies of the reads, in order.
unfoldable pub run : Input → List Event → List (Option ℕ)
run i [] = []
run i (key s ∷ es) = run (press (meaning s) i) es
run i (char c ∷ es) = run (record i { pending = enqueue c i.pending }) es
run i (read ∷ es) = let (c, i') = dequeue i i.pending in c ∷ run i' es
