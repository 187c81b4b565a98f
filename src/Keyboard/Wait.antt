-- ===== src/Keyboard/Wait.antt =====
-- A blocked `keyboard_read_char`, and the drain of `keyboard_init`.
use little_os.Base.{
  ℕ, zero, suc, ◌+◌, ◌≤◌, ◌<◌, ◌≡◌, ◌≢◌, refl, ◌∙◌, ap, Bool, true, false, Option, some, List, [],
  ◌∷◌, ◌++◌, All, length, u8, arith, if◌then◌else◌, bit_and, dec_lt,
}
use little_os.Keyboard.{Keyboard, has_char, getchar, interrupt_handler, read_char, drain}
use little_os.Keyboard.Queue.{
  Input, Key, shift_down, shift_up, silent, types, press, meaning, enqueue, dequeue,
}
use little_os.Keyboard.Refine.{
  IsValid, length-window, contents, view, getchar_refines, interrupt_handler_refines,
}
use little_os.Keyboard.Runs.{interrupt_handler-IsValid}

-- The shift key after a key, and after a series of scancodes.
abbrev pub shift_with : Key → Bool → Bool
shift_with shift_down b = true
shift_with shift_up b = false
shift_with _ b = b

abbrev pub shift_after : List ℕ → Bool → Bool
shift_after [] b = b
shift_after (s ∷ ss) b = shift_after ss (shift_with (meaning s) b)

abbrev pub IsTyping : Key → Type 0
IsTyping (types plain shifted) = Unit
IsTyping _ = ⊥

-- A scancode byte that types nothing.
abbrev pub IsQuiet : ℕ → Type 0
IsQuiet s = (s < 256) × ¬ IsTyping (meaning s)

press-quiet :
    (x : Key) (i : Input)
    → ¬ IsTyping x
    → press x i ≡ record { shift = shift_with x i.shift; pending = i.pending }
unfolding press
press-quiet shift_down i h = refl
press-quiet shift_up i h = refl
press-quiet silent i h = refl
press-quiet (types p q) i h = absurd (h tt)

empty-has_char : (k : Keyboard) → contents k ≡ [] → has_char k ≡ false
unfolding has_char
empty-has_char k e = ground (arith, length-window k.buffer k.head k.count, ap length e)

cons-has_char : (k : Keyboard) (c : ℕ) (q : List ℕ) → contents k ≡ c ∷ q → has_char k ≡ true
unfolding has_char
cons-has_char k c q e = ground (arith, length-window k.buffer k.head k.count, ap length e)

read_char-ready :
    (later : List ℕ) (k : Keyboard) → has_char k ≡ true → read_char later k ≡ getchar k
unfolding read_char
read_char-ready [] k e = ground (arith, e)
read_char-ready (s ∷ later) k e = rw (e, read_char)

read_char-blocked :
    (s : ℕ) (later : List ℕ) (k : Keyboard)
    → has_char k ≡ false
    → read_char (s ∷ later) k ≡ read_char later (interrupt_handler s k)
unfolding read_char
read_char-blocked s later k e = rw (e, read_char)

type_one :
    (plain shifted : ℕ) (k : Keyboard)
    → contents k ≡ []
    → press (types plain shifted) (view k) ≡ record {
      shift = k.shift_active;
      pending = u8 (if k.shift_active then shifted else plain) ∷ [];
    }
unfolding press enqueue
type_one plain shifted k e = rw e

-- What the caller of `keyboard_read_char` gets, with the keyboard that it leaves.
abbrev pub Outcome : Type 0
Outcome = Option ℕ × Input

abbrev pub outcome : Option ℕ × Keyboard → Outcome
outcome (c, k) = (c, view k)

-- A read of a keyboard that holds one character.
getchar-one :
    (k : Keyboard) (c : ℕ) (i : Input)
    → IsValid k
    → view k ≡ record i { pending = c ∷ [] }
    → outcome (getchar k) ≡ (some c, record i { pending = [] })
unfolding dequeue
getchar-one k c i v e = getchar_refines k v ∙ ap (λ (j : Input). dequeue j j.pending) e

-- A call that finds the buffer empty waits through the interrupts that type nothing, returns the
-- character of the first key that types, under the shift key as it is then, and leaves the buffer
-- empty.
pub read_char_lem :
    (quiet : List ℕ) (s : ℕ) (later : List ℕ) (k : Keyboard) {plain shifted : ℕ}
    → All IsQuiet quiet
    → s < 256
    → meaning s ≡ types plain shifted
    → IsValid k
    → contents k ≡ []
    → outcome (read_char (quiet ++ (s ∷ later)) k) ≡ (
        let shift = shift_after quiet k.shift_active in
        (some (u8 (if shift then shifted else plain)), record { shift = shift; pending = [] }))
read_char_lem [] s later k {plain} {shifted} q byte typing v empty =
    let k' = interrupt_handler s k in
    let c : ℕ = u8 (if k.shift_active then shifted else plain) in
    let typed : view k' ≡ record { shift = k.shift_active; pending = c ∷ [] } =
      interrupt_handler_refines s k byte v ∙ rw typing (type_one plain shifted k empty) in
    ap outcome (
      read_char-blocked s later k (empty-has_char k empty)
      ∙ read_char-ready later k' (cons-has_char k' c [] (ap (λ (i : Input). i.pending) typed)))
    ∙ getchar-one k' c (view k) (interrupt_handler-IsValid s k v) typed
read_char_lem (r ∷ quiet) s later k q byte typing v empty =
    let k' = interrupt_handler r k in
    let passed : view k'
        ≡ record { shift = shift_with (meaning r) k.shift_active; pending = contents k } =
      interrupt_handler_refines r k q.0.0 v ∙ press-quiet (meaning r) (view k) q.0.1 in
    ap outcome (read_char-blocked r (quiet ++ (s ∷ later)) k (empty-has_char k empty))
    ∙ read_char_lem quiet s later k' q.1 byte typing (interrupt_handler-IsValid r k v)
        (ap (λ (i : Input). i.pending) passed ∙ empty)
    ∙ rw (ap (λ (i : Input). i.shift) passed)

drain_from :
    (status : ℕ → ℕ) (pending : ℕ)
    → ((i : ℕ) → i < pending → bit_and (status i) 1 ≢ 0)
    → bit_and (status pending) 1 ≡ 0
    → (fuel i : ℕ) → i ≤ pending
    → pending < i + fuel
    → drain status fuel i ≡ some pending
unfolding drain
drain_from status pending busy idle zero i le enough = absurd (omega arith)
drain_from status pending busy idle (suc fuel) i le enough = elim (dec_lt i pending) [
  | yes more ↦ ground (
    arith,
    busy i more,
    drain_from status pending busy idle fuel (i + 1) (omega arith) (omega arith),
  )
  | no done ↦ let same : i ≡ pending = omega arith in rw same (ground (arith, idle))
]

-- The drain of `keyboard_init` reads and drops exactly the bytes that are there, and ends.
pub drain_lem :
    (status : ℕ → ℕ) (pending fuel : ℕ)
    → ((i : ℕ) → i < pending → bit_and (status i) 1 ≢ 0)
    → bit_and (status pending) 1 ≡ 0
    → pending < fuel
    → drain status fuel 0 ≡ some pending
drain_lem status pending fuel busy idle enough =
    drain_from status pending busy idle fuel 0 (omega arith) (omega arith)
