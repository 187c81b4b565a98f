-- ===== src/Keyboard/Interleave.antt =====
-- `keyboard_getchar` with interrupts inside: SYS_READ calls it with the interrupts enabled.
-- The call goes access by access, in the order of the source; `kbd_buf_count--` is a load and a store.
pub mod Lost
mod Examples
use little_os.Base.{
  ℕ, ◌+◌, ◌-◌, ◌%◌, ◌<◌, ◌≤◌, ◌≡◌, ◌⊎◌, inl, inr, refl, sym, ◌∙◌, ap, Option, none, some, List, [],
  ◌∷◌, ◌++◌, u8, ◌==◌, if◌then◌else◌, true, false, Bool-cases, arith, store8, store8_ne,
}
use mathlib.Core.Path.{subst}
use little_os.Keyboard.{Keyboard, buffer_size, put_char, getchar, interrupt_handler}
use little_os.Keyboard.Refine.{IsValid, contents, window, put_char-IsValid}
use little_os.Keyboard.Runs.{interrupt_handler-IsValid}

-- The keyboard interrupts that come in a gap between two accesses, by their scancodes.
unfoldable pub presses : List ℕ → Keyboard → Keyboard
presses [] k = k
presses (s ∷ ss) k = presses ss (interrupt_handler s k)

-- What comes in the gaps of a call: before the character is read, before the head moves, before the
-- count is loaded, and before it is stored.
pub record Gaps : Type 0 where
  pub to_read : List ℕ
  pub to_move : List ℕ
  pub to_load : List ℕ
  pub to_store : List ℕ

-- `keyboard_getchar` from its test on; the result and what the call leaves.
unfoldable pub getchar_between : Gaps → Keyboard → Option ℕ × Keyboard
getchar_between g k =
    if k.count == 0
    then (none, k)
    else (let k1 = presses g.to_read k in
        let c = u8 (k1.buffer k1.head) in
        let k2 = presses g.to_move k1 in
        let k3 = presses g.to_load (record k2 { head = (k2.head + 1) % buffer_size }) in
        let count = k3.count in
        let k4 = presses g.to_store k3 in (some c, record k4 { count = count - 1 }))

-- What interrupts leave to a reader of a ring that is not empty.
record Stays (k k' : Keyboard) : Type 0 where
  valid : IsValid k'
  same_head : k'.head ≡ k.head
  same_char : k'.buffer k.head ≡ k.buffer k.head
  more : 0 < k'.count

put_char-Stays : (c : ℕ) (k : Keyboard) → IsValid k → 0 < k.count → Stays k (put_char c k)
unfolding put_char store8
put_char-Stays c k v more = record {
  valid = put_char-IsValid c k v;
  same_head = ground arith;
  same_char = ground (arith, v.tail_at, v.head_in);
  more = ground arith;
}

interrupt_handler-Stays :
    (s : ℕ) (k : Keyboard) → IsValid k → 0 < k.count → Stays k (interrupt_handler s k)
unfolding interrupt_handler
interrupt_handler-Stays s k v more = grind (arith, put_char-Stays, interrupt_handler-IsValid)

-- The head is the reader's: an interrupt does not read it.
put_char-head :
    (c h : ℕ) (k : Keyboard)
    → put_char c (record k { head = h }) ≡ record (put_char c k) { head = h }
unfolding put_char
put_char-head c h k = ground arith

pub interrupt_handler-head :
    (s h : ℕ) (k : Keyboard)
    → interrupt_handler s (record k { head = h }) ≡ record (interrupt_handler s k) { head = h }
unfolding interrupt_handler
interrupt_handler-head s h k = grind (arith, put_char-head)

presses-head :
    (ss : List ℕ) (h : ℕ) (k : Keyboard)
    → presses ss (record k { head = h }) ≡ record (presses ss k) { head = h }
unfolding presses
presses-head [] h k = refl
presses-head (s ∷ ss) h k =
    ap (presses ss) (interrupt_handler-head s h k) ∙ presses-head ss h (interrupt_handler s k)

presses-append : (ss ts : List ℕ) (k : Keyboard) → presses ts (presses ss k) ≡ presses (ss ++ ts) k
unfolding presses
presses-append [] ts k = refl
presses-append (s ∷ ss) ts k = presses-append ss ts (interrupt_handler s k)

presses-Stays : (ss : List ℕ) (k : Keyboard) → IsValid k → 0 < k.count → Stays k (presses ss k)
unfolding presses
presses-Stays [] k v more = record { valid = v; same_head = refl; same_char = refl; more = more }
presses-Stays (s ∷ ss) k v more =
    let first = interrupt_handler-Stays s k v more in
    let rest = presses-Stays ss (interrupt_handler s k) first.valid first.more in
    record {
      valid = rest.valid;
      same_head = rest.same_head ∙ first.same_head;
      same_char =
          subst
            (λ h. (presses ss (interrupt_handler s k)).buffer h ≡ (interrupt_handler s k).buffer h)
            first.same_head rest.same_char
          ∙ first.same_char;
      more = rest.more;
    }

Stays-trans : (k k' k'' : Keyboard) → Stays k k' → Stays k' k'' → Stays k k''
Stays-trans k k' k'' f g = record {
  valid = g.valid;
  same_head = g.same_head ∙ f.same_head;
  same_char = subst (λ h. k''.buffer h ≡ k'.buffer h) f.same_head g.same_char ∙ f.same_char;
  more = g.more;
}

-- The character at the head is taken.
pub taken : (c h : ℕ) → Keyboard → Option ℕ × Keyboard
taken c h k = (some (u8 c), record k { head = (h + 1) % buffer_size; count = k.count - 1 })

pub getchar-taken :
    (k : Keyboard) → (k.count == 0) ≡ false → getchar k ≡ taken (k.buffer k.head) k.head k
unfolding getchar taken
getchar-taken k more = rw more refl

getchar-none : (k : Keyboard) → (k.count == 0) ≡ true → getchar k ≡ (none, k)
unfolding getchar
getchar-none k empty = rw empty refl

getchar_between-taken :
    (g : Gaps) (k : Keyboard)
    → (k.count == 0) ≡ false
    → g.to_store ≡ []
    → (let k1 = presses g.to_read k in
        let k2 = presses g.to_move k1 in
        getchar_between g k ≡ taken (k1.buffer k1.head) k2.head (presses g.to_load k2))
unfolding getchar_between taken presses
getchar_between-taken g k more quiet =
    let k2 : Keyboard = presses g.to_move (presses g.to_read k) in
    rw (more, quiet, presses-head g.to_load ((k2.head + 1) % buffer_size) k2) refl

getchar_between-none :
    (g : Gaps) (k : Keyboard) → (k.count == 0) ≡ true → getchar_between g k ≡ (none, k)
unfolding getchar_between
getchar_between-none g k empty = rw (empty, getchar_between) refl

-- The interrupts that a call of `keyboard_getchar` lets in before it loads the count: none where
-- the ring is empty, since it then returns.
abbrev pub heard : Gaps → Keyboard → List ℕ
heard g k = if k.count == 0 then [] else g.to_read ++ (g.to_move ++ g.to_load)

-- In a valid state, a call of `keyboard_getchar` with interrupts between its accesses, but none
-- between the load of the count and its store, is the call without interrupts behind those that come
-- before the load.
pub getchar_between_lem :
    (g : Gaps) (k : Keyboard)
    → IsValid k
    → g.to_store ≡ []
    → getchar_between g k ≡ getchar (presses (heard g k) k)
unfolding presses
getchar_between_lem g k v quiet = elim (Bool-cases (k.count == 0)) [
  | inl empty ↦ getchar_between-none g k empty ∙ rw empty (sym (getchar-none k empty))
  | inr some_left ↦
      let k1 : Keyboard = presses g.to_read k in
      let k2 : Keyboard = presses g.to_move k1 in
      let k3 : Keyboard = presses g.to_load k2 in
      let a = presses-Stays g.to_read k v (ground (arith, some_left)) in
      let b = presses-Stays g.to_move k1 a.valid a.more in
      let c = presses-Stays g.to_load k2 b.valid b.more in
      let bc = Stays-trans k1 k2 k3 b c in
      let char : k1.buffer k1.head ≡ k3.buffer k3.head =
        sym (ap k3.buffer bc.same_head ∙ bc.same_char) in
      let left : (k3.count == 0) ≡ false = ground (arith, c.more) in
      let whole : k3 ≡ presses (g.to_read ++ (g.to_move ++ g.to_load)) k =
        presses-append g.to_move g.to_load k1
        ∙ presses-append g.to_read (g.to_move ++ g.to_load) k in
      getchar_between-taken g k some_left quiet
      ∙ ap (λ x. taken x k2.head k3) char
      ∙ ap (λ x. taken (k3.buffer k3.head) x k3) (sym c.same_head)
      ∙ sym (getchar-taken k3 left)
      ∙ rw some_left (ap getchar whole)
]
