-- ===== src/Keyboard/Interleave/Lost.antt =====
-- A key that comes between the load of the count and its store.
use little_os.Base.{
  ℕ, zero, suc, ◌+◌, ◌-◌, ◌%◌, ◌<◌, ◌≤◌, ◌≡◌, ◌≢◌, refl, [], ◌∷◌, ◌==◌, false, arith, store8,
}
use little_os.Keyboard.{Keyboard, buffer_size, put_char, getchar, interrupt_handler}
use little_os.Keyboard.Refine.{IsValid, contents, window}
use little_os.Keyboard.Interleave.{
  Gaps, presses, getchar_between, getchar-taken, taken, interrupt_handler-head,
}

abbrev pub late : ℕ → Gaps
late s = record { to_read = []; to_move = []; to_load = []; to_store = s ∷ [] }

-- What a key that types leaves of the ring.
record Grows (k k' : Keyboard) : Type 0 where
  same_head : k'.head ≡ k.head
  next_tail : k'.tail ≡ (k.tail + 1) % buffer_size
  same_chars : (x : ℕ) → x ≢ k.tail → k'.buffer x ≡ k.buffer x

put_char-Grows :
    (c : ℕ) (k : Keyboard) → (put_char c k).count ≡ k.count + 1 → Grows k (put_char c k)
unfolding put_char store8
put_char-Grows c k grown = record {
  same_head = ground (arith, grown);
  next_tail = ground (arith, grown);
  same_chars = λ x apart. ground (arith, grown, apart);
}

interrupt_handler-Grows :
    (s : ℕ) (k : Keyboard)
    → (interrupt_handler s k).count ≡ k.count + 1
    → Grows k (interrupt_handler s k)
unfolding interrupt_handler
interrupt_handler-Grows s k grown = grind (arith, put_char-Grows, grown)

-- A window that does not reach an index does not change with the character there.
window_apart :
    (b b' : ℕ → ℕ) (i n d h : ℕ)
    → n ≤ d
    → d < buffer_size
    → h < buffer_size
    → i ≡ (h + d) % buffer_size
    → ((x : ℕ) → x ≢ i → b' x ≡ b x)
    → window b' h n ≡ window b h n
window_apart b b' i zero d h short small at e same = refl
window_apart b b' i (suc n) d h short small at e same =
    let here : b' h ≡ b h = same h (omega (arith, e)) in
    let rest =
      window_apart b b' i n (d - 1) ((h + 1) % buffer_size) (omega arith) (omega arith)
        (omega arith) (omega (arith, e)) same in
    rw (here, rest) refl

-- What the call leaves, with a key before its store.
late-head :
    (s : ℕ) (k : Keyboard)
    → (k.count == 0) ≡ false
    → (getchar_between (late s) k).1
      ≡ record (interrupt_handler s k) { head = (k.head + 1) % buffer_size; count = k.count - 1 }
unfolding getchar_between presses
late-head s k more =
    rw (more, getchar_between, interrupt_handler-head s ((k.head + 1) % buffer_size) k) refl

-- What is lost: the characters that are pending are those of a call without the key, and the counters
-- no longer agree.
pub record Loses (k k' : Keyboard) : Type 0 where
  pub pending : contents k' ≡ contents (getchar k).1
  pub out_of_step : ¬ IsValid k'

-- Where a key that types a character, into a valid ring that is not empty, comes between the load of
-- the count in `keyboard_getchar` and its store, the character is not pending behind the call, and
-- the head, the tail and the count of the ring no longer agree.
pub getchar_between-Loses :
    (s : ℕ) (k : Keyboard)
    → IsValid k
    → 0 < k.count
    → (interrupt_handler s k).count ≡ k.count + 1
    → Loses k (getchar_between (late s) k).1
unfolding taken
getchar_between-Loses s k v more grown =
    let some_left : (k.count == 0) ≡ false = ground (arith, more) in
    let g = interrupt_handler-Grows s k grown in
    let left : Keyboard = interrupt_handler s k in
    let left' : Keyboard = record left { head = (k.head + 1) % buffer_size; count = k.count - 1 } in
    let step : ¬ IsValid left' =
      λ h. omega (arith, h.tail_at, g.next_tail, v.tail_at, v.head_in, v.count_in, more) in
    let same : contents left' ≡ contents (getchar k).1 = rw (getchar-taken k some_left) (
      window_apart k.buffer left.buffer k.tail (k.count - 1) (k.count - 1)
        ((k.head + 1) % buffer_size) (omega arith) (omega (arith, v.count_in, more)) (omega arith)
        (omega (arith, v.tail_at, more)) g.same_chars) in
    rw (late-head s k some_left) (record { pending = same; out_of_step = step })
