-- ===== src/Keyboard/Runs.antt =====
-- Sequences of events: the driver against the FIFO, and what arrives is read back.
use little_os.Base.{
  ℕ, zero, suc, ◌+◌, ◌≤◌, ◌<◌, ◌≡◌, refl, ◌∙◌, ap, some, List, [], ◌∷◌, ◌++◌, All, length,
  length-append, u8, arith,
}
use mathlib.Core.List.{map, append-nil, append_assoc}
use little_os.Keyboard.{Keyboard, put_char, getchar, interrupt_handler, run}
use little_os.Keyboard.Queue
use little_os.Keyboard.Queue.{Input, Event, key, char, read, enqueue, dequeue}
use little_os.Keyboard.Refine.{
  IsValid, contents, view, put_char-IsValid, getchar-IsValid, getchar_refines, view-put_char,
  interrupt_handler_refines,
}

pub interrupt_handler-IsValid : (s : ℕ) (k : Keyboard) → IsValid k → IsValid (interrupt_handler s k)
unfolding interrupt_handler
interrupt_handler-IsValid s k v = grind (arith, put_char-IsValid)

-- A scancode is a byte.
abbrev pub IsEvent : Event → Type 0
IsEvent (key s) = s < 256
IsEvent (char c) = Unit
IsEvent read = Unit

-- From a valid state, no sequence of interrupts, with scancodes of a byte, and of reads tells the
-- driver from the FIFO of its contents.
pub run_refines :
    (es : List Event) (k : Keyboard) → All IsEvent es → IsValid k → run k es ≡ Queue.run (view k) es
unfolding run Queue.run
run_refines [] k fit v = refl
run_refines (key s ∷ es) k fit v =
    rw (← interrupt_handler_refines s k fit.0 v)
      (run_refines es (interrupt_handler s k) fit.1 (interrupt_handler-IsValid s k v))
run_refines (char c ∷ es) k fit v =
    rw (← view-put_char c k v) (run_refines es (put_char c k) fit.1 (put_char-IsValid c k v))
run_refines (read ∷ es) k fit v =
    rw (← getchar_refines k v, run_refines es (getchar k).1 fit.1 (getchar-IsValid k v))

abbrev pub chars : List ℕ → List Event → List Event
chars [] es = es
chars (c ∷ cs) es = char c ∷ chars cs es

abbrev pub reads : ℕ → List Event
reads zero = []
reads (suc n) = read ∷ reads n

enqueue_room : (c : ℕ) (q : List ℕ) → length q < 256 → enqueue c q ≡ q ++ (u8 c ∷ [])
unfolding enqueue
enqueue_room c q h = ground arith

run-chars :
    (cs : List ℕ) (i : Input) (es : List Event)
    → length i.pending + length cs ≤ 256
    → Queue.run i (chars cs es) ≡ Queue.run (record i { pending = i.pending ++ map u8 cs }) es
unfolding Queue.run
run-chars [] i es fits = rw append-nil
run-chars (c ∷ cs) i es fits =
    let room : length i.pending < 256 = omega arith in
    ap (λ q. Queue.run (record i { pending = q }) (chars cs es)) (enqueue_room c i.pending room)
    ∙ run-chars cs (record i { pending = i.pending ++ (u8 c ∷ []) }) es
        (omega (arith, length-append i.pending (u8 c ∷ [])))
    ∙ ap (λ q. Queue.run (record i { pending = q }) es)
        (append_assoc i.pending (u8 c ∷ []) (map u8 cs))

IsEvent-chars : (cs : List ℕ) (es : List Event) → All IsEvent es → All IsEvent (chars cs es)
IsEvent-chars [] es h = h
IsEvent-chars (c ∷ cs) es h = (tt, IsEvent-chars cs es h)

IsEvent-reads : (n : ℕ) → All IsEvent (reads n)
IsEvent-reads zero = tt
IsEvent-reads (suc n) = (tt, IsEvent-reads n)

length-map-u8 : (cs : List ℕ) → length (map u8 cs) ≡ length cs
length-map-u8 [] = refl
length-map-u8 (c ∷ cs) = ap suc (length-map-u8 cs)

run-reads : (q : List ℕ) (i : Input) → i.pending ≡ q → Queue.run i (reads (length q)) ≡ map some q
unfolding Queue.run dequeue
run-reads [] i e = refl
run-reads (c ∷ q) i e = rw (e, run-reads q (record i { pending = q }) refl)

-- Up to 256 characters that arrive at an empty buffer, in a valid state, are read back in the
-- order of arrival.
pub read_back :
    (cs : List ℕ) (k : Keyboard)
    → IsValid k
    → contents k ≡ []
    → length cs ≤ 256
    → run k (chars cs (reads (length cs))) ≡ map some (map u8 cs)
read_back cs k v empty fits =
    run_refines (chars cs (reads (length cs))) k (IsEvent-chars cs _ (IsEvent-reads (length cs))) v
    ∙ run-chars cs (view k) (reads (length cs)) (rw empty (omega arith))
    ∙ (rw (empty, ← length-map-u8 cs) (run-reads (map u8 cs) _ refl))
