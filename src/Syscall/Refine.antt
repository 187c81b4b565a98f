-- ===== src/Syscall/Refine.antt =====
-- SYS_READ is the line editor: the user's buffer holds the line.
use little_os.Base.{
  ℕ, ◌+◌, ◌-◌, ◌^◌, ◌≤◌, ◌<◌, ◌≡◌, ◌≢◌, ◌⊎◌, inl, inr, refl, sym, ◌∙◌, true, false, Bool-cases,
  Option, none, some, List, [], ◌∷◌, Memory, store8, store8_self, store8_ne, length, ltb, ◌==◌,
  ◌||◌, u8, u32, arith,
}
use little_os.Keyboard.{Keyboard}
use little_os.Syscall.{
  Machine, echo, turn, Poll, poll, Turn, breaks, goes_on, handle_char, read_line,
}
use little_os.Syscall.Edit.{Stroke, enter, rub_out, types, stroke, rubbed, edit}

-- The character of each turn, as the keyboard goes on.
unfoldable pub answers : List Poll → Keyboard → List (Option ℕ)
answers [] k = []
answers (p ∷ ps) k = let (c, k') = poll p k in c ∷ answers ps k'

-- The bytes of a line stand from `buf` on, and none of them ends a string.
abbrev pub IsLine : Memory → (buf : ℕ) → List ℕ → Type 0
IsLine m buf [] = Unit
IsLine m buf (c ∷ line) = (m (buf + length line) ≡ u8 c) × (c ≢ 0) × IsLine m buf line

-- The memory is the old one, but for the line in the first `room` bytes of the buffer.
pub record Holds (old : Memory) (buf room : ℕ) (line : List ℕ) (idx : ℕ) (now : Memory)
    : Type 0 where
  pub at_end : idx ≡ length line
  pub fits : length line ≤ room
  pub written : IsLine now buf line
  pub outside : (x : ℕ) → (x < buf) ⊎ (buf + room ≤ x) → now x ≡ old x

-- What a turn must do for a stroke: the keyboard stays `k`.
abbrev pub Follows : Keyboard → Memory → (buf room : ℕ) → List ℕ → Stroke → Turn → Type 0
Follows k old buf room line enter (breaks idx m) = Holds old buf room line idx m.memory
Follows k old buf room line rub_out (goes_on idx m) =
    (m.keyboard ≡ k) × Holds old buf room (rubbed line) idx m.memory
Follows k old buf room line (types c) (goes_on idx m) =
    (m.keyboard ≡ k) × Holds old buf room (c ∷ line) idx m.memory
Follows k old buf room line _ _ = ⊥

pub IsLine-store8 :
    (m : Memory) (buf v x : ℕ) (line : List ℕ)
    → buf + length line ≤ x
    → IsLine m buf line
    → IsLine (store8 m x v) buf line
IsLine-store8 m buf v x [] le h = tt
IsLine-store8 m buf v x (c ∷ line) le h = (
  store8_ne m x v (buf + length line) (inl (omega arith)) ∙ h.0,
  h.1,
  IsLine-store8 m buf v x line (omega arith) h.2,
)

rubbed-Holds :
    (old : Memory) (buf room idx : ℕ) (line : List ℕ) (now : Memory)
    → Holds old buf room line idx now
    → Holds old buf room (rubbed line) (idx - 1) now
rubbed-Holds old buf room idx [] now h = record {
  at_end = omega (arith, h.at_end);
  fits = h.fits;
  written = tt;
  outside = h.outside;
}
rubbed-Holds old buf room idx (c ∷ line) now h = record {
  at_end = omega (arith, h.at_end);
  fits = omega (arith, h.fits);
  written = h.written.2;
  outside = h.outside;
}

types-Holds :
    (old : Memory) (buf room idx c : ℕ) (line : List ℕ) (now : Memory)
    → c ≢ 0
    → idx < room
    → Holds old buf room line idx now
    → Holds old buf room (c ∷ line) (idx + 1) (store8 now (buf + idx) (u8 c))
types-Holds old buf room idx c line now visible more h =
    let here : idx ≡ length line = h.at_end in
    let before : IsLine (store8 now (buf + idx) (u8 c)) buf line =
      IsLine-store8 now buf (u8 c) (buf + idx) line (omega (arith, here)) h.written in
    record {
      at_end = omega (arith, here);
      fits = omega (arith, here);
      written = (rw here (store8_self now (buf + length line) (u8 c)), visible, before);
      outside = λ x far. store8_ne now (buf + idx) (u8 c) x (omega (arith, far)) ∙ h.outside x far;
    }

-- A turn with the character `c` is its stroke.
handle_char-Follows :
    (old : Memory) (buf room idx c : ℕ) (line : List ℕ) (m : Machine)
    → idx < room
    → buf + room ≤ 2 ^ 32
    → Holds old buf room line idx m.memory
    → Follows m.keyboard old buf room line (stroke c) (handle_char buf c idx m)
unfolding stroke handle_char echo
handle_char-Follows old buf room idx c line m more within h =
    elim (Bool-cases (c == 0 || c == 10 || c == 13)) [
      | inl is_end ↦ rw is_end h
      | inr goes ↦ elim (Bool-cases (c == 8 || c == 127)) [
        | inl is_rub ↦ elim (Bool-cases (ltb 0 idx)) [
          | inl some_left ↦
              rw (goes, is_rub, some_left) (refl, rubbed-Holds old buf room idx line m.memory h)
          | inr none_left ↦
              let same : idx - 1 ≡ idx = ground (arith, none_left) in
              let kept = rubbed-Holds old buf room idx line m.memory h in
              rw (goes, is_rub, none_left) (refl, rw same at kept)
        ]
        | inr shown ↦
            let visible : c ≢ 0 = ground (arith, goes) in
            let stored = types-Holds old buf room idx c line m.memory visible more h in
            let address : u32 (buf + idx) ≡ buf + idx = omega arith in
            rw (goes, shown, address) (refl, stored)
      ]
    ]

-- A result of the loop that agrees with the editor's.
abbrev pub Reads : Memory → (buf room : ℕ) → Option (List ℕ) → Option (ℕ × Machine) → Type 0
Reads old buf room none none = Unit
Reads old buf room (some line) (some (idx, m)) = Holds old buf room line idx m.memory
Reads old buf room _ _ = ⊥

module _ (old : Memory) (buf max_count : ℕ) (within : buf + (max_count - 1) ≤ 2 ^ 32) where
  -- What the loop owes to the editor, from a line that is typed.
  unfoldable pub Owes : List Poll → List ℕ → ℕ → Machine → Type 0
  Owes ps line idx m =
      Reads old buf (max_count - 1) (edit (max_count - 1) (answers ps m.keyboard) line)
        (read_line ps buf max_count idx m)

  full-Owes :
      (ps : List Poll) (line : List ℕ) (idx : ℕ) (m : Machine)
      → ltb idx (max_count - 1) ≡ false
      → Holds old buf (max_count - 1) line idx m.memory
      → Owes ps line idx m
  unfolding Owes edit answers read_line
  full-Owes [] line idx m full h =
      let full' : ltb (length line) (max_count - 1) ≡ false = rw h.at_end at full in
      rw (full, full') h
  full-Owes (p ∷ ps) line idx m full h =
      let full' : ltb (length line) (max_count - 1) ≡ false = rw h.at_end at full in
      rw (full, full', read_line, edit) h

  -- A turn of the loop with the poll `p`, before the turns of `ps`.
  module _ (p : Poll) (ps : List Poll)
      (later : (line : List ℕ) (idx : ℕ) (m : Machine)
        → Holds old buf (max_count - 1) line idx m.memory
        → Owes ps line idx m)
      (line : List ℕ) (idx : ℕ) (m : Machine) (more : ltb idx (max_count - 1) ≡ true)
      (more' : ltb (length line) (max_count - 1) ≡ true) where
    stroke-Owes :
        (c : ℕ) (s : Stroke) (t : Turn)
        → (poll p m.keyboard).0 ≡ some c
        → stroke c ≡ s
        → handle_char buf c idx (record m { keyboard = (poll p m.keyboard).1 }) ≡ t
        → Follows (poll p m.keyboard).1 old buf (max_count - 1) line s t
        → Owes (p ∷ ps) line idx m
    unfolding Owes edit answers read_line turn
    stroke-Owes c enter (breaks i m') e es et f =
        rw (more, more', read_line, edit, turn, answers, e, es, et) f
    stroke-Owes c enter (goes_on i m') e es et f = absurd f
    stroke-Owes c rub_out (breaks i m') e es et f = absurd f
    stroke-Owes c rub_out (goes_on i m') e es et f =
        let rest = later (rubbed line) i m' f.1 in
        rw (more, more', read_line, edit, turn, answers, e, es, et, sym f.0) rest
    stroke-Owes c (types d) (breaks i m') e es et f = absurd f
    stroke-Owes c (types d) (goes_on i m') e es et f =
        let rest = later (d ∷ line) i m' f.1 in
        rw (more, more', read_line, edit, turn, answers, e, es, et, sym f.0) rest

    turn-Owes :
        (r : Option ℕ)
        → (poll p m.keyboard).0 ≡ r
        → Holds old buf (max_count - 1) line idx m.memory
        → Owes (p ∷ ps) line idx m
    unfolding Owes edit answers read_line turn
    turn-Owes none e h =
        let rest = later line idx (record m { keyboard = (poll p m.keyboard).1 }) h in
        rw (more, more', read_line, edit, turn, answers, e) rest
    turn-Owes (some c) e h =
        let m' : Machine = record m { keyboard = (poll p m.keyboard).1 } in
        let follows =
          handle_char-Follows old buf (max_count - 1) idx c line m' (ground (arith, more)) within
            h in
        stroke-Owes c (stroke c) (handle_char buf c idx m') e refl refl follows

  pub read_line-Owes :
      (ps : List Poll) (line : List ℕ) (idx : ℕ) (m : Machine)
      → Holds old buf (max_count - 1) line idx m.memory
      → Owes ps line idx m
  unfolding Owes edit answers read_line
  read_line-Owes [] line idx m h = elim (Bool-cases (ltb idx (max_count - 1))) [
    | inl more ↦
        let more' : ltb (length line) (max_count - 1) ≡ true = rw h.at_end at more in
        rw (more, more') tt
    | inr full ↦ full-Owes [] line idx m full h
  ]
  read_line-Owes (p ∷ ps) line idx m h = elim (Bool-cases (ltb idx (max_count - 1))) [
    | inl more ↦
        let more' : ltb (length line) (max_count - 1) ≡ true = rw h.at_end at more in
        turn-Owes p ps (read_line-Owes ps) line idx m more more' (poll p m.keyboard).0 refl h
    | inr full ↦ full-Owes (p ∷ ps) line idx m full h
  ]
