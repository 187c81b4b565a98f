-- ===== src/Syscall/Echo.antt =====
-- What SYS_READ shows of the keys: on the screen and on COM1.
use little_os.Base.{
  ℕ, zero, suc, ◌+◌, ◌-◌, ◌≤◌, ◌≡◌, ◌≢◌, refl, sym, ◌∙◌, ap, true, false, inl, inr, Bool-cases,
  Option, none, some, List, [], ◌∷◌, ◌++◌, ltb, leb, ◌==◌, ◌||◌, u8, arith,
}
use little_os.Keyboard.{Keyboard}
use little_os.Framebuffer.{fb_write}
use little_os.Framebuffer.Loops.{fb_write-append, fb_write-nil}
use little_os.Serial.{serial_write}
use little_os.Serial.Rate.{serial_write-append, serial_write-nil, serial_write_char-write}
use little_os.Syscall.{
  Machine, echo, turn, Poll, poll, Turn, breaks, goes_on, handle_char, read_line, finish_line,
  sys_read,
}
use little_os.Syscall.Edit.{Stroke, enter, rub_out, types, stroke}
use little_os.Syscall.Refine.{answers}

-- What the screen shows of a key, behind `n` characters of the line.
abbrev pub screen_echo : Stroke → (n : ℕ) → List ℕ
screen_echo enter n = 10 ∷ []
screen_echo rub_out zero = []
screen_echo rub_out (suc n) = 8 ∷ []
screen_echo (types c) n = u8 c ∷ []

-- What COM1 gets: a line ends with a carriage return, and a character is rubbed out with a blank.
abbrev pub line_echo : Stroke → (n : ℕ) → List ℕ
line_echo enter n = 13 ∷ 10 ∷ []
line_echo rub_out zero = []
line_echo rub_out (suc n) = 8 ∷ 32 ∷ 8 ∷ []
line_echo (types c) n = u8 c ∷ []

-- The echoes of the characters that arrive, until the line is entered or full.
unfoldable pub echoes : (Stroke → ℕ → List ℕ) → (room : ℕ) → List (Option ℕ) → (n : ℕ) → List ℕ
echoes e room [] n = []
echoes e room (c ∷ cs) n = elim (ltb n room) [
  | false ↦ []
  | true ↦ elim c [
    | none ↦ echoes e room cs n
    | some c ↦ elim (stroke c) [
      | enter ↦ e enter n
      | rub_out ↦ e rub_out n ++ echoes e room cs (n - 1)
      | types d ↦ e (types d) n ++ echoes e room cs (n + 1)
    ]
  ]
]

-- One machine is another one with texts written.
pub record Wrote (shown sent : List ℕ) (m m' : Machine) : Type 0 where
  pub screen : m'.screen ≡ fb_write shown m.screen
  pub line : m'.line ≡ serial_write sent m.line

Wrote-trans :
    (a b a' b' : List ℕ) (m m' m'' : Machine)
    → Wrote a b m m'
    → Wrote a' b' m' m''
    → Wrote (a ++ a') (b ++ b') m m''
Wrote-trans a b a' b' m m' m'' h g = record {
  screen = g.screen ∙ ap (fb_write a') h.screen ∙ fb_write-append a a' m.screen;
  line = g.line ∙ ap (serial_write b') h.line ∙ serial_write-append b b' m.line;
}

-- What a turn shows for a stroke: it ends the line, or goes on at the next index.
abbrev Shown : Stroke → (idx : ℕ) → Machine → Turn → Type 0
Shown enter idx m (breaks i m') = Wrote (screen_echo enter idx) (line_echo enter idx) m m'
Shown rub_out idx m (goes_on i m') =
    (i ≡ idx - 1)
    × (m'.keyboard ≡ m.keyboard)
    × Wrote (screen_echo rub_out idx) (line_echo rub_out idx) m m'
Shown (types c) idx m (goes_on i m') =
    (i ≡ idx + 1)
    × (m'.keyboard ≡ m.keyboard)
    × Wrote (screen_echo (types c) idx) (line_echo (types c) idx) m m'
Shown _ idx m _ = ⊥

handle_char-Shown : (buf c idx : ℕ) (m : Machine) → Shown (stroke c) idx m (handle_char buf c idx m)
unfolding stroke handle_char echo
handle_char-Shown buf c idx m = elim (Bool-cases (c == 0 || c == 10 || c == 13)) [
  | inl is_end ↦ rw is_end (record { screen = refl; line = refl })
  | inr goes ↦ elim (Bool-cases (c == 8 || c == 127)) [
    | inl is_rub ↦ rubs idx goes is_rub
    | inr shown ↦
        rw (goes, shown)
          (refl, refl, record { screen = refl; line = serial_write_char-write (u8 c) m.line })
  ]
]
  where
    rubs :
        (idx : ℕ)
        → (c == 0 || c == 10 || c == 13) ≡ false
        → (c == 8 || c == 127) ≡ true
        → Shown (stroke c) idx m (handle_char buf c idx m)
    rubs zero goes is_rub =
        rw (goes, is_rub)
          (
            refl,
            refl,
            record { screen = sym (fb_write-nil m.screen); line = sym (serial_write-nil m.line) },
          )
    rubs (suc n) goes is_rub =
        let some_left : ltb 0 (suc n) ≡ true = ground arith in
        rw (goes, is_rub, some_left) (refl, refl, record { screen = refl; line = refl })

-- The result of the loop, where it has one.
abbrev Echoed : (shown sent : List ℕ) → Machine → Option (ℕ × Machine) → Type 0
Echoed shown sent m none = Unit
Echoed shown sent m (some (i, m')) = Wrote shown sent m m'

Wrote-refl : (m : Machine) → Wrote [] [] m m
Wrote-refl m = record { screen = sym (fb_write-nil m.screen); line = sym (serial_write-nil m.line) }

Echoed-trans :
    (a b a' b' : List ℕ) (m m' : Machine) (r : Option (ℕ × Machine))
    → Wrote a b m m'
    → Echoed a' b' m' r
    → Echoed (a ++ a') (b ++ b') m r
Echoed-trans a b a' b' m m' none h g = tt
Echoed-trans a b a' b' m m' (some (i, m'')) h g = Wrote-trans a b a' b' m m' m'' h g

Echoed-keyboard :
    (a b : List ℕ) (m : Machine) (k : Keyboard) (r : Option (ℕ × Machine))
    → Echoed a b (record m { keyboard = k }) r
    → Echoed a b m r
Echoed-keyboard a b m k none h = tt
Echoed-keyboard a b m k (some (i, m')) h = record { screen = h.screen; line = h.line }

module _ (buf max_count : ℕ) where
  -- What the loop owes from the index `idx` on.
  unfoldable Owes : List Poll → ℕ → Machine → Type 0
  Owes ps idx m =
      Echoed (echoes screen_echo (max_count - 1) (answers ps m.keyboard) idx)
        (echoes line_echo (max_count - 1) (answers ps m.keyboard) idx) m
        (read_line ps buf max_count idx m)

  module _ (p : Poll) (ps : List Poll) (later : (idx : ℕ) (m : Machine) → Owes ps idx m) (idx : ℕ)
      (m : Machine) (more : ltb idx (max_count - 1) ≡ true) where
    stroke-Owes :
        (c : ℕ) (s : Stroke) (t : Turn)
        → (poll p m.keyboard).0 ≡ some c
        → stroke c ≡ s
        → handle_char buf c idx (record m { keyboard = (poll p m.keyboard).1 }) ≡ t
        → Shown s idx (record m { keyboard = (poll p m.keyboard).1 }) t
        → Owes (p ∷ ps) idx m
    unfolding Owes echoes answers read_line turn
    stroke-Owes c enter (breaks i m') e es et f =
        rw (more, read_line, echoes, turn, answers, e, es, et)
          (record { screen = f.screen; line = f.line })
    stroke-Owes c enter (goes_on i m') e es et f = absurd f
    stroke-Owes c rub_out (breaks i m') e es et f = absurd f
    stroke-Owes c rub_out (goes_on i m') e es et f =
        rw (more, read_line, echoes, turn, answers, e, es, et, sym f.1, sym f.0)
          (Echoed-trans (screen_echo rub_out idx) (line_echo rub_out idx) _ _ m m'
            (read_line ps buf max_count i m') (record { screen = f.2.screen; line = f.2.line })
            (later i m'))
    stroke-Owes c (types d) (breaks i m') e es et f = absurd f
    stroke-Owes c (types d) (goes_on i m') e es et f =
        rw (more, read_line, echoes, turn, answers, e, es, et, sym f.1, sym f.0)
          (Echoed-trans (screen_echo (types d) idx) (line_echo (types d) idx) _ _ m m'
            (read_line ps buf max_count i m') (record { screen = f.2.screen; line = f.2.line })
            (later i m'))

    turn-Owes : (r : Option ℕ) → (poll p m.keyboard).0 ≡ r → Owes (p ∷ ps) idx m
    unfolding Owes echoes answers read_line turn
    turn-Owes none e =
        rw (more, read_line, echoes, turn, answers, e)
          (Echoed-keyboard _ _ m (poll p m.keyboard).1 (read_line ps buf max_count idx _)
            (later idx (record m { keyboard = (poll p m.keyboard).1 })))
    turn-Owes (some c) e =
        let m' : Machine = record m { keyboard = (poll p m.keyboard).1 } in
        stroke-Owes c (stroke c) (handle_char buf c idx m') e refl refl
          (handle_char-Shown buf c idx m')

  read_line-Owes : (ps : List Poll) (idx : ℕ) (m : Machine) → Owes ps idx m
  unfolding Owes echoes answers read_line
  read_line-Owes [] idx m = elim (Bool-cases (ltb idx (max_count - 1))) [
    | inl more ↦ rw more tt
    | inr full ↦ rw full (Wrote-refl m)
  ]
  read_line-Owes (p ∷ ps) idx m = elim (Bool-cases (ltb idx (max_count - 1))) [
    | inl more ↦ turn-Owes p ps (read_line-Owes ps) idx m more (poll p m.keyboard).0 refl
    | inr full ↦ rw (full, read_line, echoes) (Wrote-refl m)
  ]

  finish-Echoed :
      (a b : List ℕ) (m : Machine) (r : Option (ℕ × Machine))
      → Echoed a b m r
      → Echoed a b m (finish_line buf r)
  unfolding finish_line
  finish-Echoed a b m none h = tt
  finish-Echoed a b m (some (i, m')) h = record { screen = h.screen; line = h.line }

  -- Where SYS_READ into a buffer of two bytes or more that is not null returns, the console has typed
  -- the echo of each key up to the one that ends the line, or fills it, and COM1 has got its own echo
  -- of the same keys: nothing for a backspace where there is nothing to rub out.
  pub sys_read-Wrote :
      (ps : List Poll) (m m' : Machine) (result : ℕ)
      → buf ≢ 0
      → 2 ≤ max_count
      → sys_read ps buf max_count m ≡ some (result, m')
      → Wrote
          (echoes screen_echo (max_count - 1) (answers ps m.keyboard) 0)
          (echoes line_echo (max_count - 1) (answers ps m.keyboard) 0)
          m
          m'
  unfolding Owes sys_read
  sys_read-Wrote ps m m' result given room e =
      let echoed = finish-Echoed _ _ m (read_line ps buf max_count 0 m) (read_line-Owes ps 0 m) in
      let proper : (buf == 0 || leb max_count 1) ≡ false = ground (arith, given, room) in
      let read = rw (proper, sys_read) at e in rw read at echoed
