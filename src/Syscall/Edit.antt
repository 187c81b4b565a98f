-- ===== src/Syscall/Edit.antt =====
-- What SYS_READ promises: a line editor. A line is its characters, newest first.
use little_os.Base.{
  ℕ, Option, none, some, List, [], ◌∷◌, true, false, length, ltb, ◌==◌, ◌||◌, if◌then◌else◌,
}

-- A key ends the line, rubs out its last character, or adds a character.
pub data Stroke : Type 0 where
  enter rub_out : Stroke
  types : ℕ → Stroke

unfoldable pub stroke : ℕ → Stroke
stroke c =
    if c == 0 || c == 10 || c == 13 then enter else if c == 8 || c == 127 then rub_out else types c

abbrev pub rubbed : List ℕ → List ℕ
rubbed [] = []
rubbed (c ∷ line) = line

-- The line that the characters edit, from a line that is typed: `none` in the list is a turn with
-- no character, and `none` as the result is a line that is neither entered nor full.
unfoldable pub edit : (room : ℕ) → List (Option ℕ) → List ℕ → Option (List ℕ)
edit room [] line = if ltb (length line) room then none else some line
edit room (c ∷ cs) line = elim (ltb (length line) room) [
  | false ↦ some line
  | true ↦ elim c [
    | none ↦ edit room cs line
    | some c ↦ elim (stroke c) [
      | enter ↦ some line
      | rub_out ↦ edit room cs (rubbed line)
      | types c ↦ edit room cs (c ∷ line)
    ]
  ]
]
