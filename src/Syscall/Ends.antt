-- ===== src/Syscall/Ends.antt =====
-- SYS_READ returns when a line is entered.
use little_os.Base.{
  ℕ, ◌+◌, ◌-◌, ◌^◌, ◌≤◌, ◌≡◌, ◌≢◌, inl, inr, refl, ◌∙◌, true, false, Bool-cases, Option, none, some,
  List, [], ◌∷◌, ◌++◌, Memory, length, ltb,
}
use little_os.Syscall.{Machine, Poll, sys_read}
use little_os.Syscall.Edit.{Stroke, enter, rub_out, types, stroke, rubbed, edit}
use little_os.Syscall.Refine.{answers}
use little_os.Syscall.Lines.{ReadsLine, sys_read_lem}

-- The editor after one more character.
next : (room : ℕ) → List (Option ℕ) → List ℕ → Stroke → Option (List ℕ)
next room cs line enter = some line
next room cs line rub_out = edit room cs (rubbed line)
next room cs line (types c) = edit room cs (c ∷ line)

edit-next :
    (room c : ℕ) (cs : List (Option ℕ)) (line : List ℕ) (s : Stroke)
    → stroke c ≡ s
    → ltb (length line) room ≡ true
    → edit room (some c ∷ cs) line ≡ next room cs line s
unfolding edit next
edit-next room c cs line enter e more = rw (more, e, edit) refl
edit-next room c cs line rub_out e more = rw (more, e, edit) refl
edit-next room c cs line (types d) e more = rw (more, e, edit) refl

edit-full :
    (room : ℕ) (cs : List (Option ℕ)) (line : List ℕ)
    → ltb (length line) room ≡ false
    → edit room cs line ≡ some line
unfolding edit
edit-full room [] line full = rw full refl
edit-full room (c ∷ cs) line full = rw (full, edit) refl

Ends : (room : ℕ) → List (Option ℕ) → Type 0
Ends room cs = (line : List ℕ) → (out : List ℕ) × (edit room cs line ≡ some out)

next-Ends :
    (room : ℕ) (cs : List (Option ℕ)) (line : List ℕ) (s : Stroke)
    → Ends room cs
    → (out : List ℕ) × (next room cs line s ≡ some out)
unfolding Ends next
next-Ends room cs line enter h = (line, refl)
next-Ends room cs line rub_out h = h (rubbed line)
next-Ends room cs line (types c) h = h (c ∷ line)

-- The editor has a line when a key `enter` comes.
edit-Ends :
    (room c : ℕ) (before after : List (Option ℕ))
    → stroke c ≡ enter
    → Ends room (before ++ (some c ∷ after))
unfolding Ends next edit
edit-Ends room c [] after e line = elim (Bool-cases (ltb (length line) room)) [
  | inl more ↦ (line, edit-next room c after line enter e more)
  | inr full ↦ (line, edit-full room (some c ∷ after) line full)
]
edit-Ends room c (none ∷ before) after e line = elim (Bool-cases (ltb (length line) room)) [
  | inl more ↦ let rest = edit-Ends room c before after e line in (rest.0, rw (more, edit) rest.1)
  | inr full ↦ (line, edit-full room (none ∷ before ++ (some c ∷ after)) line full)
]
edit-Ends room c (some d ∷ before) after e line = elim (Bool-cases (ltb (length line) room)) [
  | inl more ↦
      let rest =
        next-Ends room (before ++ (some c ∷ after)) line (stroke d)
          (edit-Ends room c before after e) in
      (rest.0, edit-next room d (before ++ (some c ∷ after)) line (stroke d) refl more ∙ rest.1)
  | inr full ↦ (line, edit-full room (some d ∷ before ++ (some c ∷ after)) line full)
]

module _ (buf max_count : ℕ) (given : buf ≢ 0) (room : 2 ≤ max_count)
    (within : buf + max_count ≤ 2 ^ 32) where
  reads_some :
      (old : Memory) (line : List ℕ) (r : Option (ℕ × Machine))
      → ReadsLine old buf max_count (some line) r
      → (out : ℕ × Machine) × (r ≡ some out)
  reads_some old line none h = absurd h
  reads_some old line (some out) h = (out, refl)

  -- SYS_READ with such a buffer (two bytes or more, not null, within the address space) returns
  -- when, among the characters that arrive, there is one that ends a
  -- line.
  pub sys_read_returns :
      (ps : List Poll) (m : Machine) (before : List (Option ℕ)) (c : ℕ) (after : List (Option ℕ))
      → answers ps m.keyboard ≡ before ++ (some c ∷ after)
      → stroke c ≡ enter
      → (out : ℕ × Machine) × (sys_read ps buf max_count m ≡ some out)
  unfolding Ends
  sys_read_returns ps m before c after arrive ends =
      let line = edit-Ends (max_count - 1) c before after ends [] in
      let reads = sys_read_lem buf max_count given room within ps m in
      let entered : edit (max_count - 1) (answers ps m.keyboard) [] ≡ some line.0 =
        rw arrive line.1 in
      let reads' = rw entered at reads in
      reads_some m.memory line.0 (sys_read ps buf max_count m) reads'
