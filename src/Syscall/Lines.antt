-- ===== src/Syscall/Lines.antt =====
-- SYS_READ with a buffer, for its caller: the buffer holds the edited line as a C string.
use little_os.Base.{
  ℕ, ◌+◌, ◌-◌, ◌^◌, ◌≤◌, ◌<◌, ◌≡◌, ◌≢◌, ◌⊎◌, refl, ◌∙◌, false, Option, none, some, List, [], Memory,
  store8, store8_self, store8_ne, length, leb, ◌==◌, ◌||◌, u32, arith,
}
use little_os.Syscall.{Machine, Poll, read_line, finish_line, sys_read}
use little_os.Syscall.Edit.{edit}
use little_os.Syscall.Refine.{answers, IsLine, IsLine-store8, Holds, Reads, Owes, read_line-Owes}

-- The buffer holds the line as a C string, and `result` is its length.
pub record Delivers (old : Memory) (buf max_count : ℕ) (line : List ℕ) (result : ℕ) (now : Memory)
    : Type 0 where
  pub counted : result ≡ length line
  pub fits : length line < max_count
  pub written : IsLine now buf line
  pub ended : now (buf + length line) ≡ 0
  pub outside : (x : ℕ) → (x < buf) ⊎ (buf + max_count ≤ x) → now x ≡ old x

abbrev pub ReadsLine :
    Memory → (buf max_count : ℕ) → Option (List ℕ) → Option (ℕ × Machine) → Type 0
ReadsLine old buf max_count none none = Unit
ReadsLine old buf max_count (some line) (some (result, m)) =
    Delivers old buf max_count line result m.memory
ReadsLine old buf max_count _ _ = ⊥

module _ (buf max_count : ℕ) (given : buf ≢ 0) (room : 2 ≤ max_count)
    (within : buf + max_count ≤ 2 ^ 32) where
  finish-Delivers :
      (old : Memory) (line : List ℕ) (idx : ℕ) (now : Memory)
      → Holds old buf (max_count - 1) line idx now
      → Delivers old buf max_count line idx (store8 now (u32 (buf + idx)) 0)
  finish-Delivers old line idx now h =
      let here : idx ≡ length line = h.at_end in
      let address : u32 (buf + idx) ≡ buf + length line = omega (arith, here, h.fits) in
      rw address record {
        counted = here;
        fits = omega (arith, h.fits);
        written = IsLine-store8 now buf 0 (buf + length line) line (omega arith) h.written;
        ended = store8_self now (buf + length line) 0;
        outside = λ x far.
            store8_ne now (buf + length line) 0 x (omega (arith, far, h.fits))
            ∙ h.outside x (omega (arith, far));
      }

  finish-ReadsLine :
      (old : Memory) (e : Option (List ℕ)) (r : Option (ℕ × Machine))
      → Reads old buf (max_count - 1) e r
      → ReadsLine old buf max_count e (finish_line buf r)
  unfolding finish_line
  finish-ReadsLine old none none h = tt
  finish-ReadsLine old none (some r) h = absurd h
  finish-ReadsLine old (some line) none h = absurd h
  finish-ReadsLine old (some line) (some (idx, m)) h = finish-Delivers old line idx m.memory h

  sys_read_reads :
      (ps : List Poll) (m : Machine)
      → sys_read ps buf max_count m ≡ finish_line buf (read_line ps buf max_count 0 m)
  unfolding sys_read
  sys_read_reads ps m =
      let proper : (buf == 0 || leb max_count 1) ≡ false = ground (arith, given, room) in
      rw proper refl

  empty-Holds : (m : Machine) → Holds m.memory buf (max_count - 1) [] 0 m.memory
  empty-Holds m = record {
    at_end = refl;
    fits = omega arith;
    written = tt;
    outside = λ x far. refl;
  }

  -- SYS_READ with a buffer of two bytes or more, which is not null and ends within the 32-bit address
  -- space, delivers the line that the editor makes of the characters that arrive,
  -- as a C string with its length, and changes no byte outside the buffer. It waits exactly as
  -- long as the editor has no line.
  pub sys_read_lem :
      (ps : List Poll) (m : Machine)
      → ReadsLine m.memory buf max_count
          (edit (max_count - 1) (answers ps m.keyboard) [])
          (sys_read ps buf max_count m)
  unfolding Owes
  sys_read_lem ps m = rw (sys_read_reads ps m) (
      finish-ReadsLine m.memory (edit (max_count - 1) (answers ps m.keyboard) [])
        (read_line ps buf max_count 0 m)
        (read_line-Owes m.memory buf max_count (omega arith) ps [] 0 m (empty-Holds m)))
