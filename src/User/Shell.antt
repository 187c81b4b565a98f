-- ===== src/User/Shell.antt =====
-- A line of the shell, from the keys to what the screen shows: `sys_read`, a turn of `main`, and its
-- calls.
use little_os.Base.{
  ℕ, ◌+◌, ◌^◌, ◌<◌, ◌≤◌, ◌≡◌, ◌≢◌, refl, ◌∙◌, ap, Option, none, some, List, [], ◌∷◌, All, Memory,
  length, take, arith,
}
use little_os.Framebuffer.Place.{Shows}
use little_os.Framebuffer.Refine.{fb_write-Shows}
use little_os.Framebuffer.Screen.{Screen, type_chars}
use little_os.Strings.Content.{IsString}
use little_os.Shell.{max_args}
use little_os.Shell.Words.{words}
use little_os.Shell.Commands.{Event, answer}
use little_os.Shell.Commands.Replies.{Replies, Literals, Literals-map}
use little_os.Shell.Commands.Turns.{Stands, Stands-same, answer-Replies}
use little_os.Syscall.{Registers, Machine, Poll, do_syscall}
use little_os.Syscall
use little_os.Syscall.Calls.{do_syscall_reads}
use little_os.Syscall.Echo.{echoes, screen_echo, sys_read-Wrote}
use little_os.Syscall.Edit.{edit}
use little_os.Syscall.Lines.{Delivers, ReadsLine, sys_read_lem}
use little_os.Syscall.Refine.{answers, IsLine}
use little_os.User.{int_0x80, sys_read, Call, perform}
use little_os.User.Sys
use little_os.User.Calls.{IsCall, asked_all, show, perform_lem}

-- The bytes of a line, in the order in which they stand, before others.
unfoldable pub text_onto : (line tail : List ℕ) → List ℕ
text_onto [] tail = tail
text_onto (c ∷ line) tail = text_onto line (c ∷ tail)

abbrev pub text : List ℕ → List ℕ
text line = text_onto line []

length-text_onto : (line tail : List ℕ) → length (text_onto line tail) ≡ length line + length tail
unfolding text_onto
length-text_onto [] tail = omega arith
length-text_onto (c ∷ line) tail = omega (arith, length-text_onto line (c ∷ tail))

-- A line of bytes, and what stands behind it, is a string.
text_onto-IsString :
    (m : Memory) (buf x : ℕ) (line tail : List ℕ)
    → All (λ c. c < 256) line
    → IsLine m buf line
    → x ≡ buf + length line
    → IsString m x tail
    → IsString m buf (text_onto line tail)
unfolding text_onto
text_onto-IsString m buf x [] tail small h at_end behind =
    let here : x ≡ buf = omega (arith, at_end) in rw here at behind
text_onto-IsString m buf x (c ∷ line) tail small h at_end behind =
    let next : x ≡ buf + length line + 1 = omega (arith, at_end) in
    text_onto-IsString m buf (buf + length line) line (c ∷ tail) small.1 h.2 refl
      (omega (arith, h.0, small.0), h.1, rw next at behind)

-- SYS_READ into the line buffer, for the caller of the stub.
module _ (ps : List Poll) (held : Registers) (line_buf : ℕ) (m : Machine) (s : Screen)
    (line : List ℕ) (given : line_buf ≢ 0) (within : line_buf + 128 ≤ 2 ^ 32)
    (typed : edit 127 (answers ps m.keyboard) [] ≡ some line) (v : Shows m.screen s) where
  record Typed (m' : Machine) : Type 0 where
    pub returned : sys_read ps held 0 line_buf 128 m ≡ some (length line, m')
    pub delivered : Delivers m.memory line_buf 128 line (length line) m'.memory
    pub shown : Shows m'.screen (type_chars (echoes screen_echo 127 (answers ps m.keyboard) 0) s)

  line-Typed : (m' : Machine) × Typed m'
  unfolding sys_read int_0x80
  line-Typed =
      let reads = rw typed at (sys_read_lem line_buf 128 given (omega arith) within ps m) in
      out (Syscall.sys_read ps line_buf 128 m) refl reads
    where
      out :
          (r : Option (ℕ × Machine))
          → Syscall.sys_read ps line_buf 128 m ≡ r
          → ReadsLine m.memory line_buf 128 (some line) r
          → (m' : Machine) × Typed m'
      out none e h = absurd h
      out (some (result, m')) e h =
          let read = e ∙ ap (λ i. some (i, m')) h.counted in
          let wrote = sys_read-Wrote line_buf 128 ps m m' result given (omega arith) e in
          let called =
            do_syscall_reads ps (record held { eax = Sys.read; ebx = 0; ecx = line_buf; edx = 128 })
              m m' (length line) refl refl read in
          (
            m',
            record {
              returned = rw (called, sys_read, int_0x80) refl;
              delivered = rw h.counted at h;
              shown =
                  rw wrote.screen (
                    fb_write-Shows (echoes screen_echo 127 (answers ps m.keyboard) 0) m.screen s v);
            },
          )

  module _ (place : List ℕ → ℕ) (fuel : ℕ) (args : ℕ → ℕ) (out : List Event) (enough : 130 ≤ fuel)
      (stand : Literals (Stands place m.memory line_buf)) (small : All (λ c. c < 256) line)
      (some_keys : 0 < length line) (r : Replies (take max_args (words (text line))) out) where
    -- The literals stand outside the line buffer, and the buffer holds the line.
    answer-Typed :
        (m' : Machine)
        → Typed m'
        → answer place fuel line_buf (length line) args m'.memory ≡ some out
    answer-Typed m' t =
        let d = t.delivered in
        let ended : m'.memory (line_buf + length line) ≡ 0 = d.ended in
        answer-Replies place fuel line_buf (length line) args m'.memory (text line) out enough
          some_keys (omega (arith, d.fits)) given
          (Literals-map (λ l here. Stands-same place m.memory m'.memory line_buf l d.outside here)
            stand)
          (text_onto-IsString m'.memory line_buf (line_buf + length line) line [] small d.written
            refl ended)
          (omega (arith, length-text_onto line [], d.fits)) r

    -- A line of one byte or more, each below 256, that the keys edit, typed while the shell waits in
    -- `sys_read` for a line of up to 127 bytes into a buffer that is not null and ends within the
    -- 32-bit address space, on a console that shows a screen, with fuel from 130 on and the literals
    -- in the memory apart from the buffer: the stub returns the length of the line, the shell makes the
    -- reply to the words of the line, and calls that ask for the reply, however it is split, all
    -- return. The screen then shows the echo of the keys and the reply behind it.
    pub line_lem :
        (calls : List Call)
        → All IsCall calls
        → asked_all calls ≡ out
        → (m' : Machine) × (m'' : Machine) × (sys_read ps held 0 line_buf 128 m
            ≡ some (length line, m'))
          × (answer place fuel line_buf (length line) args m'.memory ≡ some out)
          × (perform calls m' ≡ some m'')
          × Shows m''.screen
              (show out (type_chars (echoes screen_echo 127 (answers ps m.keyboard) 0) s))
    line_lem calls proper asks =
        let (m', t) = line-Typed in
        let (m'', e, told) = perform_lem calls m' _ proper t.shown in
        (m', m'', t.returned, answer-Typed m' t, e, rw asks at told.shows)
