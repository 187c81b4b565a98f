-- ===== src/User/Calls.antt =====
-- What a user program writes reaches the screen and COM1, however it is split into calls.
use little_os.Base.{ℕ, ◌≡◌, ◌≢◌, refl, ◌∙◌, ap, inl, some, List, [], ◌∷◌, ◌++◌, All, Memory, u8}
use mathlib.Core.List.{map}
use little_os.Framebuffer.Place.{Shows}
use little_os.Framebuffer.Screen.{Screen, type_char, type_chars}
use little_os.Framebuffer.Refine.{wiped}
use little_os.Serial.{serial_write}
use little_os.Shell.Commands.{Event, wrote, cleared}
use little_os.Syscall.{Machine, load_bytes, wipe_code}
use little_os.Syscall.Calls.{do_syscall_writes, do_syscall_clears}
use little_os.User.{int_0x80, sys_write, sys_clear, Call, writes, clears, make, perform}
use little_os.User.Sys

-- What a call asks for.
abbrev pub asked : Call → List Event
asked (writes held memory buf count) = map wrote (load_bytes memory buf count)
asked (clears held memory) = cleared ∷ []

abbrev pub asked_all : List Call → List Event
asked_all [] = []
asked_all (c ∷ cs) = asked c ++ asked_all cs

-- The screen, and the bytes on COM1, behind events.
unfoldable pub show : List Event → Screen → Screen
show [] s = s
show (wrote c ∷ es) s = show es (type_char c s)
show (cleared ∷ es) s = show es (wiped s)

unfoldable pub send : List Event → List ℕ → List ℕ
send [] line = line
send (wrote c ∷ es) line = send es (u8 c ∷ line)
send (cleared ∷ es) line = send es (serial_write wipe_code line)

-- A buffer is not null.
abbrev pub IsCall : Call → Type 0
IsCall (writes held memory buf count) = buf ≢ 0
IsCall (clears held memory) = Unit

abbrev pub memory_of : Call → Memory
memory_of (writes held memory buf count) = memory
memory_of (clears held memory) = memory

show_text : (cs : List ℕ) (s : Screen) → show (map wrote cs) s ≡ type_chars cs s
unfolding show type_chars
show_text [] s = refl
show_text (c ∷ cs) s = show_text cs (type_char c s)

send_text : (cs line : List ℕ) → send (map wrote cs) line ≡ serial_write cs line
unfolding send serial_write
send_text [] line = refl
send_text (c ∷ cs) line = send_text cs (u8 c ∷ line)

show-append : (es fs : List Event) (s : Screen) → show fs (show es s) ≡ show (es ++ fs) s
unfolding show
show-append [] fs s = refl
show-append (wrote c ∷ es) fs s = show-append es fs (type_char c s)
show-append (cleared ∷ es) fs s = show-append es fs (wiped s)

send-append : (es fs : List Event) (line : List ℕ) → send fs (send es line) ≡ send (es ++ fs) line
unfolding send
send-append [] fs line = refl
send-append (wrote c ∷ es) fs line = send-append es fs (u8 c ∷ line)
send-append (cleared ∷ es) fs line = send-append es fs (serial_write wipe_code line)

-- The machine behind calls that ask for `es`.
pub record Told (es : List Event) (s : Screen) (m m' : Machine) : Type 0 where
  pub shows : Shows m'.screen (show es s)
  pub sent : m'.line ≡ send es m.line
  pub keys : m'.keyboard ≡ m.keyboard

Told-trans :
    (es fs : List Event) (s : Screen) (m m' m'' : Machine)
    → Told es s m m'
    → Told fs (show es s) m' m''
    → Told (es ++ fs) s m m''
Told-trans es fs s m m' m'' h g = record {
  shows = rw (show-append es fs s) at g.shows;
  sent = g.sent ∙ ap (send fs) h.sent ∙ send-append es fs m.line;
  keys = g.keys ∙ h.keys;
}

make_lem :
    (c : Call) (m : Machine) (s : Screen)
    → IsCall c
    → Shows m.screen s
    → (result : ℕ) × (m' : Machine) × (make c m ≡ some (result, m')) × Told (asked c) s m m'
unfolding make sys_write sys_clear int_0x80 show send
make_lem (writes held memory buf count) m s given v =
    let (m', e, shows, sent, keys, kept) =
      do_syscall_writes [] (record held { eax = Sys.write; ebx = 1; ecx = buf; edx = count })
        (record m { memory = memory }) s refl (inl refl) given v in
    (
      count,
      m',
      rw (e, make, sys_write, int_0x80) refl,
      record {
        shows = rw (show_text (load_bytes memory buf count) s) shows;
        sent = rw (send_text (load_bytes memory buf count) m.line) sent;
        keys = keys;
      },
    )
make_lem (clears held memory) m s given v =
    let (m', e, shows, sent, keys, kept) =
      do_syscall_clears [] (record held { eax = Sys.clear }) (record m { memory = memory }) s refl
        v in
    (
      0,
      m',
      rw (e, make, sys_clear, int_0x80) refl,
      record { shows = shows; sent = sent; keys = keys },
    )

-- Calls of a program that write from buffers which are not null, or clear, on a console that shows a
-- screen, all return, one behind another: the screen then shows what the events show that the calls
-- ask for, COM1 has got the bytes of the same events, and the keyboard is as before. How a text is
-- split into calls makes no difference.
pub perform_lem :
    (calls : List Call) (m : Machine) (s : Screen)
    → All IsCall calls
    → Shows m.screen s
    → (m' : Machine) × (perform calls m ≡ some m') × Told (asked_all calls) s m m'
unfolding perform show send
perform_lem [] m s proper v = (m, refl, record { shows = v; sent = refl; keys = refl })
perform_lem (c ∷ calls) m s proper v =
    let (result, m', e, told) = make_lem c m s proper.0 v in
    let (m'', e', told') = perform_lem calls m' (show (asked c) s) proper.1 told.shows in
    (m'', rw (e, perform) e', Told-trans (asked c) (asked_all calls) s m m' m'' told told')
