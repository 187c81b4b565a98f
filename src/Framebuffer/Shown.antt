-- ===== src/Framebuffer/Shown.antt =====
-- A console that shows some screen: its cursor is on the screen.
use little_os.Base.{ℕ, List, refl}
use little_os.Framebuffer.{Framebuffer, attribute, set_color, clear, fb_write}
use little_os.Framebuffer.Screen.{Screen, type_chars}
use little_os.Framebuffer.Place.{Shows}
use little_os.Framebuffer.Refine.{fb_write-Shows, clear-Shows}

abbrev pub IsShown : Framebuffer → Type 0
IsShown f = (s : Screen) × Shows f s

pub clear-IsShown : (f : Framebuffer) → IsShown (clear f)
clear-IsShown f = (_, clear-Shows f)

pub fb_write-IsShown : (cs : List ℕ) (f : Framebuffer) → IsShown f → IsShown (fb_write cs f)
fb_write-IsShown cs f (s, v) = (type_chars cs s, fb_write-Shows cs f s v)

-- The screen stays, and what is typed next has the new colours.
pub set_color-IsShown : (fg bg : ℕ) (f : Framebuffer) → IsShown f → IsShown (set_color fg bg f)
unfolding set_color
set_color-IsShown fg bg f (s, v) = (
  record s { paint = attribute fg bg },
  record {
    tracks = record {
      displays = v.tracks.displays;
      cursor_at = v.tracks.cursor_at;
      col_in = v.tracks.col_in;
      cursor_in = v.tracks.cursor_in;
      painted = refl;
    };
    on_screen = v.on_screen;
  },
)

pub ruleset shown_rules = (clear-IsShown, fb_write-IsShown, set_color-IsShown)
