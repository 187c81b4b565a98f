-- ===== src/Framebuffer/Refine.antt =====
-- The driver shows the screen: `fb_put_char` keeps the relation between the bytes of video memory
-- and the rows and columns, and with it the bounds of the cursor.
use little_os.Base.{
  ℕ, ◌+◌, ◌*◌, ◌%◌, ◌≤◌, ◌<◌, ◌≡◌, refl, ap, ◌∙◌, inl, inr, true, List, [], ◌∷◌, ltb, leb, ◌==◌,
  if◌then◌else◌, arith, Bool-cases,
}
use little_os.Framebuffer.{
  Framebuffer, num_cols, num_rows, blank, attribute, move_loop, scroll, clear, place, settle,
  put_char, fb_write,
}
use little_os.Framebuffer.Loops.{move_loop_lem, blank_loop_lem}
use little_os.Framebuffer.Place.{offset, Tracks, Shows, place-Tracks}
use little_os.Framebuffer.Screen.{Screen, act, scroll_up, type_char, type_chars}

ports-Shows :
    (f : Framebuffer) (s : Screen) {ports : List (ℕ × ℕ)}
    → Shows f s
    → Shows (record f { ports = ports }) s
ports-Shows f s v = record {
  tracks = record {
    displays = v.tracks.displays;
    cursor_at = v.tracks.cursor_at;
    col_in = v.tracks.col_in;
    cursor_in = v.tracks.cursor_in;
    painted = v.tracks.painted;
  };
  on_screen = v.on_screen;
}

scroll_cursor : (f : Framebuffer) → (scroll f).cursor ≡ 1920
unfolding scroll
scroll_cursor f = refl

scroll_paint : (f : Framebuffer) → attribute (scroll f).fg (scroll f).bg ≡ attribute f.fg f.bg
unfolding scroll
scroll_paint f = refl

-- A byte of the scrolled video memory.
scrolled :
    (f : Framebuffer) (x : ℕ)
    → x < 4000
    → (scroll f).cells x ≡ (
        if ltb x 3840
        then f.cells (x + 160)
        else (if x % 2 == 0 then blank else attribute f.fg f.bg))
unfolding scroll
scrolled f x h = ground (
  arith,
  blank_loop_lem 80 3840 (attribute f.fg f.bg) (move_loop 3840 0 f.cells) x,
  move_loop_lem 3840 0 f.cells x,
)

-- The scroll on both sides.
scroll-Shows :
    (f : Framebuffer) (s : Screen) → Tracks f s → 2000 ≤ f.cursor → Shows (scroll f) (scroll_up s)
unfolding scroll_up
scroll-Shows f s v low =
    let below : leb 25 s.row ≡ true = ground (arith, v.cursor_at, v.col_in) in
    rw (below, scroll_up)
      record {
        tracks = record {
          displays = record {
            glyphs = λ r k lr lk. ground (
              arith,
              scrolled f (offset r k),
              v.displays.glyphs (r + 1) k,
              ap f.cells (next_row r k),
            );
            colours = λ r k lr lk. ground (
              arith,
              scrolled f (offset r k + 1),
              v.displays.colours (r + 1) k,
              ap (λ x. f.cells (x + 1)) (next_row r k),
              ap f.cells (shift r k),
              v.painted,
            );
          };
          cursor_at = scroll_cursor f;
          col_in = omega arith;
          cursor_in = omega (arith, scroll_cursor f);
          painted = scroll_paint f ∙ v.painted;
        };
        on_screen = omega (arith, scroll_cursor f);
      }
  where
    next_row : (r k : ℕ) → offset r k + 160 ≡ offset (r + 1) k
    next_row r k = omega arith

    shift : (r k : ℕ) → offset r k + 1 + 160 ≡ offset r k + 160 + 1
    shift r k = omega arith

scroll_up_same : (s : Screen) → s.row < 25 → scroll_up s ≡ s
unfolding scroll_up
scroll_up_same s h = ground arith

-- The second half of `fb_put_char` brings the cursor back on the screen.
settle-Shows : (f : Framebuffer) (s : Screen) → Tracks f s → Shows (settle f) (scroll_up s)
unfolding settle
settle-Shows f s v = elim (Bool-cases (leb (num_cols * num_rows) f.cursor)) [
  | inl low ↦ rw (low, settle) (ports-Shows _ _ (scroll-Shows f s v (ground arith)))
  | inr on ↦
      rw (on, settle, scroll_up_same s (ground (arith, v.cursor_at)))
        (ports-Shows f _ (record { tracks = v; on_screen = ground arith }))
]

-- On a console that shows a screen, `fb_put_char` types the character: every control code, the end
-- of a line and the scroll at the end of the last one.
pub put_char-Shows :
    (c : ℕ) (f : Framebuffer) (s : Screen) → Shows f s → Shows (put_char c f) (type_char c s)
unfolding put_char type_char
put_char-Shows c f s v = settle-Shows (place c f) (act c s) (place-Tracks f s v c)

-- On a console that shows a screen, `fb_write` leaves one that shows the screen with the text
-- typed.
pub fb_write-Shows :
    (cs : List ℕ) (f : Framebuffer) (s : Screen)
    → Shows f s
    → Shows (fb_write cs f) (type_chars cs s)
unfolding fb_write type_chars
fb_write-Shows [] f s v = v
fb_write-Shows (c ∷ cs) f s v =
    fb_write-Shows cs (put_char c f) (type_char c s) (put_char-Shows c f s v)

-- `fb_clear` shows a blank screen in the current colours, with the cursor at its first cell.
pub clear-Shows :
    (f : Framebuffer)
    → Shows (clear f) (record {
      glyph = λ r k. 32;
      colour = λ r k. attribute f.fg f.bg;
      row = 0;
      col = 0;
      paint = attribute f.fg f.bg;
    })
unfolding clear
clear-Shows f = record {
  tracks = record {
    displays = record {
      glyphs = λ r k lr lk.
          ground (arith, blank_loop_lem 2000 0 (attribute f.fg f.bg) f.cells (offset r k));
      colours = λ r k lr lk.
          ground (arith, blank_loop_lem 2000 0 (attribute f.fg f.bg) f.cells (offset r k + 1));
    };
    cursor_at = refl;
    col_in = omega arith;
    cursor_in = omega arith;
    painted = refl;
  };
  on_screen = omega arith;
}

-- The screen that `fb_clear` leaves, from one that is shown.
abbrev pub wiped : Screen → Screen
wiped s = record { glyph = λ r k. 32; colour = λ r k. s.paint; row = 0; col = 0; paint = s.paint }

pub clear-wiped : (f : Framebuffer) (s : Screen) → Shows f s → Shows (clear f) (wiped s)
clear-wiped f s v = rw v.tracks.painted at (clear-Shows f)
