-- ===== src/Framebuffer/Examples.antt =====
-- Runs of the console, and its theorems at a console whose cursor is near the end.
use little_os.Base.{◌≡◌, refl, [], ◌∷◌, arith}
use little_os.Framebuffer.{Framebuffer, put_char, fb_write, place, settle}
use little_os.Framebuffer.Screen.{Screen, type_char, type_chars}
use little_os.Framebuffer.Loops.{attribute_lem}
use little_os.Framebuffer.Place.{Shows}
use little_os.Framebuffer.Refine.{put_char-Shows, fb_write-Shows}

-- White on black, with the cursor in the last cell.
abbrev last_cell : Framebuffer
last_cell = record { cells = λ i. 0; cursor = 1999; fg = 15; bg = 0; ports = [] }

abbrev last_screen : Screen
last_screen = record { glyph = λ r k. 0; colour = λ r k. 0; row = 24; col = 79; paint = 15 }

last-Shows : Shows last_cell last_screen
last-Shows = record {
  tracks = record {
    displays = record { glyphs = λ r k lr lk. refl; colours = λ r k lr lk. refl };
    cursor_at = refl;
    col_in = omega arith;
    cursor_in = omega arith;
    painted = attribute_lem 15 0;
  };
  on_screen = omega arith;
}

-- The text `A`, a tab and a backspace, on an empty console.
abbrev first_cell : Framebuffer
first_cell = record last_cell { cursor = 0 }

write_three : (fb_write (b'A' ∷ 9 ∷ 8 ∷ []) first_cell).cursor ≡ 7
unfolding fb_write put_char place settle
write_three = refl

put_char-Shows_example : Shows (put_char b'A' last_cell) (type_char b'A' last_screen)
put_char-Shows_example = put_char-Shows b'A' last_cell last_screen last-Shows

fb_write-Shows_example :
    Shows (fb_write (b'A' ∷ 10 ∷ []) last_cell) (type_chars (b'A' ∷ 10 ∷ []) last_screen)
fb_write-Shows_example = fb_write-Shows (b'A' ∷ 10 ∷ []) last_cell last_screen last-Shows
