-- ===== src/Framebuffer/Sample.antt =====
-- A console for the examples.
use little_os.Base.{refl, [], arith}
use little_os.Framebuffer.{Framebuffer}
use little_os.Framebuffer.Screen.{Screen}
use little_os.Framebuffer.Place.{Shows}
use little_os.Framebuffer.Loops.{attribute_lem}

-- A white on black console with the cursor in its first cell.
abbrev pub dark : Framebuffer
dark = record { cells = λ i. 0; cursor = 0; fg = 15; bg = 0; ports = [] }

abbrev pub dark_screen : Screen
dark_screen = record { glyph = λ r k. 0; colour = λ r k. 0; row = 0; col = 0; paint = 15 }

pub dark-Shows : Shows dark dark_screen
dark-Shows = record {
  tracks = record {
    displays = record { glyphs = λ r k lr lk. refl; colours = λ r k lr lk. refl };
    cursor_at = refl;
    col_in = omega arith;
    cursor_in = omega arith;
    painted = attribute_lem 15 0;
  };
  on_screen = omega arith;
}
