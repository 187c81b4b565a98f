-- ===== src/Framebuffer/Screen.antt =====
-- What the console promises: a screen of 25 rows of 80 cells, with a cursor in rows and columns.
use little_os.Base.{ℕ, ◌+◌, ◌-◌, ◌*◌, ◌/◌, ◌&&◌, List, [], ◌∷◌, ltb, leb, ◌==◌, if◌then◌else◌}

-- `paint` is the attribute byte of what is written next.
pub record Screen : Type 0 where
  pub glyph : (row col : ℕ) → ℕ
  pub colour : (row col : ℕ) → ℕ
  pub row : ℕ
  pub col : ℕ
  pub paint : ℕ

-- A character in one cell.
unfoldable pub write_at : (row col c : ℕ) → Screen → Screen
write_at row col c s = record s {
  glyph = λ r k. if r == row && k == col then c else s.glyph r k;
  colour = λ r k. if r == row && k == col then s.paint else s.colour r k;
}

-- The next line.
unfoldable pub newline : Screen → Screen
newline s = record s { row = s.row + 1; col = 0 }

-- One cell on, and from the end of a line to the next one.
unfoldable pub advance : Screen → Screen
advance s = if s.col == 79 then newline s else record s { col = s.col + 1 }

-- The next tab stop; the last one of a line is the next line.
unfoldable pub tab : Screen → Screen
tab s = if s.col / 8 == 9 then newline s else record s { col = (s.col / 8 + 1) * 8 }

-- One cell back, which is erased; nothing at the first cell.
unfoldable pub rub_out : Screen → Screen
rub_out s =
    if s.col == 0
    then (if s.row == 0
        then s
        else record (write_at (s.row - 1) 79 32 s) { row = s.row - 1; col = 79 })
    else record (write_at s.row (s.col - 1) 32 s) { col = s.col - 1 }

unfoldable pub act : ℕ → Screen → Screen
act c s =
    if c == 10
    then newline s
    else if c == 13
    then record s { col = 0 }
    else if c == 9
    then tab s
    else if c == 8
    then rub_out s
    else advance (write_at s.row s.col c s)

-- Below the last row all rows go up by one, and the last one is blank.
unfoldable pub scroll_up : Screen → Screen
scroll_up s =
    if leb 25 s.row
    then record s {
      glyph = λ r k. if ltb r 24 then s.glyph (r + 1) k else 32;
      colour = λ r k. if ltb r 24 then s.colour (r + 1) k else s.paint;
      row = 24;
      col = 0;
    }
    else s

unfoldable pub type_char : ℕ → Screen → Screen
type_char c s = scroll_up (act c s)

unfoldable pub type_chars : List ℕ → Screen → Screen
type_chars [] s = s
type_chars (c ∷ cs) s = type_chars cs (type_char c s)
