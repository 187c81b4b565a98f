-- ===== src/Framebuffer/Place.antt =====
-- How the driver shows a screen, and the first half of `fb_put_char` on both sides.
use little_os.Base.{
  ℕ, ◌+◌, ◌-◌, ◌*◌, ◌/◌, ◌^◌, ◌≤◌, ◌<◌, ◌≡◌, refl, sym, ◌∙◌, inl, inr, true, false, ltb, ◌==◌, u16,
  store8, arith, Bool-cases, bit_and,
}
use little_os.Framebuffer.{Framebuffer, num_cols, blank, attribute, write_cell, place}
use little_os.Framebuffer.Loops.{tab_stop}
use little_os.Framebuffer.Screen.{Screen, write_at, newline, advance, tab, rub_out, act}

-- The byte offset of a cell.
abbrev pub offset : (row col : ℕ) → ℕ
offset row col = (row * 80 + col) * 2

-- The cells of the screen are in video memory.
pub record Displays (cells : ℕ → ℕ) (glyph colour : ℕ → ℕ → ℕ) : Type 0 where
  pub glyphs : (r k : ℕ) → r < 25 → k < 80 → cells (offset r k) ≡ glyph r k
  pub colours : (r k : ℕ) → r < 25 → k < 80 → cells (offset r k + 1) ≡ colour r k

-- The driver's state and the screen between the two halves of `fb_put_char`: the cursor may stand
-- at the start of the row below the last one.
pub record Tracks (f : Framebuffer) (s : Screen) : Type 0 where
  pub displays : Displays f.cells s.glyph s.colour
  pub cursor_at : f.cursor ≡ s.row * 80 + s.col
  pub col_in : s.col < 80
  pub cursor_in : f.cursor ≤ 2000
  pub painted : attribute f.fg f.bg ≡ s.paint

-- The driver shows the screen, and the cursor is on it.
pub record Shows (f : Framebuffer) (s : Screen) : Type 0 where
  pub tracks : Tracks f s
  pub on_screen : f.cursor < 2000

-- Writing one cell on both sides.
Displays-write :
    (cells : ℕ → ℕ) (s : Screen) (fg bg row col c : ℕ)
    → Displays cells s.glyph s.colour
    → attribute fg bg ≡ s.paint
    → row < 25
    → col < 80
    → Displays
        (write_cell (offset row col) c fg bg cells)
        (write_at row col c s).glyph
        (write_at row col c s).colour
unfolding write_cell write_at store8
Displays-write cells s fg bg row col c d p hr hc = record {
  glyphs = λ r k lr lk. ground (arith, d.glyphs r k);
  colours = λ r k lr lk. ground (arith, d.colours r k);
}

module _ (f : Framebuffer) (s : Screen) (v : Shows f s) where
  -- A cursor that moves to another cell, or just below the screen.
  moved-Tracks :
      (cells : ℕ → ℕ) (pos : ℕ) (t : Screen)
      → Displays cells t.glyph t.colour
      → t.paint ≡ s.paint
      → pos ≡ t.row * 80 + t.col
      → t.col < 80
      → pos ≤ 2000
      → Tracks (record f { cells = cells; cursor = pos }) t
  moved-Tracks cells pos t d paint at col_in pos_in = record {
    displays = d;
    cursor_at = at;
    col_in = col_in;
    cursor_in = pos_in;
    painted = v.tracks.painted ∙ sym paint;
  }

  at_cell : (f.cursor ≡ s.row * 80 + s.col) × (s.col < 80) × (f.cursor < 2000)
  at_cell = (v.tracks.cursor_at, v.tracks.col_in, v.on_screen)

  newline-Tracks :
      Tracks (record f { cursor = u16 ((f.cursor / num_cols + 1) * num_cols) }) (newline s)
  unfolding newline
  newline-Tracks =
      moved-Tracks f.cells _ _ v.tracks.displays refl (omega (arith, at_cell)) (omega arith)
        (omega (arith, at_cell))

  return-Tracks :
      Tracks (record f { cursor = u16 (f.cursor / num_cols * num_cols) }) (record s { col = 0 })
  return-Tracks =
      moved-Tracks f.cells _ _ v.tracks.displays refl (omega (arith, at_cell)) (omega arith)
        (omega (arith, at_cell))

  tab-Tracks : Tracks (record f { cursor = u16 (bit_and (f.cursor + 8) (2 ^ 32 - 8)) }) (tab s)
  unfolding newline tab
  tab-Tracks = rw (tab_stop f.cursor (omega (arith, at_cell))) (elim (Bool-cases (s.col / 8 == 9)) [
    | inl e ↦
        rw (e, tab)
          (moved-Tracks f.cells _ _ v.tracks.displays refl (ground (arith, at_cell)) (omega arith)
            (omega (arith, at_cell)))
    | inr n ↦
        rw (n, tab)
          (moved-Tracks f.cells _ _ v.tracks.displays refl (ground (arith, at_cell))
            (ground (arith, at_cell)) (omega (arith, at_cell)))
  ])

  -- Writing the cell at the cursor, or another one of the screen.
  written :
      (row col pos c : ℕ)
      → pos ≡ offset row col
      → row < 25
      → col < 80
      → Displays
          (write_cell pos c f.fg f.bg f.cells)
          (write_at row col c s).glyph
          (write_at row col c s).colour
  written row col pos c at hr hc =
      rw at (Displays-write f.cells s f.fg f.bg row col c v.tracks.displays v.tracks.painted hr hc)

  print-Tracks :
      (c : ℕ)
      → Tracks
          (record f {
            cells = write_cell (f.cursor * 2) c f.fg f.bg f.cells;
            cursor = u16 (f.cursor + 1);
          })
          (advance (write_at s.row s.col c s))
  unfolding advance newline write_at
  print-Tracks c =
      let d =
        written s.row s.col (f.cursor * 2) c (omega (arith, at_cell)) (omega (arith, at_cell))
          (omega (arith, at_cell)) in
      elim (Bool-cases (s.col == 79)) [
        | inl e ↦
            rw (e, advance)
              (moved-Tracks _ _ _ d refl (ground (arith, at_cell)) (omega arith)
                (omega (arith, at_cell)))
        | inr n ↦
            rw (n, advance)
              (moved-Tracks _ _ _ d refl (ground (arith, at_cell)) (ground (arith, at_cell))
                (omega (arith, at_cell)))
      ]

  erase-Tracks :
      0 < f.cursor
      → Tracks
          (record f {
            cells = write_cell ((f.cursor - 1) * 2) blank f.fg f.bg f.cells;
            cursor = f.cursor - 1;
          })
          (rub_out s)
  unfolding rub_out write_at
  erase-Tracks pos = elim (Bool-cases (s.col == 0)) [
    | inl e ↦
        let first : (s.row == 0) ≡ false = ground (arith, at_cell) in
        rw (e, first, rub_out)
          (moved-Tracks _ _ _
            (written (s.row - 1) 79 ((f.cursor - 1) * 2) blank (ground (arith, at_cell))
              (omega (arith, at_cell)) (omega arith))
            refl (ground (arith, at_cell)) (omega arith) (omega (arith, at_cell)))
    | inr n ↦
        rw (n, rub_out)
          (moved-Tracks _ _ _
            (written s.row (s.col - 1) ((f.cursor - 1) * 2) blank (ground (arith, at_cell))
              (omega (arith, at_cell)) (omega (arith, at_cell)))
            refl (ground (arith, at_cell)) (omega (arith, at_cell)) (omega (arith, at_cell)))
  ]

  stay-Tracks : f.cursor ≡ 0 → Tracks f (rub_out s)
  unfolding rub_out
  stay-Tracks e =
      let col : (s.col == 0) ≡ true = ground (arith, at_cell) in
      let row : (s.row == 0) ≡ true = ground (arith, at_cell) in rw (col, row, rub_out) v.tracks

  pub place-Tracks : (c : ℕ) → Tracks (place c f) (act c s)
  unfolding place act
  place-Tracks c = elim (Bool-cases (c == 10)) [
    | inl e ↦ rw (e, place, act) newline-Tracks
    | inr n1 ↦ elim (Bool-cases (c == 13)) [
      | inl e ↦ rw (n1, e, place, act) return-Tracks
      | inr n2 ↦ elim (Bool-cases (c == 9)) [
        | inl e ↦ rw (n1, n2, e, place, act) tab-Tracks
        | inr n3 ↦ elim (Bool-cases (c == 8)) [
          | inl e ↦ elim (Bool-cases (ltb 0 f.cursor)) [
            | inl pos ↦ rw (n1, n2, n3, e, pos, place, act) (erase-Tracks (ground arith))
            | inr at_zero ↦ rw (n1, n2, n3, e, at_zero, place, act) (stay-Tracks (ground arith))
          ]
          | inr n4 ↦ rw (n1, n2, n3, n4, place, act) (print-Tracks c)
        ]
      ]
    ]
  ]
