-- ===== src/Framebuffer/Ports.antt =====
-- What `fb_put_char` leaves alone outside of the screen, and the hardware cursor.
use little_os.Base.{
  ℕ, ◌+◌, ◌-◌, ◌*◌, ◌/◌, ◌%◌, ◌^◌, ◌≤◌, ◌<◌, ◌≡◌, refl, ◌∙◌, List, ◌∷◌, store8, bit_and_mask, arith,
}
use little_os.Framebuffer.{
  Framebuffer, blank, attribute, write_cell, move_cursor, move_loop, scroll, place, settle,
  put_char,
}
use little_os.Framebuffer.Screen.{Screen, type_char}
use little_os.Framebuffer.Place.{Shows}
use little_os.Framebuffer.Refine.{put_char-Shows}
use little_os.Framebuffer.Loops.{move_loop_lem, blank_loop_lem}

write_cell_outside :
    (offset c fg bg : ℕ) (cells : ℕ → ℕ) (x : ℕ)
    → offset + 1 < x
    → write_cell offset c fg bg cells x ≡ cells x
unfolding write_cell store8
write_cell_outside offset c fg bg cells x h = ground arith

place_outside :
    (c : ℕ) (f : Framebuffer) (x : ℕ) → f.cursor < 2000 → 4000 ≤ x → (place c f).cells x ≡ f.cells x
unfolding place
place_outside c f x on out = ground (
  arith,
  write_cell_outside (f.cursor * 2) c f.fg f.bg f.cells x,
  write_cell_outside ((f.cursor - 1) * 2) blank f.fg f.bg f.cells x,
)

scroll_outside : (f : Framebuffer) (x : ℕ) → 4000 ≤ x → (scroll f).cells x ≡ f.cells x
unfolding scroll
scroll_outside f x out = ground (
  arith,
  blank_loop_lem 80 3840 (attribute f.fg f.bg) (move_loop 3840 0 f.cells) x,
  move_loop_lem 3840 0 f.cells x,
)

settle_outside : (f : Framebuffer) (x : ℕ) → 4000 ≤ x → (settle f).cells x ≡ f.cells x
unfolding settle
settle_outside f x out = ground (arith, scroll_outside f x)

-- With the cursor on the screen, a character changes no byte after the 4000 of the screen.
pub put_char_outside :
    (c : ℕ) (f : Framebuffer) (x : ℕ)
    → f.cursor < 2000
    → 4000 ≤ x
    → (put_char c f).cells x ≡ f.cells x
unfolding put_char
put_char_outside c f x on out = settle_outside (place c f) x out ∙ place_outside c f x on out

place_ports : (c : ℕ) (f : Framebuffer) → (place c f).ports ≡ f.ports
unfolding place
place_ports c f = ground arith

scroll_ports : (f : Framebuffer) → (scroll f).ports ≡ f.ports
unfolding scroll
scroll_ports f = refl

settle_ports : (f : Framebuffer) → (settle f).ports ≡ move_cursor (settle f).cursor f.ports
unfolding settle
settle_ports f = ground (arith, scroll_ports f)

move_cursor_lem :
    (pos : ℕ) (ports : List (ℕ × ℕ))
    → pos < 2 ^ 16
    → move_cursor pos ports
      ≡ (0x3D5, pos % 256) ∷ (0x3D4, 15) ∷ (0x3D5, pos / 256) ∷ (0x3D4, 14) ∷ ports
unfolding move_cursor
move_cursor_lem pos ports h = ground (arith, bit_and_mask 8 pos, bit_and_mask 8 (pos / 256))

put_char-settle :
    (c : ℕ) (f : Framebuffer) → (put_char c f).ports ≡ move_cursor (put_char c f).cursor f.ports
unfolding put_char
put_char-settle c f = settle_ports (place c f) ∙ rw (place_ports c f)

-- After each character the hardware cursor is sent the position of the screen's cursor, high byte
-- to register 14 and low byte to register 15.
pub put_char_ports :
    (c : ℕ) (f : Framebuffer) (s : Screen)
    → Shows f s
    → let pos = (type_char c s).row * 80 + (type_char c s).col in
      (put_char c f).ports
      ≡ (0x3D5, pos % 256) ∷ (0x3D4, 15) ∷ (0x3D5, pos / 256) ∷ (0x3D4, 14) ∷ f.ports
put_char_ports c f s v =
    let w = put_char-Shows c f s v in
    put_char-settle c f
    ∙ move_cursor_lem (put_char c f).cursor f.ports (omega (arith, w.on_screen))
    ∙ rw w.tracks.cursor_at
