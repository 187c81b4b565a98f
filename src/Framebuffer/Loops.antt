-- ===== src/Framebuffer/Loops.antt =====
-- The loops over video memory and the arithmetic of one cell, byte by byte.
use little_os.Base.{
  List, [], ◌∷◌, ◌++◌, refl, ℕ, zero, suc, ◌+◌, ◌-◌, ◌*◌, ◌/◌, ◌%◌, ◌^◌, ◌<◌, ◌≡◌, bit_and, ◌&&◌,
  ltb, leb, ◌==◌, if◌then◌else◌, store8, bit_or_fields, bit_and_mask, bit_and_high, arith,
}
use little_os.Framebuffer.{
  Framebuffer, put_char, fb_write, num_cols, blank, attribute, move_loop, blank_loop,
}

-- The attribute byte: the background in the high half, the foreground in the low half.
pub attribute_lem : (fg bg : ℕ) → attribute fg bg ≡ bg % 16 * 16 + fg % 16
unfolding attribute
attribute_lem fg bg =
    ground (arith, bit_and_mask 4 bg, bit_and_mask 4 fg, bit_or_fields 4 (bg % 16) (fg % 16))

-- `(pos + 8) & ~(8 - 1)` is the next multiple of 8.
pub tab_stop : (pos : ℕ) → pos + 8 < 2 ^ 32 → bit_and (pos + 8) (2 ^ 32 - 8) ≡ (pos / 8 + 1) * 8
tab_stop pos h =
    ground
      (arith, bit_and_high 3 (pos / 8 + 1) (pos % 8) (2 ^ 29 - 1), bit_and_mask 29 (pos / 8 + 1))

-- A byte of the moved range is the one a row below.
pub move_loop_lem :
    (left i : ℕ) (cells : ℕ → ℕ) (x : ℕ)
    → move_loop left i cells x
      ≡ (if leb i x && ltb x (i + left) then cells (x + num_cols * 2) else cells x)
unfolding move_loop store8
move_loop_lem zero i cells x = ground arith
move_loop_lem (suc left) i cells x =
    ground (arith, move_loop_lem left (i + 1) (store8 cells i (cells (i + num_cols * 2))) x)

-- A blanked range holds blanks and the attribute in turn.
pub blank_loop_lem :
    (left i paint : ℕ) (cells : ℕ → ℕ) (x : ℕ)
    → blank_loop left i paint cells x ≡ (
        if leb i x && ltb x (i + left * 2)
        then (if (x - i) % 2 == 0 then blank else paint)
        else cells x)
unfolding blank_loop store8
blank_loop_lem zero i paint cells x = ground arith
blank_loop_lem (suc left) i paint cells x =
    ground
      (arith, blank_loop_lem left (i + 2) paint (store8 (store8 cells i blank) (i + 1) paint) x)

-- Two texts behind each other are one.
pub fb_write-append :
    (cs ds : List ℕ) (f : Framebuffer) → fb_write ds (fb_write cs f) ≡ fb_write (cs ++ ds) f
unfolding fb_write
fb_write-append [] ds f = refl
fb_write-append (c ∷ cs) ds f = fb_write-append cs ds (put_char c f)

pub fb_write-nil : (f : Framebuffer) → fb_write [] f ≡ f
unfolding fb_write
fb_write-nil f = refl
