-- ===== src/Framebuffer.antt =====
-- drivers/framebuffer.c: the VGA text console.
-- The state is the video memory by its byte offsets, the cursor, the two colours and the writes to
-- the ports of the CRT controller, newest first. A `char` is its byte.
pub mod Loops
pub mod Palette
pub mod Screen
pub mod Place
pub mod Refine
pub mod Sample
pub mod Shown
pub mod Ports
mod Examples
use little_os.Base.{
  ℕ, zero, suc, ◌+◌, ◌-◌, ◌*◌, ◌/◌, ◌%◌, ◌^◌, bit_and, bit_or, Bool, List, [], ◌∷◌, ltb, leb, ◌==◌,
  if◌then◌else◌, u8, u16, store8,
}

abbrev pub num_cols : ℕ
num_cols = 80

abbrev pub num_rows : ℕ
num_rows = 25

abbrev pub blank : ℕ
blank = 32

abbrev pub command_port : ℕ
command_port = 0x3D4

abbrev pub crt_data_port : ℕ
crt_data_port = 0x3D5

abbrev pub high_byte_command : ℕ
high_byte_command = 14

abbrev pub low_byte_command : ℕ
low_byte_command = 15

pub record Framebuffer : Type 0 where
  pub cells : ℕ → ℕ
  pub cursor : ℕ
  pub fg : ℕ
  pub bg : ℕ
  pub ports : List (ℕ × ℕ)

-- `(char)(((bg & 0x0F) << 4) | (fg & 0x0F))`
pub attribute : (fg bg : ℕ) → ℕ
attribute fg bg = u8 (bit_or (bit_and bg 0x0F * 2 ^ 4) (bit_and fg 0x0F))

pub write_cell : (offset c fg bg : ℕ) → (ℕ → ℕ) → ℕ → ℕ
write_cell offset c fg bg cells = store8 (store8 cells offset c) (offset + 1) (attribute fg bg)

-- `fb_move_cursor`, with its four calls of `outb`.
pub move_cursor : ℕ → List (ℕ × ℕ) → List (ℕ × ℕ)
move_cursor pos ports =
    (crt_data_port, u8 (bit_and pos 0xFF))
    ∷ (command_port, low_byte_command)
    ∷ (crt_data_port, u8 (bit_and (pos / 2 ^ 8) 0xFF))
    ∷ (command_port, high_byte_command)
    ∷ ports

-- `fb[i] = fb[i + FB_NUM_COLS * 2]` for `left` bytes from `i` on.
pub move_loop : (left i : ℕ) → (ℕ → ℕ) → ℕ → ℕ
move_loop zero i cells = cells
move_loop (suc left) i cells = move_loop left (i + 1) (store8 cells i (cells (i + num_cols * 2)))

-- The loop `i += 2` that blanks `left` cells from offset `i` on.
pub blank_loop : (left i paint : ℕ) → (ℕ → ℕ) → ℕ → ℕ
blank_loop zero i paint cells = cells
blank_loop (suc left) i paint cells =
    blank_loop left (i + 2) paint (store8 (store8 cells i blank) (i + 1) paint)

pub scroll : Framebuffer → Framebuffer
scroll f = record f {
  cells =
      blank_loop num_cols ((num_rows - 1) * num_cols * 2) (attribute f.fg f.bg)
        (move_loop ((num_rows - 1) * num_cols * 2) 0 f.cells);
  cursor = (num_rows - 1) * num_cols;
}

pub clear : Framebuffer → Framebuffer
clear f = record f {
  cells = blank_loop (num_rows * num_cols) 0 (attribute f.fg f.bg) f.cells;
  cursor = 0;
  ports = move_cursor 0 f.ports;
}

pub set_color : (fg bg : ℕ) → Framebuffer → Framebuffer
set_color fg bg f = record f { fg = fg; bg = bg }

-- The first half of `fb_put_char`: the control codes and the printable characters.
pub place : ℕ → Framebuffer → Framebuffer
place c f =
    if c == 10
    then record f { cursor = u16 ((f.cursor / num_cols + 1) * num_cols) }
    else if c == 13
    then record f { cursor = u16 (f.cursor / num_cols * num_cols) }
    else if c == 9
    then record f { cursor = u16 (bit_and (f.cursor + 8) (2 ^ 32 - 8)) }
    else if c == 8
    then (if ltb 0 f.cursor
        then record f {
          cells = write_cell ((f.cursor - 1) * 2) blank f.fg f.bg f.cells;
          cursor = f.cursor - 1;
        }
        else f)
    else record f {
      cells = write_cell (f.cursor * 2) c f.fg f.bg f.cells;
      cursor = u16 (f.cursor + 1);
    }

-- The second half: scroll if the cursor has left the screen, and move the hardware cursor.
pub settle : Framebuffer → Framebuffer
settle f =
    let f' = if leb (num_cols * num_rows) f.cursor then scroll f else f in
    record f' { ports = move_cursor f'.cursor f'.ports }

pub put_char : ℕ → Framebuffer → Framebuffer
put_char c f = settle (place c f)

-- `fb_write` over the bytes of its buffer; `write` is the same function.
pub fb_write : List ℕ → Framebuffer → Framebuffer
fb_write [] f = f
fb_write (c ∷ cs) f = fb_write cs (put_char c f)
