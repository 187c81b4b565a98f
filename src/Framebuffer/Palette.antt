-- ===== src/Framebuffer/Palette.antt =====
-- include/drivers/framebuffer.h: the colours of the text mode.
use little_os.Base.{ℕ}

abbrev pub black : ℕ
black = 0

abbrev pub blue : ℕ
blue = 1

abbrev pub green : ℕ
green = 2

abbrev pub cyan : ℕ
cyan = 3

abbrev pub red : ℕ
red = 4

abbrev pub magenta : ℕ
magenta = 5

abbrev pub brown : ℕ
brown = 6

abbrev pub light_grey : ℕ
light_grey = 7

abbrev pub dark_grey : ℕ
dark_grey = 8

abbrev pub light_blue : ℕ
light_blue = 9

abbrev pub light_green : ℕ
light_green = 10

abbrev pub light_cyan : ℕ
light_cyan = 11

abbrev pub light_red : ℕ
light_red = 12

abbrev pub light_magenta : ℕ
light_magenta = 13

abbrev pub light_brown : ℕ
light_brown = 14

abbrev pub white : ℕ
white = 15
