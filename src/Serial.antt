-- ===== src/Serial.antt =====
-- drivers/serial.c: the UART of COM1.
-- A line is the bytes sent on it, newest first. The waits for the UART, and what it holds, are in the
-- child Uart; here the status and the data of a read are its arguments.
pub mod Rate
pub mod Ring
pub mod Uart
use little_os.Base.{
  ℕ, ◌+◌, ◌/◌, ◌^◌, Option, none, some, List, [], ◌∷◌, bit_and, leb, ◌==◌, if◌then◌else◌, u8, u16,
}
use little_os.Keyboard.{Keyboard, put_char}

-- A list of `outb` calls, newest first: the port and the byte.
abbrev pub Ports : Type 0
Ports = List (ℕ × ℕ)

abbrev pub serial_com1_base : ℕ
serial_com1_base = 0x3F8

abbrev pub data_port : ℕ → ℕ
data_port base = base

abbrev pub int_enable_port : ℕ → ℕ
int_enable_port base = base + 1

abbrev pub fifo_command_port : ℕ → ℕ
fifo_command_port base = base + 2

abbrev pub line_command_port : ℕ → ℕ
line_command_port base = base + 3

abbrev pub modem_command_port : ℕ → ℕ
modem_command_port base = base + 4

abbrev pub line_enabled_dlab : ℕ
line_enabled_dlab = 0x80

pub divisor : ℕ → ℕ
divisor baud_rate =
    if leb 110 baud_rate
    then u16 (115200 / baud_rate)
    else (if baud_rate == 0 then 1 else u16 baud_rate)

pub config_baud_rate : (base baud_rate : ℕ) → Ports → Ports
config_baud_rate base baud_rate ports =
    (data_port base + 1, u8 (bit_and (divisor baud_rate / 2 ^ 8) 0xFF))
    ∷ (data_port base, u8 (bit_and (divisor baud_rate) 0xFF))
    ∷ (line_command_port base, line_enabled_dlab)
    ∷ ports

pub config_line : (base : ℕ) → Ports → Ports
config_line base ports = (line_command_port base, 0x03) ∷ ports

pub config_buffers : (base : ℕ) → Ports → Ports
config_buffers base ports = (fifo_command_port base, 0x07) ∷ ports

pub config_modem : (base : ℕ) → Ports → Ports
config_modem base ports = (modem_command_port base, 0x0B) ∷ ports

-- `serial_init`, which also registers the handler for vector 36.
pub serial_init : Ports → Ports
serial_init ports =
    (int_enable_port serial_com1_base, 0x01)
    ∷ config_modem serial_com1_base (
        config_buffers serial_com1_base
          (config_line serial_com1_base (config_baud_rate serial_com1_base 115200 ports)))

unfoldable pub serial_write : List ℕ → List ℕ → List ℕ
serial_write [] line = line
serial_write (c ∷ cs) line = serial_write cs (u8 c ∷ line)

unfoldable pub serial_write_char : ℕ → List ℕ → List ℕ
serial_write_char c line = u8 c ∷ line

-- `serial_read_char`, with `serial_receive`: bit 0 of the status is Data Ready.
unfoldable pub serial_read_char : (status byte : ℕ) → Option ℕ
serial_read_char status byte = if bit_and status 1 == 0 then none else some (u8 byte)

-- `serial_interrupt_handler`: the bytes that are ready go to the keyboard's buffer.
pub serial_interrupt : List ℕ → Keyboard → Keyboard
serial_interrupt [] k = k
serial_interrupt (c ∷ cs) k = serial_interrupt cs (put_char (u8 c) k)
