-- ===== src/Kmain/Start/Sample.antt =====
-- Addresses of a linker, a kernel before its first line and a module of the boot loader, for examples.
use little_os.Base.{
  load32, ℕ, refl, true, ◌≡◌, ◌+◌, ◌*◌, false, none, [], Memory, ◌==◌, if◌then◌else◌, arith,
}
use little_os.Kmain.{Linked, Kernel}
use little_os.Kmain.Start.Boot.{IsLinked, Answers}
use little_os.Kmain.Start.{is_readable}
use little_os.Serial.Uart.Sample.{Line, line}

abbrev pub at : Linked
at = record {
  gdt = 0xC0110000;
  idt = 0xC0110100;
  tss = 0xC0110040;
  stubs = λ v. 0xC0100000 + 16 * v;
  int128_handler = 0xC0101234;
  heap_start = 0xC0120000;
  places = record {
    boot_table = 0xC0161000;
    user_directory = 0xC0162000;
    code_table = 0xC0163000;
    stack_table = 0xC0164000;
    code_pages = 0xC0165000;
    stack_page = 0xC0175000;
  };
  kernel_stack = 0xC0180000;
  physical_start = 0x100000;
  physical_end = 0x190000;
  virtual_start = 0xC0100000;
  virtual_end = 0xC0190000;
}

pub at-IsLinked : IsLinked at
at-IsLinked = record {
  heap = omega arith;
  places = record {
    boot_table = omega arith;
    user_directory = omega arith;
    code_table = omega arith;
    stack_table = omega arith;
    code_pages = omega arith;
    code_fits = omega arith;
    stack_page = omega arith;
  };
  handler = omega arith;
  stubs = λ v low. omega arith;
  stack = omega arith;
}

-- The state before the first line of `kmain`.
abbrev pub loaded : Kernel
loaded = record {
  screen = record { cells = λ i. 7; cursor = 90; fg = 15; bg = 0; ports = [] };
  line = [];
  ports = [];
  handlers = λ v. none;
  segments = record {
    gdt = λ n. record {
      limit_low = 1;
      base_low = 1;
      base_middle = 1;
      access = 1;
      granularity = 1;
      base_high = 1;
    };
    gdtr = record { limit = 0; base = 0 };
    tss = λ i. 0;
  };
  idt = λ v. record {
    offset_lowerbits = 1;
    selector = 1;
    reserved = 1;
    type_attr = 0xEE;
    offset_higherbits = 1;
  };
  idtr = record { limit = 0; base = 0 };
  keyboard = record { shift_active = false; buffer = λ i. 0; head = 0; tail = 0; count = 0 };
  paging = record {
    boot_directory = λ i. 0;
    user_directory = λ i. 5;
    code_table = λ i. 5;
    stack_table = λ i. 5;
    code_pages = λ p i. 5;
    stack_page = λ i. 5;
    cr3 = 0;
  };
  heap = record { memory = λ a. 1; bitmap = λ i. 255; initialized = false };
  interrupts_enabled = false;
  user = none;
}

-- The structure at 0x10000 has a module, which is described at 0x20000.
abbrev pub given : Memory
given a =
    if a == 0x10000
    then 8
    else if a == 0x10000 + 20
    then 1
    else if a == 0x10000 + 26
    then 2
    else if a == 0x20000 + 2
    then 0x30
    else if a == 0x20000 + 5
    then 1
    else if a == 0x20000 + 6
    then 0x30
    else 0

pub given-is_readable : is_readable given 0x10000 ≡ true
unfolding load32 is_readable
given-is_readable = refl

-- The controller of the keyboard holds one byte.
abbrev pub one_byte : ℕ → ℕ
one_byte i = if i == 0 then 0x1D else 0x1C

-- The transmitter is busy with an earlier byte.
abbrev pub silent : Line
silent = record { waiting = []; out = []; shifting = true }

pub line-Answers : Answers line one_byte 3
line-Answers = record {
  pending = 1;
  busy = λ i first. ground arith;
  idle = refl;
  enough = omega arith;
  patient = omega arith;
}
