-- ===== src/Kmain/Multiboot.antt =====
-- include/kernel/multiboot.h: what the boot loader leaves in the memory.
use little_os.Base.{ℕ, ◌+◌, ◌*◌, Memory, load16, load32}

-- `MULTIBOOT_INFO_MODS`
abbrev pub info_mods : ℕ
info_mods = 8

pub record Module : Type 0 where
  pub mod_start : ℕ
  pub mod_end : ℕ
  pub string : ℕ
  pub reserved : ℕ

pub record Info : Type 0 where
  pub flags : ℕ
  pub mem_lower : ℕ
  pub mem_upper : ℕ
  pub boot_device : ℕ
  pub cmdline : ℕ
  pub mods_count : ℕ
  pub mods_addr : ℕ
  pub syms : ℕ → ℕ
  pub mmap_length : ℕ
  pub mmap_addr : ℕ
  pub drives_length : ℕ
  pub drives_addr : ℕ
  pub config_table : ℕ
  pub boot_loader_name : ℕ
  pub apm_table : ℕ
  pub vbe_control_info : ℕ
  pub vbe_mode_info : ℕ
  pub vbe_mode : ℕ
  pub vbe_interface_seg : ℕ
  pub vbe_interface_off : ℕ
  pub vbe_interface_len : ℕ

-- The structure at an address; the fields are packed.
abbrev pub read_module : Memory → ℕ → Module
read_module m a = record {
  mod_start = load32 m a;
  mod_end = load32 m (a + 4);
  string = load32 m (a + 8);
  reserved = load32 m (a + 12);
}

abbrev pub read_info : Memory → ℕ → Info
read_info m a = record {
  flags = load32 m a;
  mem_lower = load32 m (a + 4);
  mem_upper = load32 m (a + 8);
  boot_device = load32 m (a + 12);
  cmdline = load32 m (a + 16);
  mods_count = load32 m (a + 20);
  mods_addr = load32 m (a + 24);
  syms = λ i. load32 m (a + 28 + 4 * i);
  mmap_length = load32 m (a + 44);
  mmap_addr = load32 m (a + 48);
  drives_length = load32 m (a + 52);
  drives_addr = load32 m (a + 56);
  config_table = load32 m (a + 60);
  boot_loader_name = load32 m (a + 64);
  apm_table = load32 m (a + 68);
  vbe_control_info = load32 m (a + 72);
  vbe_mode_info = load32 m (a + 76);
  vbe_mode = load16 m (a + 80);
  vbe_interface_seg = load16 m (a + 82);
  vbe_interface_off = load16 m (a + 84);
  vbe_interface_len = load16 m (a + 86);
}
