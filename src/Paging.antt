-- ===== src/Paging.antt =====
-- arch/x86/mmu/paging.c: the page tables of the kernel and of the user process.
-- The tables and the page frames are functions of the index. Where the linker puts them is a
-- parameter, and so is the memory that holds the module of the boot loader.
pub mod Loops
pub mod Walk
pub mod Load
pub mod Setup
pub mod Space
pub mod Isolation
mod Examples
use little_os.Base.{
  ℕ, zero, suc, ◌+◌, ◌-◌, ◌*◌, ◌^◌, bit_or, Memory, store8, ltb, if◌then◌else◌, u8, u32, sub32,
}

abbrev pub user_stack_top : ℕ
user_stack_top = 0xBFFFFFFB

abbrev pub user_entry_point : ℕ
user_entry_point = 0x00000000

abbrev pub kernel_virtual_base : ℕ
kernel_virtual_base = 0xC0000000

-- `VIRTUAL_TO_PHYSICAL`
abbrev pub virtual_to_physical : ℕ → ℕ
virtual_to_physical a = sub32 a kernel_virtual_base

abbrev pub kernel_page : ℕ
kernel_page = 3

abbrev pub user_page : ℕ
user_page = 7

abbrev pub user_code_max_pages : ℕ
user_code_max_pages = 16

-- Where the tables and the frames stand, as the kernel sees them.
pub record Places : Type 0 where
  pub boot_table : ℕ
  pub user_directory : ℕ
  pub code_table : ℕ
  pub stack_table : ℕ
  pub code_pages : ℕ
  pub stack_page : ℕ

pub record Paging : Type 0 where
  pub boot_directory : ℕ → ℕ
  pub user_directory : ℕ → ℕ
  pub code_table : ℕ → ℕ
  pub stack_table : ℕ → ℕ
  pub code_pages : ℕ → ℕ → ℕ
  pub stack_page : ℕ → ℕ
  pub cr3 : ℕ

-- An assignment to an element of an array.
abbrev pub set : (ℕ → ℕ) → ℕ → ℕ → ℕ → ℕ
set f i v = store8 f i v

pub paging_init : Places → Paging → Paging
paging_init at s =
    let pt_phys = virtual_to_physical at.boot_table in
    record s {
      boot_directory =
          set (set s.boot_directory 0 (bit_or pt_phys kernel_page)) 768
            (bit_or pt_phys kernel_page);
    }

-- The loop that clears the three tables: `left` entries from `i` on.
pub clear_tables : (left i : ℕ) → Paging → Paging
clear_tables zero i s = s
clear_tables (suc left) i s = clear_tables left (i + 1) (record s {
  user_directory = set s.user_directory i 0;
  code_table = set s.code_table i 0;
  stack_table = set s.stack_table i 0;
})

pub clear_page : (left i : ℕ) → (ℕ → ℕ) → ℕ → ℕ
clear_page zero i page = page
clear_page (suc left) i page = clear_page left (i + 1) (set page i 0)

-- An assignment to a page of `user_code_pages`.
pub set_page : (ℕ → ℕ → ℕ) → ℕ → (ℕ → ℕ) → ℕ → ℕ → ℕ
set_page pages p page q = if ltb q p then pages q else if ltb p q then pages q else page

pub clear_pages : (left p : ℕ) → (ℕ → ℕ → ℕ) → ℕ → ℕ → ℕ
clear_pages zero p pages = pages
clear_pages (suc left) p pages =
    clear_pages left (p + 1) (set_page pages p (clear_page 4096 0 (pages p)))

-- `user_code_pages[p][i] = src[offset + i]` for `left` bytes from `i` on.
pub copy_bytes : (left i : ℕ) → Memory → (src : ℕ) → (ℕ → ℕ) → ℕ → ℕ
copy_bytes zero i memory src page = page
copy_bytes (suc left) i memory src page =
    copy_bytes left (i + 1) memory src (set page i (u8 (memory (u32 (src + i)))))

pub to_copy : (offset size : ℕ) → ℕ
to_copy offset size = if ltb size (offset + 4096) then size - offset else 4096

-- A round of the loop over the pages: `start` and `size` are those of the module.
pub load_page : Places → Memory → (start size p : ℕ) → Paging → Paging
load_page at memory start size p s =
    let offset = p * 4096 in
    let page = s.code_pages p in
    record s {
      code_pages = set_page s.code_pages p (
          if ltb offset size
          then copy_bytes (to_copy offset size) 0 memory (start + offset) page
          else page);
      code_table =
          set s.code_table p (bit_or (virtual_to_physical (at.code_pages + p * 4096)) user_page);
    }

pub load_pages : Places → Memory → (start size left p : ℕ) → Paging → Paging
load_pages at memory start size zero p s = s
load_pages at memory start size (suc left) p s =
    load_pages at memory start size left (p + 1) (load_page at memory start size p s)

-- The four assignments behind the loop, and CR3.
pub map_process : Places → Paging → Paging
map_process at s = record s {
  stack_table = set s.stack_table 1023 (bit_or (virtual_to_physical at.stack_page) user_page);
  user_directory =
      set
        (set (set s.user_directory 0 (bit_or (virtual_to_physical at.code_table) user_page)) 767
          (bit_or (virtual_to_physical at.stack_table) user_page))
        768 (s.boot_directory 768);
  cr3 = virtual_to_physical at.user_directory;
}

pub paging_setup_user_process : Places → Memory → (start size : ℕ) → Paging → Paging
paging_setup_user_process at memory start size s =
    let cleared = clear_tables 1024 0 s in
    let emptied = record cleared {
      code_pages = clear_pages user_code_max_pages 0 cleared.code_pages;
      stack_page = clear_page 4096 0 cleared.stack_page;
    } in
    map_process at (load_pages at memory start size user_code_max_pages 0 emptied)
