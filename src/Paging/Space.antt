-- ===== src/Paging/Space.antt =====
-- The address space of the user process: what it maps.
use little_os.Base.{
  ℕ, ◌+◌, ◌/◌, ◌%◌, ◌^◌, ◌≤◌, ◌<◌, ◌≡◌, ◌∙◌, ap, true, some, bit_or, Memory, arith,
}
use little_os.Paging.{Places, Paging, virtual_to_physical, user_page, paging_setup_user_process}
use little_os.Paging.Walk.{walk, IsPage, flags_lem, walk_user}
use little_os.Paging.Setup.{directory_stack, stack_entry, cr3_lem, after}

-- The linker puts the tables and the frames on pages of the kernel's half.
pub record IsPlaced (at : Places) : Type 0 where
  pub boot_table : IsPage at.boot_table
  pub user_directory : IsPage at.user_directory
  pub code_table : IsPage at.code_table
  pub stack_table : IsPage at.stack_table
  pub code_pages : IsPage at.code_pages
  pub code_fits : at.code_pages + 2 ^ 16 ≤ 2 ^ 32
  pub stack_page : IsPage at.stack_page

-- The physical memory holds the tables where they stand.
pub record Holds (at : Places) (s : Paging) (ram : ℕ → ℕ → ℕ) : Type 0 where
  pub directory : ram (virtual_to_physical at.user_directory) ≡ s.user_directory
  pub code : ram (virtual_to_physical at.code_table) ≡ s.code_table
  pub stack : ram (virtual_to_physical at.stack_table) ≡ s.stack_table

pub page_aligned : (a : ℕ) → IsPage a → virtual_to_physical a % 4096 ≡ 0
page_aligned a p = omega (arith, p)

pub user_entry :
    (a : ℕ) → IsPage a → bit_or (virtual_to_physical a) user_page ≡ virtual_to_physical a + 7
user_entry a p = flags_lem (virtual_to_physical a) 7 (page_aligned a p) (omega arith)

module _ (at : Places) (memory : Memory) (start size : ℕ) (s : Paging) (ram : ℕ → ℕ → ℕ)
    (placed : IsPlaced at)
    (holds : Holds at (paging_setup_user_process at memory start size s) ram) where
  -- The page below the kernel's half is the page of the stack.
  pub paging_setup_stack :
      (v : ℕ)
      → 0xBFFFF000 ≤ v
      → v < 0xC0000000
      → walk ram (paging_setup_user_process at memory start size s).cr3 v
        ≡ some (record {
          address = virtual_to_physical at.stack_page + v % 4096;
          user = true;
          writable = true;
        })
  unfolding after
  paging_setup_stack v from to =
      let t : Paging = paging_setup_user_process at memory start size s in
      let d : ℕ = virtual_to_physical at.user_directory in
      let c : ℕ = virtual_to_physical at.stack_table in
      let slot : v / 2 ^ 22 ≡ 767 = omega arith in
      let slot' : v / 2 ^ 12 % 1024 ≡ 1023 = omega arith in
      let first : ram d (v / 2 ^ 22) ≡ c + 7 =
        ap (λ (f : ℕ → ℕ). f (v / 2 ^ 22)) holds.directory
        ∙ ap t.user_directory slot
        ∙ directory_stack at memory start size s
        ∙ user_entry at.stack_table placed.stack_table in
      let second : ram c (v / 2 ^ 12 % 1024) ≡ virtual_to_physical at.stack_page + 7 =
        ap (λ (f : ℕ → ℕ). f (v / 2 ^ 12 % 1024)) holds.stack
        ∙ ap t.stack_table slot'
        ∙ stack_entry at memory start size s
        ∙ user_entry at.stack_page placed.stack_page in
      rw (cr3_lem at memory start size s) (
        walk_user ram d v c (virtual_to_physical at.stack_page)
          (page_aligned at.user_directory placed.user_directory)
          (page_aligned at.stack_table placed.stack_table)
          (page_aligned at.stack_page placed.stack_page) first second)
