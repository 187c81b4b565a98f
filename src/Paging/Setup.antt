-- ===== src/Paging/Setup.antt =====
-- The tables after `paging_setup_user_process`, entry by entry.
use little_os.Base.{
  ℕ, ◌+◌, ◌*◌, ◌≤◌, ◌<◌, ◌≡◌, inl, inr, refl, ◌∙◌, ap, false, bit_or, Memory, store8, store8_self,
  store8_ne, arith, ◌==◌,
}
use little_os.Paging.{
  Places, Paging, virtual_to_physical, user_page, user_code_max_pages, clear_page, clear_pages,
  load_pages, map_process, paging_setup_user_process,
}
use little_os.Paging.Loops.{clear_page_inside, clear_tables_lem, clear_pages_inside}
use little_os.Paging.Load.{
  image, loaded_lem, entry, Keeps, load_pages-Keeps, load_pages_inside, load_pages_outside,
}

blank : Paging → Paging
blank s = record s {
  user_directory = clear_page 1024 0 s.user_directory;
  code_table = clear_page 1024 0 s.code_table;
  stack_table = clear_page 1024 0 s.stack_table;
  code_pages = clear_pages user_code_max_pages 0 s.code_pages;
  stack_page = clear_page 4096 0 s.stack_page;
}

module _ (at : Places) (memory : Memory) (start size : ℕ) (s : Paging) where
  filled : Paging
  filled = load_pages at memory start size user_code_max_pages 0 (blank s)

  unfoldable pub after : Paging
  after = paging_setup_user_process at memory start size s

  after_lem : after ≡ map_process at filled
  unfolding after filled blank paging_setup_user_process
  after_lem = rw (clear_tables_lem 1024 0 s) refl

  kept : Keeps at memory start size (blank s) filled
  unfolding filled
  kept = load_pages-Keeps at memory start size user_code_max_pages 0 (blank s)

  -- The directory: the code, the stack, the kernel, and nothing else.
  pub directory_low : after.user_directory 0 ≡ bit_or (virtual_to_physical at.code_table) user_page
  unfolding map_process store8
  directory_low = rw after_lem refl

  pub directory_stack :
      after.user_directory 767 ≡ bit_or (virtual_to_physical at.stack_table) user_page
  unfolding map_process store8
  directory_stack = rw after_lem refl

  pub directory_kernel : after.user_directory 768 ≡ s.boot_directory 768
  unfolding map_process store8 blank
  directory_kernel = rw after_lem (ap (λ (f : ℕ → ℕ). f 768) kept.boot_directory)

  pub directory_other :
      (i : ℕ)
      → i < 1024
      → (i == 0) ≡ false
      → (i == 767) ≡ false
      → (i == 768) ≡ false
      → after.user_directory i ≡ 0
  unfolding map_process blank
  directory_other i small a b c =
      let e0 : ℕ = bit_or (virtual_to_physical at.code_table) user_page in
      let e1 : ℕ = bit_or (virtual_to_physical at.stack_table) user_page in
      let d : ℕ → ℕ = filled.user_directory in
      rw after_lem (
        store8_ne (store8 (store8 d 0 e0) 767 e1) 768 (filled.boot_directory 768) i
          (ground (arith, c))
        ∙ store8_ne (store8 d 0 e0) 767 e1 i (ground (arith, b))
        ∙ store8_ne d 0 e0 i (ground (arith, a))
        ∙ ap (λ (f : ℕ → ℕ). f i) kept.user_directory
        ∙ clear_page_inside 1024 0 s.user_directory i (omega arith) (omega arith))

  -- The tables of the code and of the stack.
  pub code_entry : (p : ℕ) → p < 16 → after.code_table p ≡ entry at p
  unfolding map_process filled
  code_entry p small =
      rw after_lem
        (load_pages_inside at memory start size user_code_max_pages 0 (blank s) p (omega arith)
          (omega arith)).0

  pub code_absent : (p : ℕ) → 16 ≤ p → p < 1024 → after.code_table p ≡ 0
  unfolding map_process filled blank
  code_absent p large small = rw after_lem (
      (load_pages_outside at memory start size user_code_max_pages 0 (blank s) p
        (inr (omega arith))).0
      ∙ clear_page_inside 1024 0 s.code_table p (omega arith) (omega arith))

  pub stack_entry : after.stack_table 1023 ≡ bit_or (virtual_to_physical at.stack_page) user_page
  unfolding map_process
  stack_entry =
      rw after_lem
        (store8_self filled.stack_table 1023 (bit_or (virtual_to_physical at.stack_page) user_page))

  pub stack_absent : (p : ℕ) → p < 1023 → after.stack_table p ≡ 0
  unfolding map_process blank
  stack_absent p small = rw after_lem (
      store8_ne filled.stack_table 1023 (bit_or (virtual_to_physical at.stack_page) user_page) p
        (inl small)
      ∙ ap (λ (f : ℕ → ℕ). f p) kept.stack_table
      ∙ clear_page_inside 1024 0 s.stack_table p (omega arith) (omega arith))

  pub page_holds :
      (p x : ℕ) → p < 16 → x < 4096 → after.code_pages p x ≡ image memory start size (p * 4096 + x)
  unfolding map_process filled blank
  page_holds p x small inside = rw after_lem (
      ap (λ (f : ℕ → ℕ). f x)
        (load_pages_inside at memory start size user_code_max_pages 0 (blank s) p (omega arith)
          (omega arith)).1
      ∙ loaded_lem memory start size p (clear_pages 16 0 s.code_pages p) x inside
          (clear_pages_inside 16 0 s.code_pages p x (omega arith) (omega arith) inside))

  pub cr3_lem : after.cr3 ≡ virtual_to_physical at.user_directory
  unfolding map_process
  cr3_lem = rw after_lem refl
