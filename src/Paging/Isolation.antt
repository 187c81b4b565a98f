-- ===== src/Paging/Isolation.antt =====
-- The user process may access what is mapped for it, and nothing else.
use little_os.Base.{
  ℕ, ◌+◌, ◌/◌, ◌%◌, ◌^◌, ◌≤◌, ◌<◌, ◌≡◌, ◌⊎◌, inl, inr, refl, ◌∙◌, ap, true, false, sym, Bool-cases,
  Memory, store8, arith, dec_lt, ◌==◌,
}
use little_os.Paging.{Places, Paging, virtual_to_physical, paging_init, paging_setup_user_process}
use little_os.Paging.Walk.{walk, user_can, present, user, frame, flags_lem, walk_access}
use little_os.Paging.Setup.{
  directory_low, directory_stack, directory_kernel, directory_other, code_absent, stack_absent,
  cr3_lem, after,
}
use little_os.Paging.Space.{IsPlaced, Holds, page_aligned, user_entry}

kernel_entry :
    (at : Places) (s : Paging) → IsPlaced at → user ((paging_init at s).boot_directory 768) ≡ false
unfolding paging_init store8
kernel_entry at s placed =
    let e =
      flags_lem (virtual_to_physical at.boot_table) 3 (page_aligned at.boot_table placed.boot_table)
        (omega arith) in
    let bits : (virtual_to_physical at.boot_table + 3) / 4 % 2 ≡ 0 =
      omega (arith, page_aligned at.boot_table placed.boot_table) in
    rw (e, bits) refl

apart : true ≡ false → ⊥
apart e = cc

not_present_zero : {e : ℕ} → e ≡ 0 → present e ≡ true → ⊥
not_present_zero e p = ground (arith, e, p)

module _ (at : Places) (memory : Memory) (start size : ℕ) (old : Paging) (ram : ℕ → ℕ → ℕ)
    (placed : IsPlaced at)
    (holds : Holds at
      (paging_setup_user_process at memory start size (paging_init at old))
      ram) where
  isolated_code :
      (v : ℕ) (e : ℕ)
      → v < 2 ^ 22
      → e ≡ virtual_to_physical at.code_table + 7
      → present (ram (frame e) (v / 2 ^ 12 % 1024)) ≡ true
      → v < 2 ^ 16
  unfolding after
  isolated_code v e low at_e p = elim (dec_lt v (2 ^ 16)) [
    | yes inside ↦ inside
    | no outside ↦
        let s : Paging = paging_init at old in
        let t : Paging = paging_setup_user_process at memory start size s in
        let base : frame e ≡ virtual_to_physical at.code_table =
          omega (arith, at_e, page_aligned at.code_table placed.code_table) in
        let p' = rw (base, holds.code) at p in
        absurd (
          not_present_zero
            (code_absent at memory start size s (v / 2 ^ 12 % 1024) (omega arith) (omega arith)) p')
  ]

  isolated_stack :
      (v : ℕ) (e : ℕ)
      → v / 2 ^ 22 ≡ 767
      → e ≡ virtual_to_physical at.stack_table + 7
      → present (ram (frame e) (v / 2 ^ 12 % 1024)) ≡ true
      → v / 2 ^ 12 % 1024 ≡ 1023
  unfolding after
  isolated_stack v e slot at_e p = elim (dec_lt (v / 2 ^ 12 % 1024) 1023) [
    | no last ↦ omega arith
    | yes other ↦
        let s : Paging = paging_init at old in
        let base : frame e ≡ virtual_to_physical at.stack_table =
          omega (arith, at_e, page_aligned at.stack_table placed.stack_table) in
        let p' = rw (base, holds.stack) at p in
        absurd (not_present_zero (stack_absent at memory start size s (v / 2 ^ 12 % 1024) other) p')
  ]

  -- Where the tables and the frames stand on pages of the kernel and the physical memory holds what
  -- `paging_init` and then `paging_setup_user_process` leave in the tables, the process may access
  -- no address but the 64 KB at zero and the page of its stack below the kernel's half.
  pub paging_setup_isolates :
      (v : ℕ)
      → v < 2 ^ 32
      → user_can
          (walk ram (paging_setup_user_process at memory start size (paging_init at old)).cr3 v)
        ≡ true
      → (v < 2 ^ 16) ⊎ ((0xBFFFF000 ≤ v) × (v < 0xC0000000))
  unfolding after
  paging_setup_isolates v small access =
      let s : Paging = paging_init at old in
      let t : Paging = paging_setup_user_process at memory start size s in
      let d : ℕ = virtual_to_physical at.user_directory in
      let access' = rw (cr3_lem at memory start size s) at access in
      let met =
        walk_access ram d v (t.user_directory (v / 2 ^ 22))
          (page_aligned at.user_directory placed.user_directory)
          (ap (λ (f : ℕ → ℕ). f (v / 2 ^ 22)) holds.directory) access' in
      elim (Bool-cases (v / 2 ^ 22 == 0)) [
        | inl low ↦
            let slot : v / 2 ^ 22 ≡ 0 = ground (arith, low) in
            let at_e =
              ap t.user_directory slot
              ∙ directory_low at memory start size s
              ∙ user_entry at.code_table placed.code_table in
            inl (isolated_code v (t.user_directory (v / 2 ^ 22)) (omega arith) at_e met.2)
        | inr not_low ↦ elim (Bool-cases (v / 2 ^ 22 == 767)) [
          | inl stack ↦
              let slot : v / 2 ^ 22 ≡ 767 = ground (arith, stack) in
              let at_e =
                ap t.user_directory slot
                ∙ directory_stack at memory start size s
                ∙ user_entry at.stack_table placed.stack_table in
              let page = isolated_stack v (t.user_directory (v / 2 ^ 22)) slot at_e met.2 in
              inr (omega (arith, page, slot), omega (arith, page, slot))
          | inr not_stack ↦ elim (Bool-cases (v / 2 ^ 22 == 768)) [
            | inl kernel ↦
                let slot : v / 2 ^ 22 ≡ 768 = ground (arith, kernel) in
                let at_e = ap t.user_directory slot ∙ directory_kernel at memory start size s in
                let barred = ap user at_e ∙ kernel_entry at old placed in
                absurd (apart (sym met.1 ∙ barred))
            | inr not_kernel ↦ absurd (
                not_present_zero
                  (directory_other at memory start size s (v / 2 ^ 22) (omega arith) not_low
                    not_stack not_kernel)
                  met.0)
          ]
        ]
      ]
