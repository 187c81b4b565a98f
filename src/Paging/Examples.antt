-- ===== src/Paging/Examples.antt =====
-- A process with a module of 5000 bytes.
use little_os.Base.{ℕ, ◌≤◌, ◌<◌, ◌≡◌, ◌⊎◌, refl, ap, true, Memory, ◌==◌, if◌then◌else◌, u8, arith}
use little_os.Paging.{Places, Paging, paging_init, paging_setup_user_process}
use little_os.Paging.Walk.{walk, user_can}
use little_os.Paging.Space.{IsPlaced, Holds, paging_setup_stack}
use little_os.Paging.Isolation.{paging_setup_isolates}

abbrev at : Places
at = record {
  boot_table = 0xC0101000;
  user_directory = 0xC0102000;
  code_table = 0xC0103000;
  stack_table = 0xC0104000;
  code_pages = 0xC0105000;
  stack_page = 0xC0115000;
}

abbrev booted : Paging
booted = record {
  boot_directory = λ i. 0;
  user_directory = λ i. 5;
  code_table = λ i. 5;
  stack_table = λ i. 5;
  code_pages = λ p i. 5;
  stack_page = λ i. 5;
  cr3 = 0;
}

abbrev memory : Memory
memory a = u8 a

at-IsPlaced : IsPlaced at
at-IsPlaced = record {
  boot_table = omega arith;
  user_directory = omega arith;
  code_table = omega arith;
  stack_table = omega arith;
  code_pages = omega arith;
  code_fits = omega arith;
  stack_page = omega arith;
}

abbrev process : Paging
process = paging_setup_user_process at memory 0xC0200000 5000 (paging_init at booted)

abbrev ram : ℕ → ℕ → ℕ
ram a =
    if a == 0x102000
    then process.user_directory
    else if a == 0x103000
    then process.code_table
    else process.stack_table

process-Holds : Holds at process ram
process-Holds = record { directory = refl; code = refl; stack = refl }

stack_access : user_can (walk ram process.cr3 0xBFFFFFFB) ≡ true
stack_access = ap user_can (
    paging_setup_stack at memory 0xC0200000 5000 (paging_init at booted) ram at-IsPlaced
      process-Holds 0xBFFFFFFB (omega arith) (omega arith))

paging_setup_isolates_example :
    (0xBFFFFFFB < 65536) ⊎ ((0xBFFFF000 ≤ 0xBFFFFFFB) × (0xBFFFFFFB < 0xC0000000))
paging_setup_isolates_example =
    paging_setup_isolates at memory 0xC0200000 5000 booted ram at-IsPlaced process-Holds 0xBFFFFFFB
      (omega arith) stack_access
