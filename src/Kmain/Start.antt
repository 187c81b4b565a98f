-- ===== src/Kmain/Start.antt =====
-- `kmain`, stage by stage.
pub mod Texts
pub mod Shown
pub mod Sent
pub mod Tested
pub mod Boot
pub mod Sample
mod Examples
use Texts.{rule, test_str}
use little_os.Base.{
  leb, ◌||◌, take, length, ℕ, zero, suc, ◌+◌, ◌-◌, ◌*◌, ◌/◌, ◌^◌, Bool, true, false, not, ◌&&◌,
  Option, none, some, List, [], ◌∷◌, Memory, bit_and, store8, load32, ltb, ◌==◌, if◌then◌else◌,
  sub32, bytes,
}
use little_os.Serial.Uart.{Uart, write}
use little_os.Kheap.{Kheap, kheap_init, kmalloc, kfree}
use little_os.Kheap.Stats.{kheap_print_stats}
use little_os.Keyboard.{Keyboard, keyboard_init, drain}
use little_os.Framebuffer.{Framebuffer, set_color, fb_write}
use little_os.Framebuffer
use little_os.Framebuffer.Palette
use little_os.Serial.{Ports, serial_init, serial_write, serial_write_char}
use little_os.Interrupts.{pic_remap}
use little_os.Tables.{IdtEntry, Segments, idt_init, idtr_init, gdt_init, tss_set_kernel_stack}
use little_os.Syscall.{syscall_init}
use little_os.Paging.{
  user_entry_point, user_stack_top, Places, Paging, paging_init, paging_setup_user_process,
}
use little_os.Kmain.Multiboot.{info_mods, read_info, read_module}
use little_os.Kmain.{
  Driver, keyboard_interrupt_handler, serial_interrupt_handler, Linked, Kernel, print, print_string,
  colour, send, print_hex, print_stats, register, copy_text,
}

-- The console and the serial line.
pub start_console : Kernel → Kernel
start_console k =
    let cleared = colour Palette.light_cyan (record k { screen = Framebuffer.clear k.screen }) in
    let named =
      print (bytes "                 Developed by AmiyaSokiya (amiyasociu@gmail.com)  \n") (
        print (bytes "                 Welcome to Little Kernel v0.1.0                 \n")
          (print rule cleared)) in
    let banner =
      print (bytes "=================================================================\n\n") named in
    print (bytes "[ OK ] Hardware cursor synchronization active.\n\n") (
      print (bytes "[ OK ] Cursor auto-advance enabled.\n") (
        print (bytes "[ OK ] Framebuffer driver initialized successfully.\n")
          (colour Palette.light_green banner)))

pub start_serial : Kernel → Kernel
start_serial k =
    let k1 = colour Palette.light_magenta k in
    let k2 = register 36 serial_interrupt_handler (record k1 { ports = serial_init k1.ports }) in
    let k3 = record k2 { line = serial_write_char b'E' (serial_write_char b'A' k2.line) } in
    print (bytes "[ OK ] Serial driver initialized with IRQ 4 successfully!\n")
      (send (bytes " [Serial COM1] LittleOS Serial Driver initialized successfully!\r\n") k3)

-- The tables of the processor.
pub start_tables : Linked → Kernel → Kernel
start_tables at k =
    let k1 =
      print (bytes "[ OK ] GDT initialized & loaded successfully.\n")
        (record k { segments = gdt_init at.gdt at.tss k.segments }) in
    let k2 =
      print (bytes "[ OK ] IDT initialized & loaded with 48 interrupt gates.\n")
        (record k1 { idt = idt_init at.stubs k1.idt; idtr = idtr_init at.idt }) in
    print (bytes "[ OK ] Syscall handler registered at INT 0x80 (DPL=3).\n")
      (record k2 { idt = syscall_init at.int128_handler k2.idt })

pub start_devices : Linked → Kernel → Kernel
start_devices at k =
    let k1 =
      print (bytes "[ OK ] PIC remapped (Master: 0x20, Slave: 0x28).\n")
        (record k { ports = pic_remap k.ports }) in
    let k2 = print (bytes "[ OK ] PS/2 Keyboard driver initialized on IRQ 1.\n") (
      register 33 keyboard_interrupt_handler
        (record k1 { keyboard = keyboard_init k1.keyboard })) in
    let k3 =
      print (bytes "[ OK ] Higher-Half Paging active (Kernel at 0xC0100000, 3GB Virtual Base).\n")
        (record k2 { paging = paging_init at.places k2.paging }) in
    print (bytes "[ OK ] Kernel Bitmap Heap initialized (256 KB, 32B block size).\n")
      (record k3 { heap = kheap_init at.heap_start k3.heap })

-- What the test does with the memory that `kmalloc` gives.
pub use_test : Linked → (test_alloc : ℕ) → Kernel → Option Kernel
use_test at test_alloc k =
    let filled = record k {
      heap = record k.heap { memory = copy_text test_str test_alloc k.heap.memory };
    } in
    elim (print_string 27 filled.heap.memory test_alloc (print (bytes "  -> ") filled)) [
      | none ↦ none
      | some printed ↦
          let stats = print_stats printed in
          let freed = record stats { heap = kfree at.heap_start test_alloc stats.heap } in
          some (print_stats (print (bytes "  -> Freed test block. ") freed))
    ]

pub test_heap : Linked → Kernel → Option Kernel
test_heap at k =
    let (test_alloc, heap) = kmalloc at.heap_start 128 k.heap in
    elim (test_alloc == 0) [
      | true ↦ some (record (colour Palette.light_brown k) { heap = heap })
      | false ↦ use_test at test_alloc (record (colour Palette.light_brown k) { heap = heap })
    ]

pub print_layout : Linked → Kernel → Kernel
print_layout at k =
    let k1 =
      print_hex at.physical_start
        (print (bytes "[ MEM ] Kernel Physical: ") (colour Palette.light_cyan k)) in
    let k2 = print_hex at.physical_end (print (bytes " -> ") k1) in
    let k3 = print_hex at.virtual_start (print (bytes "\n[ MEM ] Kernel Virtual : ") k2) in
    print (bytes "\n") (print_hex at.virtual_end (print (bytes " -> ") k3))

pub enable_interrupts : Kernel → Kernel
enable_interrupts k =
    let k1 =
      print (bytes "[ OK ] CPU interrupts enabled (sti).\n\n")
        (record k { interrupts_enabled = true }) in
    let k2 = print rule (colour Palette.light_cyan k1) in
    colour Palette.white
      (print (bytes "[ OK ] Kernel initialization complete. Transitioning to User Mode...\n\n") k2)

-- `enter_user_mode`, which the assembly does.
pub enter_user_mode : (eip user_esp : ℕ) → Kernel → Kernel
enter_user_mode eip user_esp k = record k { user = some (eip, user_esp) }

-- The module stands in the memory `m` from `mod_start` on.
pub start_process : Linked → Memory → (mod_start mod_size : ℕ) → Kernel → Kernel
start_process at m mod_start mod_size k =
    let k1 =
      print (bytes "[ OK ] GRUB module found! Configuring User Mode (Ring 3)...\n")
        (colour Palette.light_green k) in
    let k2 =
      print (bytes "[ OK ] User Page Directory & Tables mapped with U/S = 1.\n") (record k1 {
        paging = paging_setup_user_process at.places m mod_start mod_size k1.paging;
      }) in
    let k3 =
      print (bytes "[ OK ] TSS Ring 0 stack pointer configured.\n")
        (record k2 { segments = tss_set_kernel_stack (at.kernel_stack + 4096) k2.segments }) in
    let k4 =
      send (bytes "[User Mode] Switching to Ring 3 via iret (CS=0x1B, SS=0x23, EIP=0x0)...\r\n") (
        print (bytes "[ INFO ] Executing iret to drop CPU privilege into Ring 3...\n")
          (colour Palette.light_cyan k3)) in
    enter_user_mode user_entry_point user_stack_top k4

-- `kmain` returns to the loader, which halts, or it enters the user mode, from where nothing comes
-- back to it.
pub data Outcome : Type 0 where
  returned entered : Kernel → Outcome

-- A range that the tables of the loader map: the first 4 MB, at 0 and at the kernel's base.
abbrev pub is_mapped : (a count : ℕ) → Bool
is_mapped a count = leb (a + count) 0x400000 || (leb 0xC0000000 a && leb (a + count) 0xC0400000)

-- The boot loader gives a module.
abbrev pub has_module : Memory → (info : ℕ) → Bool
has_module m info =
    not (bit_and (read_info m info).flags info_mods == 0) && ltb 0 (read_info m info).mods_count

-- What is read of the boot loader's memory is mapped: its structure up to `mods_addr`, and, where there
-- is a module, the two fields of its description and the bytes that are copied. A read elsewhere
-- faults.
pub is_readable : Memory → (mb_info : ℕ) → Bool
is_readable m mb_info =
    let modules = read_module m (read_info m mb_info).mods_addr in
    let size = sub32 modules.mod_end modules.mod_start in
    is_mapped mb_info 28
    && (not (has_module m mb_info)
        || (is_mapped (read_info m mb_info).mods_addr 8
            && (size == 0
                || is_mapped modules.mod_start (if ltb 0x10000 size then 0x10000 else size))))

-- `mb_info` is the address of the structure of the boot loader.
pub start_user : Linked → Memory → (mb_info : ℕ) → Kernel → Outcome
start_user at m mb_info k =
    let modules = read_module m (read_info m mb_info).mods_addr in
    if has_module m mb_info
    then entered (start_process at m modules.mod_start (sub32 modules.mod_end modules.mod_start) k)
    else returned
        (print (bytes "[ WARN ] No Multiboot module found.\n") (colour Palette.light_red k))

abbrev pub state_of : Outcome → Kernel
state_of (returned k) = k
state_of (entered k) = k

pub turned : List ℕ → (behind : List ℕ) → List ℕ
turned [] behind = behind
turned (c ∷ cs) behind = turned cs (c ∷ behind)

-- What the line carries behind `before`, oldest first. The newest byte is at the front of a line.
pub since : (before line : List ℕ) → List ℕ
since before line = turned (take (length line - length before) line) []

-- The run: `status i` is the `i`-th reading of the status port of the keyboard's controller, which
-- `keyboard_init` reads until it is empty, and the bytes for COM1 go to the UART, each behind the wait
-- for the transmitter. The result also counts the bytes that the controller drops. `fuel` is that of
-- each wait. There is no result where a wait does not end, or
-- where the boot loader's memory faults.
module _ (uart : Uart) (fuel : ℕ) (status : ℕ → ℕ) where
  pub kmain :
      Linked
      → Memory
      → (info : ℕ) → Kernel
      → Uart.State uart
      → Option (Outcome × Uart.State uart × ℕ)
  kmain at m info k u =
      let started = start_devices at (start_tables at (start_serial (start_console k))) in
      elim (drain status fuel 0) [
        | none ↦ none
        | some dropped ↦ elim (test_heap at started) [
          | none ↦ none
          | some tested ↦ elim (is_readable m info) [
            | false ↦ none
            | true ↦
                let outcome = start_user at m info (enable_interrupts (print_layout at tested)) in
                elim (write uart fuel (since k.line (state_of outcome).line) u) [
                  | none ↦ none
                  | some u' ↦ some (outcome, u', dropped)
                ]
          ]
        ]
      ]
