-- ===== src/Kmain.antt =====
-- kernel/kmain.c: the start of the kernel.
-- The addresses that the linker and the boot loader choose are a parameter. The bytes of the boot
-- loader are a memory of their own. The waits for the UART and the drain of `keyboard_init` touch no
-- state of the kernel: the run of `kmain` in the child Start has them.
pub mod Multiboot
pub mod Hex
pub mod Console
pub mod Start
use little_os.Base.{
  ℕ, zero, suc, ◌+◌, ◌-◌, ◌*◌, ◌/◌, ◌^◌, Bool, true, false, not, ◌&&◌, Option, none, some, List, [],
  ◌∷◌, Memory, bit_and, store8, load32, ltb, ◌==◌, if◌then◌else◌, sub32, bytes,
}
use little_os.Kheap.{Kheap, kheap_init, kmalloc, kfree}
use little_os.Kheap.Stats.{kheap_print_stats}
use little_os.Keyboard.{Keyboard, keyboard_init}
use little_os.Framebuffer.{Framebuffer, set_color, fb_write}
use little_os.Framebuffer
use little_os.Framebuffer.Palette
use little_os.Serial.{Ports, serial_init, serial_write, serial_write_char}
use little_os.Interrupts.{pic_remap}
use little_os.Tables.{IdtEntry, IdtPtr, Segments, idt_init, gdt_init, tss_set_kernel_stack}
use little_os.Syscall.{syscall_init}
use little_os.Paging.{Places, Paging, paging_init, paging_setup_user_process}

-- The interrupt handlers that the drivers register.
pub data Driver : Type 0 where
  keyboard_interrupt_handler serial_interrupt_handler : Driver

-- What the linker and the assembly give.
pub record Linked : Type 0 where
  pub gdt : ℕ
  pub idt : ℕ
  pub tss : ℕ
  pub stubs : ℕ → ℕ
  pub int128_handler : ℕ
  pub heap_start : ℕ
  pub places : Places
  pub kernel_stack : ℕ
  pub physical_start : ℕ
  pub physical_end : ℕ
  pub virtual_start : ℕ
  pub virtual_end : ℕ

-- `user` is the entry point and the stack of the user mode, when it is entered.
pub record Kernel : Type 0 where
  pub screen : Framebuffer
  pub line : List ℕ
  pub ports : Ports
  pub handlers : ℕ → Option Driver
  pub segments : Segments
  pub idt : ℕ → IdtEntry
  pub idtr : IdtPtr
  pub keyboard : Keyboard
  pub paging : Paging
  pub heap : Kheap
  pub interrupts_enabled : Bool
  pub user : Option (ℕ × ℕ)

-- `strlen`, from `len` on.
pub strlen_loop : (fuel : ℕ) → Memory → (str len : ℕ) → Option ℕ
strlen_loop zero m str len = none
strlen_loop (suc fuel) m str len = elim (m (str + len) == 0) [
  | true ↦ some len
  | false ↦ strlen_loop fuel m str (len + 1)
]

pub bytes_from : Memory → (str len : ℕ) → List ℕ
bytes_from m str zero = []
bytes_from m str (suc len) = m str ∷ bytes_from m (str + 1) len

-- `print` of a literal.
pub print : List ℕ → Kernel → Kernel
print text k = record k { screen = fb_write text k.screen }

-- `print` of a string in the memory.
pub print_string : (fuel : ℕ) → Memory → (str : ℕ) → Kernel → Option Kernel
print_string fuel m str k = elim (strlen_loop fuel m str 0) [
  | none ↦ none
  | some len ↦ some (print (bytes_from m str len) k)
]

pub colour : ℕ → Kernel → Kernel
colour fg k = record k { screen = set_color fg Palette.black k.screen }

pub send : List ℕ → Kernel → Kernel
send text k = record k { line = serial_write text k.line }

pub hex_char : ℕ → ℕ
hex_char nibble = if ltb nibble 10 then b'0' + nibble else b'A' + nibble - 10

-- The loop of `print_hex`: `left` is `i + 1`.
pub hex_loop : (left n : ℕ) → List ℕ
hex_loop zero n = []
hex_loop (suc i) n = hex_char (bit_and (n / 2 ^ (i * 4)) 0xF) ∷ hex_loop i n

pub print_hex : ℕ → Kernel → Kernel
print_hex n k = print (b'0' ∷ b'x' ∷ hex_loop 8 n) k

pub print_stats : Kernel → Kernel
print_stats k =
    let (screen, line) = kheap_print_stats k.heap (k.screen, k.line) in
    record k { screen = screen; line = line }

pub register : ℕ → Driver → Kernel → Kernel
register n driver k = record k { handlers = λ v. if v == n then some driver else k.handlers v }

-- The loop that copies the text of the test.
pub copy_text : List ℕ → (to : ℕ) → Memory → Memory
copy_text [] to m = store8 m to 0
copy_text (c ∷ cs) to m = copy_text cs (to + 1) (store8 m to c)
