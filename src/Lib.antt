-- ===== src/Lib.antt =====
-- A model of LittleOS, a 32-bit x86 teaching kernel with a user shell.
--
-- The kernel drives a VGA text console, a PS/2 keyboard and the UART of COM1, and keeps a heap of
-- 256 KB. Keyboard and UART interrupts put characters into one ring buffer. A user program reaches
-- the drivers by `int 0x80`: SYS_WRITE types on the console and sends on COM1, SYS_READ edits a
-- line of the characters from the ring buffer, or from the UART when that is empty, and echoes
-- them. The user programs have their own string library.
--
-- Base (the conditional and comparisons of C, casts, little-endian memory, the bitwise operations)
-- is shared. The parts are:
-- - Kheap: kernel/kheap.c and include/kernel/kheap.h. The pool is the bytes from `heap_start` on,
--   which the theorems place anywhere in the 32-bit address space but at null. Bitmap, Scan and
--   Headers are about the pieces of the state; Chunks, Live and Fill are about the chunks that are
--   in use; Alloc, Init, Realloc and Usage are about the functions kmalloc, kheap_init and kcalloc,
--   krealloc and the counts. Client is what code that uses the heap can do to it from the start on,
--   Safety is about the memory that it holds, and Stats is kheap_print_stats.
-- - Keyboard: drivers/keyboard.c. Layout holds the tables kbd_us_ascii and kbd_us_ascii_shift, Queue
--   the FIFO that the driver stands for, Refine and Runs the relation of the two, Wait the loops
--   that wait. Interleave is keyboard_getchar with interrupts between its accesses, and Lost
--   a key in the last of the gaps. Fifo is the quotient of the ring's states by what is pending.
-- - Framebuffer: drivers/framebuffer.c. Screen is the text screen that the video memory stands for;
--   Loops, Place, Refine and Ports relate the two. Palette holds the colours, and Shown is about
--   consoles that show any screen.
-- - Serial: drivers/serial.c. Rate is about the divisor latch and the bytes sent, Ring about the bytes
--   that reach the ring buffer. Uart is the loops that wait for the UART, over a device with
--   documented laws: Transmit is about the writes and Receive about the interrupt, and Sample is such a
--   device.
-- - Tables: arch/x86/cpu/idt.c and arch/x86/cpu/gdt.c. Gates is about an entry, Init about the table
--   after idt_init, Rings about the segments after gdt_init and the stack of the task; Tss holds the
--   offsets of the fields of the task state segment.
-- - Interrupts: arch/x86/cpu/isr.c and drivers/pic.c. Dispatch is about what an interrupt runs and
--   acknowledges, and Effects about what it does to the devices and the screen.
-- - Syscall: kernel/syscall.c. `do_syscall` is do_syscall_in_C; `sys_read`, `sys_write` and
--   `sys_clear` are its cases. Edit is the line editor; Refine, Lines and Ends relate it to
--   SYS_READ, Echo is what SYS_READ shows of the keys, Calls is about the calls that do not wait, Keeps
--   about what every call preserves, Frame about where a call stores, Sys holds the numbers, and Gate is about the gate of syscall_init.
-- - Strings: userland/libc/src/string.c. Content says what a C string holds; Measure, Compare and
--   Copy are about strlen and strchr, strcmp, and strcpy.
-- - Stdio: userland/libc/src/stdio.c, as the bytes that a function passes to sys_write. Numbers is
--   about print_number, Format about printf, Texts and Fields about its formats of texts and
--   strings, and Conversions about all its formats.
-- - Shell: userland/shell. Shell is the tokenizer of shell.c: Words is what the words of a line are;
--   Skip, Cut and Tokenize are about the loops and the function. Commands is commands.c and the loop
--   of main: Dispatch, Echo, Fixed and Replies are about what a literal, `echo`, `help` and `about`,
--   and a line of words make the shell write, Turns about a turn of the loop, and Session about any
--   number of them.
-- - Paging: arch/x86/mmu/paging.c. Loops and Load are about the loops that clear and fill the tables
--   and the page frames, Setup about the tables that they leave; Walk is the translation of an
--   address that the processor does; Space and Isolation are about what the user process can access.
-- - Kmain: kernel/kmain.c, which starts all the parts above. Hex is about print_hex; Start is kmain,
--   stage by stage: Shown is about its messages, Sent about its bytes for COM1, Tested about the test of the heap, and Boot about the
--   state that kmain leaves, when it returns or when it enters the user mode. kmain waits for the UART
--   of Serial and drains the controller of the keyboard. Console is about its printing functions. Multiboot is
--   include/kernel/multiboot.h, as it is read from the memory of the boot loader.
-- - User: userland/libc/src/syscall.s and userland/libc/include/unistd.h, the stubs of the system
--   calls. Calls is about the calls that a program makes for its output, and Shell about a line of the
--   shell from the keys to the screen.
-- - Running: the kernel behind kmain, as a step relation of interrupts and system calls. Interrupt is
--   about the dispatch with the handlers of the drivers, Sound and Invariant about every state that
--   is reached. The buffer of a SYS_READ lies below the kernel's half there.
--
-- Numbers are natural numbers. A cast to an unsigned type is a remainder, and an operation of the
-- source that can wrap is written with its wrap. A `char` is its byte.
--
-- Loops are structural, on the count that is left. Those that have none take fuel: the drain of
-- the keyboard controller needs one turn more than there are bytes waiting, and a string function
-- one turn more than the string is long; the tokenizer needs two more than the line is long, and
-- printf one more than its format has pieces. The digits of a number are limited by the array of 32
-- that holds them. The shell gives its string functions 130 turns, more than its line and its
-- texts are long, and kmain 27 for the text of its test; the waits of kmain have a fuel of their own. A loop that waits for interrupts takes the
-- list of what arrives, and has no result while the list is too short; the loop of the shell takes the
-- list of its rounds. A wait for the transmitter of the UART needs more turns than its latency, and
-- the handler of the UART one more than bytes wait.
--
-- Not modelled: the other assembly (the loader, the stubs of interrupts and of the gate 0x80, port
-- access) and the linker scripts, which are not C; and the example of the documentation. The memory of
-- the heap, that of the console, that of the boot loader and that of the user are apart, where the
-- machine has one. So the state behind a system call that stores into the kernel's half is not that of
-- the machine: Running leaves such a call out, and Syscall.Frame says what it stores. The test of
-- do_syscall_in_C for a null frame is left out, since the stub passes the address of its frame.
pub mod Base
pub mod Kheap
pub mod Keyboard
pub mod Framebuffer
pub mod Serial
pub mod Tables
pub mod Interrupts
pub mod Syscall
pub mod Strings
pub mod Paging
pub mod Stdio
pub mod Shell
pub mod Kmain
pub mod User
pub mod Running
