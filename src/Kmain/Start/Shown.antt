-- ===== src/Kmain/Start/Shown.antt =====
-- The stages of `kmain` leave a console that shows a screen.
use little_os.Base.{bytes, ℕ, Memory}
use little_os.Framebuffer.Palette
use little_os.Framebuffer.Shown.{IsShown}
use little_os.Kmain.{Linked, Kernel, print, colour, send, register}
use little_os.Kmain.Console.{console_rules}
use little_os.Kmain.Start.{
  start_console, start_serial, start_tables, start_devices, print_layout, enable_interrupts,
  enter_user_mode, start_process,
}

pub start_console-IsShown : (k : Kernel) → IsShown (start_console k).screen
unfolding start_console
start_console-IsShown k = search (console_rules) depth 12

pub start_serial-IsShown : (k : Kernel) → IsShown k.screen → IsShown (start_serial k).screen
unfolding start_serial send register
start_serial-IsShown k v = search console_rules

pub start_tables-IsShown :
    (at : Linked) (k : Kernel) → IsShown k.screen → IsShown (start_tables at k).screen
unfolding start_tables
start_tables-IsShown at k v = search console_rules

pub start_devices-IsShown :
    (at : Linked) (k : Kernel) → IsShown k.screen → IsShown (start_devices at k).screen
unfolding start_devices register
start_devices-IsShown at k v = search console_rules

pub print_layout-IsShown :
    (at : Linked) (k : Kernel) → IsShown k.screen → IsShown (print_layout at k).screen
unfolding print_layout
print_layout-IsShown at k v = search (console_rules) depth 12

pub enable_interrupts-IsShown :
    (k : Kernel) → IsShown k.screen → IsShown (enable_interrupts k).screen
unfolding enable_interrupts
enable_interrupts-IsShown k v = search console_rules

pub start_process-IsShown :
    (at : Linked) (m : Memory) (start size : ℕ) (k : Kernel)
    → IsShown k.screen
    → IsShown (start_process at m start size k).screen
unfolding start_process enter_user_mode send
start_process-IsShown at m start size k v = search (console_rules) depth 12

-- What `start_user` prints without a module.
pub warned-IsShown :
    (k : Kernel)
    → IsShown k.screen
    → IsShown
        (print (bytes "[ WARN ] No Multiboot module found.\n") (colour Palette.light_red k)).screen
warned-IsShown k v = search (console_rules) depth 12
