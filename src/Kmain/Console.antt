-- ===== src/Kmain/Console.antt =====
-- What `kmain` prints leaves a console that shows a screen.
use little_os.Base.{ℕ, List}
use little_os.Framebuffer.Shown.{IsShown, fb_write-IsShown, set_color-IsShown, shown_rules}
use little_os.Kheap.Stats.{kheap_print_stats-IsShown}
use little_os.Kmain.{Kernel, print, colour, print_hex, print_stats}

pub print-IsShown : (text : List ℕ) (k : Kernel) → IsShown k.screen → IsShown (print text k).screen
unfolding print
print-IsShown text k v = search shown_rules

pub colour-IsShown : (fg : ℕ) (k : Kernel) → IsShown k.screen → IsShown (colour fg k).screen
unfolding colour
colour-IsShown fg k v = search shown_rules

pub print_hex-IsShown : (n : ℕ) (k : Kernel) → IsShown k.screen → IsShown (print_hex n k).screen
unfolding print_hex print
print_hex-IsShown n k v = search shown_rules

pub print_stats-IsShown : (k : Kernel) → IsShown k.screen → IsShown (print_stats k).screen
unfolding print_stats
print_stats-IsShown k v = kheap_print_stats-IsShown k.heap (k.screen, k.line) v

pub ruleset console_rules =
    (shown_rules, print-IsShown, colour-IsShown, print_hex-IsShown, print_stats-IsShown)
