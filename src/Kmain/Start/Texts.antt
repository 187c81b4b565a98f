-- ===== src/Kmain/Start/Texts.antt =====
-- The texts of kernel/kmain.c.
use little_os.Base.{ℕ, List, bytes}

abbrev pub rule : List ℕ
rule = bytes "=================================================================\n"

abbrev pub test_str : List ℕ
test_str = bytes "Heap allocation test: OK!\n"
