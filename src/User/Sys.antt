-- ===== src/User/Sys.antt =====
-- userland/libc/include/unistd.h: the numbers of the system calls, for the programs.
use little_os.Base.{ℕ}

abbrev pub exit : ℕ
exit = 1

abbrev pub fork : ℕ
fork = 2

abbrev pub read : ℕ
read = 3

abbrev pub write : ℕ
write = 4

abbrev pub clear : ℕ
clear = 5
