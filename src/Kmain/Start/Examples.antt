-- ===== src/Kmain/Start/Examples.antt =====
-- The kernel started with a module of the boot loader.
