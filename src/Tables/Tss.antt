-- ===== src/Tables/Tss.antt =====
-- include/arch/x86/gdt.h: the offsets of the fields of `struct tss_entry`.
use little_os.Base.{ℕ}

abbrev pub esp0 : ℕ
esp0 = 4

abbrev pub ss0 : ℕ
ss0 = 8

abbrev pub es : ℕ
es = 72

abbrev pub cs : ℕ
cs = 76

abbrev pub ss : ℕ
ss = 80

abbrev pub ds : ℕ
ds = 84

abbrev pub fs : ℕ
fs = 88

abbrev pub gs : ℕ
gs = 92

abbrev pub iomap_base : ℕ
iomap_base = 102
