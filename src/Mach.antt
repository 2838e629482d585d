-- ===== src/Mach.antt =====
-- include/arch/x86/mach.h and include/arch/x86/memlayout.h: the macros for addresses, page
-- numbers and descriptors. A `uint_t` is a number below `2 ^ 32`; a mask by `2 ^ k - 1` is a
-- remainder, and a shift is a quotient.
pub mod Paging
pub mod Descriptors
pub mod Registers
pub mod Ints
mod Tests
use linda.Base.{ℕ, ◌+◌, ◌-◌, ◌*◌, ◌/◌, ◌%◌, ◌^◌, Bool, if◌then◌else◌}

abbrev pub u32_mod : ℕ
u32_mod = 2 ^ 32

-- `uint_t` addition and subtraction wrap.
abbrev pub add32 : ℕ → ℕ → ℕ
add32 a b = (a + b) % u32_mod

abbrev pub sub32 : ℕ → ℕ → ℕ
sub32 a b = (a + u32_mod - b) % u32_mod

abbrev pub extmem : ℕ
extmem = 0x10_0000

abbrev pub kernbase : ℕ
kernbase = 0xC000_0000

abbrev pub kernsize : ℕ
kernsize = 0x4000_0000

abbrev pub kstacksize : ℕ
kstacksize = 4096

abbrev pub pgsize : ℕ
pgsize = 4096

unfoldable pub p2v : ℕ → ℕ
p2v addr = add32 addr kernbase

unfoldable pub v2p : ℕ → ℕ
v2p addr = sub32 addr kernbase

-- PDX and PTX
unfoldable pub pdx : ℕ → ℕ
pdx va = va / 2 ^ 22 % 1024

unfoldable pub ptx : ℕ → ℕ
ptx va = va / 2 ^ 12 % 1024

-- `& PGMASK`, and so `PGROUNDDOWN` and `PTE_ADDR`
unfoldable pub pgrounddown : ℕ → ℕ
pgrounddown a = a / pgsize * pgsize

unfoldable pub pgroundup : ℕ → ℕ
unfolding pgrounddown
pgroundup sz = pgrounddown (add32 sz (pgsize - 1))

-- The bit fields of `struct segdesc`.
pub record SegDesc : Type 0 where
  pub lim_15_0 : ℕ
  pub base_15_0 : ℕ
  pub base_23_16 : ℕ
  pub type : ℕ
  pub s : ℕ
  pub dpl : ℕ
  pub p : ℕ
  pub lim_19_16 : ℕ
  pub avl : ℕ
  pub rsv1 : ℕ
  pub db : ℕ
  pub g : ℕ
  pub base_31_24 : ℕ

-- SEG: a segment whose limit counts pages. A field keeps as many bits as it has.
unfoldable pub seg : ℕ → ℕ → ℕ → ℕ → SegDesc
seg type base lim dpl = record {
  lim_15_0 = lim / 2 ^ 12 % 2 ^ 16;
  base_15_0 = base % 2 ^ 16;
  base_23_16 = base / 2 ^ 16 % 2 ^ 8;
  type = type % 2 ^ 4;
  s = 1;
  dpl = dpl % 2 ^ 2;
  p = 1;
  lim_19_16 = lim / 2 ^ 28 % 2 ^ 4;
  avl = 0;
  rsv1 = 0;
  db = 1;
  g = 1;
  base_31_24 = base / 2 ^ 24 % 2 ^ 8;
}

-- SEG16: a segment whose limit counts bytes.
unfoldable pub seg16 : ℕ → ℕ → ℕ → ℕ → SegDesc
seg16 type base lim dpl = record {
  lim_15_0 = lim % 2 ^ 16;
  base_15_0 = base % 2 ^ 16;
  base_23_16 = base / 2 ^ 16 % 2 ^ 8;
  type = type % 2 ^ 4;
  s = 1;
  dpl = dpl % 2 ^ 2;
  p = 1;
  lim_19_16 = lim / 2 ^ 16 % 2 ^ 4;
  avl = 0;
  rsv1 = 0;
  db = 1;
  g = 0;
  base_31_24 = base / 2 ^ 24 % 2 ^ 8;
}

-- The bit fields of `struct gatedesc`.
pub record GateDesc : Type 0 where
  pub off_15_0 : ℕ
  pub cs : ℕ
  pub args : ℕ
  pub rsv1 : ℕ
  pub type : ℕ
  pub s : ℕ
  pub dpl : ℕ
  pub p : ℕ
  pub off_31_16 : ℕ

abbrev pub sts_ig32 : ℕ
sts_ig32 = 0xE

abbrev pub sts_tg32 : ℕ
sts_tg32 = 0xF

-- SETGATE
unfoldable pub setgate : Bool → ℕ → ℕ → ℕ → GateDesc
setgate istrap sel off d = record {
  off_15_0 = off % 2 ^ 16;
  cs = sel % 2 ^ 16;
  args = 0;
  rsv1 = 0;
  type = if istrap then sts_tg32 else sts_ig32;
  s = 0;
  dpl = d % 2 ^ 2;
  p = 1;
  off_31_16 = off / 2 ^ 16 % 2 ^ 16;
}
