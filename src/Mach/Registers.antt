-- ===== src/Mach/Registers.antt =====
-- lgdt and lidt of include/arch/x86/generic.h: the address and the size of a table of descriptors, as
-- the processor takes them.
use linda.Base.{ℕ, ◌+◌, ◌-◌, ◌*◌, ◌/◌, ◌%◌, ◌^◌}

-- The pseudo-descriptor that lgdt and lidt build in three `ushort_t`.
pub record PseudoDesc : Type 0 where
  pub size : ℕ
  pub low : ℕ
  pub high : ℕ

-- `size` is above 0.
unfoldable pub lgdt : ℕ → ℕ → PseudoDesc
lgdt gdt size = record {
  size = (size - 1) % 2 ^ 16;
  low = gdt % 2 ^ 16;
  high = gdt / 2 ^ 16 % 2 ^ 16;
}

-- `size` is above 0.
unfoldable pub lidt : ℕ → ℕ → PseudoDesc
lidt idt size = record {
  size = (size - 1) % 2 ^ 16;
  low = idt % 2 ^ 16;
  high = idt / 2 ^ 16 % 2 ^ 16;
}

-- The address of the table that the processor takes from the three words.
abbrev pub table_address : PseudoDesc → ℕ
table_address d = d.high * 2 ^ 16 + d.low
