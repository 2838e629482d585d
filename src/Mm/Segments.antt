-- ===== src/Mm/Segments.antt =====
-- segment_init (mm/mmap.c): the processor's table of segments. `gdt` is the table, `gdtr` the three words
-- that lgdt passes to the processor.
mod Tests
use linda.Base.{
  ℕ, ◌+◌, ◌-◌, ◌*◌, ◌/◌, ◌%◌, ◌^◌, ◌≤◌, ◌<◌, ◌≡◌, ◌≢◌, refl, sym, ap, ◌∙◌, ◌⊎◌, Option, none, some,
  arith, ◌==◌, if◌then◌else◌, true, false, eq→==, ne→==,
}
use linda.Mach.{SegDesc, seg, sub32, u32_mod}
use linda.Mach.Registers.{PseudoDesc, lgdt, table_address}
use linda.Mach.Descriptors.{base_of, limit_of}

abbrev pub seg_kcode : ℕ
seg_kcode = 1

abbrev pub seg_kdata : ℕ
seg_kdata = 2

abbrev pub seg_ucode : ℕ
seg_ucode = 3

abbrev pub seg_udata : ℕ
seg_udata = 4

-- NSEGS
abbrev pub nsegs : ℕ
nsegs = 6

abbrev pub sta_x : ℕ
sta_x = 8

abbrev pub sta_w : ℕ
sta_w = 2

abbrev pub sta_r : ℕ
sta_r = 2

abbrev pub dpl_user : ℕ
dpl_user = 3

pub record Segments : Type 0 where
  pub gdt : ℕ → SegDesc
  pub gdtr : PseudoDesc

abbrev pub put : ℕ → SegDesc → (ℕ → SegDesc) → ℕ → SegDesc
put i d gdt j = if j == i then d else gdt j

-- `address` is that of `curcpu->gdt`.
unfoldable pub segment_init : ℕ → Segments → Segments
unfolding seg lgdt
segment_init address s = record {
  gdt = put seg_udata (seg sta_w 0 0xFFFF_FFFF dpl_user) (
      put seg_ucode (seg (sta_x + sta_r) 0 0xFFFF_FFFF dpl_user) (
        put seg_kdata (seg sta_w 0 0xFFFF_FFFF 0)
          (put seg_kcode (seg (sta_x + sta_r) 0 0xFFFF_FFFF 0) s.gdt)));
  gdtr = lgdt address (nsegs * 8);
}

-- A segment that covers the whole address space, of the type and for the level given.
pub record IsFlat (d : SegDesc) (type dpl : ℕ) : Type 0 where
  pub base : base_of d ≡ 0
  pub limit : limit_of d ≡ u32_mod - 1
  pub kind : d.type ≡ type
  pub level : d.dpl ≡ dpl
  pub is_present : d.p ≡ 1
  pub code_or_data : d.s ≡ 1

flat : (type dpl : ℕ) → type < 16 → dpl < 4 → IsFlat (seg type 0 0xFFFF_FFFF dpl) type dpl
unfolding seg
flat type dpl h k = record {
  base = refl;
  limit = refl;
  kind = omega arith;
  level = omega arith;
  is_present = refl;
  code_or_data = refl;
}

-- After segment_init the four segments of the kernel and of processes are present and cover the whole
-- address space, code is readable and data writable, and only the last two are open to processes; every
-- other entry is as before, and the processor has been given the address and the last byte of the table.
pub segment_init-IsFlat :
    (address : ℕ) (s : Segments)
    → address < u32_mod
    → IsFlat ((segment_init address s).gdt seg_kcode) (sta_x + sta_r) 0
      × IsFlat ((segment_init address s).gdt seg_kdata) sta_w 0
      × IsFlat ((segment_init address s).gdt seg_ucode) (sta_x + sta_r) dpl_user
      × IsFlat ((segment_init address s).gdt seg_udata) sta_w dpl_user
      × ((i : ℕ) → (i ≡ 0) ⊎ (seg_udata < i) → (segment_init address s).gdt i ≡ s.gdt i)
      × (table_address (segment_init address s).gdtr ≡ address)
      × ((segment_init address s).gdtr.size ≡ nsegs * 8 - 1)
unfolding segment_init
segment_init-IsFlat address s h = (
  flat (sta_x + sta_r) 0 (omega arith) (omega arith),
  flat sta_w 0 (omega arith) (omega arith),
  flat (sta_x + sta_r) dpl_user (omega arith) (omega arith),
  flat sta_w dpl_user (omega arith) (omega arith),
  λ i o.
      rw
        (
          ne→== i seg_udata (omega arith),
          ne→== i seg_ucode (omega arith),
          ne→== i seg_kdata (omega arith),
          ne→== i seg_kcode (omega arith),
        )
        refl,
  omega arith,
  refl,
)
