-- ===== src/Mm/Segments/Tests.antt =====
-- segment_init on a cleared table.
use linda.Base.{ℕ, ◌+◌, ◌-◌, ◌*◌, ◌<◌, ◌≡◌, ◌⊎◌, arith}
use linda.Mach.{SegDesc}
use linda.Mach.Registers.{table_address}
use linda.Mm.Segments.{
  Segments, segment_init, IsFlat, segment_init-IsFlat, seg_kcode, seg_kdata, seg_ucode, seg_udata,
  sta_x, sta_r, sta_w, dpl_user, nsegs,
}

abbrev no_segment : SegDesc
no_segment = record {
  lim_15_0 = 0;
  base_15_0 = 0;
  base_23_16 = 0;
  type = 0;
  s = 0;
  dpl = 0;
  p = 0;
  lim_19_16 = 0;
  avl = 0;
  rsv1 = 0;
  db = 0;
  g = 0;
  base_31_24 = 0;
}

abbrev cleared : Segments
cleared = record { gdt = λ _. no_segment; gdtr = record { size = 0; low = 0; high = 0 } }

segment_init-IsFlat_example :
    IsFlat ((segment_init 0xC010_2000 cleared).gdt seg_kcode) (sta_x + sta_r) 0
    × IsFlat ((segment_init 0xC010_2000 cleared).gdt seg_kdata) sta_w 0
    × IsFlat ((segment_init 0xC010_2000 cleared).gdt seg_ucode) (sta_x + sta_r) dpl_user
    × IsFlat ((segment_init 0xC010_2000 cleared).gdt seg_udata) sta_w dpl_user
    × ((i : ℕ) → (i ≡ 0) ⊎ (seg_udata < i) → (segment_init 0xC010_2000 cleared).gdt i ≡ no_segment)
    × (table_address (segment_init 0xC010_2000 cleared).gdtr ≡ 0xC010_2000)
    × ((segment_init 0xC010_2000 cleared).gdtr.size ≡ nsegs * 8 - 1)
segment_init-IsFlat_example = segment_init-IsFlat 0xC010_2000 cleared (omega arith)
