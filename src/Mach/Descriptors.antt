-- ===== src/Mach/Descriptors.antt =====
-- Segment and gate descriptors (mach.h), read back the way the processor reads their fields.
use linda.Base.{ℕ, ◌+◌, ◌*◌, ◌/◌, ◌^◌, ◌<◌, ◌≡◌, Bool, arith, ◌==◌, if◌then◌else◌}
use linda.Mach.{u32_mod, SegDesc, seg, seg16, GateDesc, setgate, sts_tg32, sts_ig32}

abbrev pub base_of : SegDesc → ℕ
base_of d = d.base_31_24 * 2 ^ 24 + d.base_23_16 * 2 ^ 16 + d.base_15_0

-- The last byte of the segment, by the granularity bit.
abbrev pub limit_of : SegDesc → ℕ
limit_of d =
    let raw = d.lim_19_16 * 2 ^ 16 + d.lim_15_0 in if d.g == 0 then raw else raw * 4096 + 4095

abbrev pub offset_of : GateDesc → ℕ
offset_of d = d.off_31_16 * 2 ^ 16 + d.off_15_0

-- SEG describes, for a 32-bit base and limit, the present segment at `base` whose limit is `lim`
-- filled up to the end of its page; SEG16 describes, for a limit below 2^20, the present segment at
-- `base` whose limit is exact.
seg_decodes :
    (type base lim small dpl : ℕ)
    → base < u32_mod
    → lim < u32_mod
    → small < 2 ^ 20
    → (base_of (seg type base lim dpl) ≡ base)
      × (limit_of (seg type base lim dpl) ≡ lim / 4096 * 4096 + 4095)
      × ((seg type base lim dpl).p ≡ 1)
      × (base_of (seg16 type base small dpl) ≡ base)
      × (limit_of (seg16 type base small dpl) ≡ small)
      × ((seg16 type base small dpl).p ≡ 1)
unfolding seg seg16
seg_decodes type base lim small dpl h k m =
    (omega arith, omega arith, omega arith, omega arith, omega arith, omega arith)

-- A gate that SETGATE builds for a 32-bit handler leads to that handler through the given selector,
-- may be called from privilege level `d` for `d` below 4, and is a trap gate exactly if asked.
setgate_decodes :
    (istrap : Bool) (sel off d : ℕ)
    → sel < 2 ^ 16
    → off < u32_mod
    → d < 4
    → (offset_of (setgate istrap sel off d) ≡ off)
      × ((setgate istrap sel off d).cs ≡ sel)
      × ((setgate istrap sel off d).dpl ≡ d)
      × ((setgate istrap sel off d).p ≡ 1)
      × ((setgate istrap sel off d).type ≡ (if istrap then sts_tg32 else sts_ig32))
unfolding setgate
setgate_decodes istrap sel off d h k l =
    (omega arith, omega arith, omega arith, omega arith, ground arith)
