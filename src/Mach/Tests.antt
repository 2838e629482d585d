-- ===== src/Mach/Tests.antt =====
-- Runs of the macros of mach.h, and their theorems at concrete inputs.
use linda.Base.{◌≡◌, refl}
use linda.Mach.{pdx, ptx}

kern_link_parts : (pdx 0xC010_1234 ≡ 768) × (ptx 0xC010_1234 ≡ 257)
unfolding pdx ptx
kern_link_parts = (refl, refl)
