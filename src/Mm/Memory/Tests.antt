-- ===== src/Mm/Memory/Tests.antt =====
-- Runs of the stack of physical pages, and its theorems at concrete inputs.
use linda.Base.{ℕ, suc, ◌+◌, ◌-◌, ◌/◌, ◌<◌, ◌≡◌, refl, false, ◌∷◌, arith, pos, ◌==◌, if◌then◌else◌}
use linda.Mach.{extmem, pgsize, pgroundup, pgrounddown}
use linda.Mm.Memory.{MemMap, MmapEntry, phy_mem_alloc, phy_mem_free, phy_mem_init}
use linda.Mm.Memory.Stack.{free_pages, phy_mem_alloc-phy_mem_free}
use linda.Mm.Memory.Init.{Filled, phy_mem_init-Filled, is_extmem}

abbrev empty : MemMap
empty = record { free_list = λ _. 77; page_count = 0; header = pos 0 }

-- The usual map of a machine with 2 MB above EXTMEM.
abbrev mmap : ℕ → MmapEntry
mmap i =
    if i == 0
    then record { addr_low = 0; len_low = 0x9_fc00; type = 1 }
    else if i == 1
    then record { addr_low = 0x10_0000; len_low = 0x20_0000; type = 1 }
    else record { addr_low = 0; len_low = 0; type = 0 }

abbrev with_page : MemMap
with_page = record { free_list = λ _. 0x20_0000; page_count = 0; header = pos 1 }

phy_mem_alloc-phy_mem_free_example :
    (free_pages (phy_mem_free 0x12_3456 empty) ≡ pgrounddown 0x12_3456 ∷ free_pages empty)
    × ((phy_mem_alloc (phy_mem_free 0x12_3456 empty)).0 ≡ pgrounddown 0x12_3456)
    × (free_pages (phy_mem_alloc (phy_mem_free 0x12_3456 empty)).1 ≡ free_pages empty)
    × ((phy_mem_alloc (phy_mem_free 0x12_3456 empty)).1.header ≡ pos 0)
phy_mem_alloc-phy_mem_free_example = phy_mem_alloc-phy_mem_free 0x12_3456 0 empty refl

no_more : (l : ℕ) → 1 < l → l < 48 → is_extmem (mmap l) ≡ false
no_more l h k = ground arith

phy_mem_init-Filled_example :
    Filled
      (pgroundup (extmem + 0x1_2345))
      (suc ((pgrounddown (extmem + 0x20_0000) - pgroundup (extmem + 0x1_2345)) / pgsize))
      0
      empty
      (phy_mem_init (suc 0x10_0000) mmap 48 0x1_2345 (0, 0) empty)
unfolding pgroundup pgrounddown
phy_mem_init-Filled_example =
    phy_mem_init-Filled 0x10_0000 mmap 48 0x1_2345 1 0 (0, 0) empty refl (omega arith) (omega arith)
      refl no_more (omega arith) (omega arith) (omega arith)
