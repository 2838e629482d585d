-- ===== src/Mach/Paging.antt =====
-- Addresses and page numbers (mach.h, memlayout.h): the macros against the layout that the
-- comment of mach.h draws.
use linda.Base.{ℕ, ◌+◌, ◌*◌, ◌%◌, ◌^◌, ◌≤◌, ◌<◌, ◌≡◌, arith}
use linda.Mach.{u32_mod, kernbase, kernsize, pgsize, p2v, v2p, pdx, ptx, pgrounddown, pgroundup}

-- An address below 2^32 is made of its directory index, its table index and its offset within the
-- page, the indices below 1024.
pub pdx-ptx_parts :
    (va : ℕ)
    → va < u32_mod
    → (pdx va * 2 ^ 22 + ptx va * 2 ^ 12 + va % pgsize ≡ va) × (pdx va < 1024) × (ptx va < 1024)
unfolding pdx ptx
pdx-ptx_parts va h = (omega arith, omega arith, omega arith)

-- Two addresses below 2^32 with the same PDX and the same PTX lie in the same page.
pub pdx-ptx_injective :
    (va wa : ℕ)
    → va < u32_mod
    → wa < u32_mod
    → pdx va ≡ pdx wa
    → ptx va ≡ ptx wa
    → pgrounddown va ≡ pgrounddown wa
unfolding pdx ptx pgrounddown
pdx-ptx_injective va wa h k d t = omega arith

-- PGROUNDDOWN gives the greatest page boundary at or below an address, and PGROUNDUP the least one
-- at or above it, if that one is below 2^32.
pground_bounds :
    (a : ℕ)
    → a + pgsize ≤ u32_mod
    → (pgrounddown a % pgsize ≡ 0)
      × (pgrounddown a ≤ a)
      × (a < pgrounddown a + pgsize)
      × (pgroundup a % pgsize ≡ 0)
      × (a ≤ pgroundup a)
      × (pgroundup a < a + pgsize)
unfolding pgrounddown pgroundup
pground_bounds a h = (omega arith, omega arith, omega arith, omega arith, omega arith, omega arith)

-- The kernel's linear map: P2V and V2P undo one another between the physical addresses below
-- KERNSIZE and the kernel's virtual addresses, and keep the offset within a page.
p2v-v2p :
    (pa va : ℕ)
    → pa < kernsize
    → kernbase ≤ va
    → va < u32_mod
    → (v2p (p2v pa) ≡ pa)
      × (kernbase ≤ p2v pa)
      × (p2v (v2p va) ≡ va)
      × (v2p va < kernsize)
      × (p2v pa % pgsize ≡ pa % pgsize)
unfolding p2v v2p
p2v-v2p pa va h k l = (omega arith, omega arith, omega arith, omega arith, omega arith)
