-- ===== src/Mm/Memory/Stack.antt =====
-- phy_mem_alloc and phy_mem_free (mm/memory.c) against a stack of pages.
use linda.Base.{ℕ, zero, suc, ◌<◌, ◌≡◌, refl, List, [], ◌∷◌, arith, ℤ, pos, negsuc, ap₂}
use linda.Mach.{pgrounddown}
use linda.Mm.Memory.{MemMap, write, phy_mem_alloc, phy_mem_free}

-- Slots `n` down to 1. The first page that phy_mem_free stores goes to slot 1.
unfoldable pub slots : (ℤ → ℕ) → ℕ → List ℕ
slots free_list zero = []
slots free_list (suc n) = free_list (pos (suc n)) ∷ slots free_list n

-- The free pages, the next to be handed out first.
unfoldable pub free_pages : MemMap → List ℕ
unfolding slots
free_pages s = elim s.header [ pos n ↦ slots s.free_list n | negsuc _ ↦ [] ]

slots-write :
    (free_list : ℤ → ℕ) (n i v : ℕ)
    → n < i
    → slots (write free_list (pos i) v) n ≡ slots free_list n
unfolding slots
slots-write free_list zero i v h = refl
slots-write free_list (suc n) i v h =
    ap₂ ◌∷◌ (ground arith) (slots-write free_list n i v (omega arith))

-- With n pages stored phy_mem_free puts the page that holds the address on top of the stack of free
-- pages, and phy_mem_alloc then hands out that very page and leaves the stack and the header as they
-- were.
pub phy_mem_alloc-phy_mem_free :
    (addr n : ℕ) (s : MemMap)
    → s.header ≡ pos n
    → (free_pages (phy_mem_free addr s) ≡ pgrounddown addr ∷ free_pages s)
      × ((phy_mem_alloc (phy_mem_free addr s)).0 ≡ pgrounddown addr)
      × (free_pages (phy_mem_alloc (phy_mem_free addr s)).1 ≡ free_pages s)
      × ((phy_mem_alloc (phy_mem_free addr s)).1.header ≡ s.header)
unfolding free_pages phy_mem_free phy_mem_alloc
phy_mem_alloc-phy_mem_free addr n s h = (
  ground (arith, slots-write s.free_list n (suc n) (pgrounddown addr)),
  ground arith,
  ground (arith, slots-write s.free_list n (suc n) (pgrounddown addr)),
  ground arith,
)

-- With n + 1 pages stored phy_mem_alloc hands out the top of the stack of free pages and leaves the
-- rest.
pub phy_mem_alloc_lem :
    (n : ℕ) (s : MemMap)
    → s.header ≡ pos (suc n)
    → (free_pages s ≡ (phy_mem_alloc s).0 ∷ free_pages (phy_mem_alloc s).1)
      × ((phy_mem_alloc s).1.header ≡ pos n)
unfolding free_pages phy_mem_alloc
phy_mem_alloc_lem n s h = (ground arith, ground arith)

-- With the stack of free pages empty, which is header 0, the first call of phy_mem_alloc does not
-- report it: it hands out slot 0 of the array, whatever that holds; the second call returns NULL.
pub phy_mem_alloc_exhausted :
    (s : MemMap)
    → s.header ≡ pos 0
    → (free_pages s ≡ [])
      × ((phy_mem_alloc s).0 ≡ s.free_list (pos 0))
      × ((phy_mem_alloc (phy_mem_alloc s).1).0 ≡ 0)
unfolding free_pages phy_mem_alloc
phy_mem_alloc_exhausted s h = (ground arith, ground arith, ground arith)
