-- ===== src/Mm/Kmap/Tests.antt =====
-- kmap_init, and the boot code for memory, on a machine whose loader has cleared the kernel's data.
use linda.Base.{
  ℕ, zero, suc, ◌<◌, ◌≡◌, refl, ap, List, [], ◌∷◌, none, some, arith, ok, pos, negsuc, inl, ◌==◌,
  if◌then◌else◌, length, get_elem?,
}
use linda.Mach.{v2p, p2v, pdx, ptx, pgrounddown, extmem, pgsize, pgroundup}
use linda.Mm.Vmmgr.{VmBlock, nvmblocks}
use linda.Mm.Vmmgr.Table.{page_addr}
use linda.Mm.Memory.{MemMap, MmapEntry}
use linda.Mm.Memory.Stack.{free_pages, slots}
use linda.Mm.Mmap.{entry, table_of}
use linda.Mm.Mmap.Walk.{translate}
use linda.Mm.Kmap.{Machine, static_table, map_entry, kmap_init}
use linda.Mm.Kmap.Directory.{IsPlaced}
use linda.Mm.Kmap.Pages.{no_block, IsCleared}
use linda.Mm.Kmap.Init.{KernelMapped, IsBss, IsStack, kmap_init-KernelMapped}
use linda.Kernel.Trap.{no_gate}
use linda.Mm.Memory.Init.{pages, is_extmem}
use linda.Mm.Mmap.{mem_normal}
use linda.Mm.Boot.{boot_memory, MemoryBooted, boot_memory-MemoryBooted}
use linda.Base.{◌+◌, ◌-◌, ◌/◌, ◌++◌, false}

abbrev kpgdir : ℕ
kpgdir = page_addr 0x110

abbrev kpgtbl : ℕ
kpgtbl = page_addr 0x111

-- The first page of the second table, mapped in an empty directory.
map_entry_run :
    translate kpgdir 0xC040_0ABC (map_entry kpgdir kpgtbl 0x40_0000 (λ _. 0)) ≡ some 0x40_0ABC
unfolding map_entry static_table table_of entry translate pdx ptx p2v v2p pgrounddown
map_entry_run = refl

placed : IsPlaced kpgdir kpgtbl
placed = record {
  dir_aligned = refl;
  tbl_aligned = refl;
  not_first = λ e. omega (arith, e);
  above = omega arith;
  below = omega arith;
  apart = inl (omega arith);
}

unfoldable cleared_table : ℕ → List VmBlock
cleared_table zero = []
cleared_table (suc n) = no_block ∷ cleared_table n

length-cleared_table : (n : ℕ) → length (cleared_table n) ≡ n
unfolding cleared_table
length-cleared_table zero = refl
length-cleared_table (suc n) = ap suc (length-cleared_table n)

cleared_table_lem : (n k : ℕ) → k < n → get_elem? (cleared_table n) k ≡ some no_block
unfolding cleared_table
cleared_table_lem zero k h = absurd (omega arith)
cleared_table_lem (suc n) zero h = refl
cleared_table_lem (suc n) (suc k) h = cleared_table_lem n k (omega arith)

cleared_table-IsCleared : IsCleared (cleared_table nvmblocks)
cleared_table-IsCleared = (length-cleared_table nvmblocks, cleared_table_lem nvmblocks)

-- One page that the kernel maps lies above one that it does not map.
abbrev two_pages : MemMap
two_pages = record {
  free_list = λ i. elim i [ pos n ↦ if n == 2 then 0x37FF_F000 else 0x3800_0000 | negsuc n ↦ 0 ];
  page_count = 2;
  header = pos 2;
}

abbrev machine : Machine
machine = record {
  kmem = record { kmem_list = []; kvmlist = cleared_table nvmblocks; mem = λ _. 0 };
  mem_map = two_pages;
  cr3 = 0;
  traps = record {
    idt = λ _. no_gate;
    trap_handlers = λ _. none;
    idtr = record { size = 0; low = 0; high = 0 };
    outs = [];
  };
}

two_pages-IsStack : IsStack (0x37FF_F000 ∷ []) 0x3800_0000 [] two_pages
unfolding free_pages slots
two_pages-IsStack = record {
  header = 2;
  top = refl;
  pages = refl;
  low = omega arith;
  high = omega arith;
}

cleared : IsBss kpgdir machine.kmem
cleared = (λ d h. refl, cleared_table-IsCleared)

kmap_init-KernelMapped_example :
    (t : Machine) × (kmap_init 300000 kpgdir kpgtbl machine ≡ ok t)
    × KernelMapped kpgdir kpgtbl (pgrounddown 0x3800_0000 ∷ []) machine t
kmap_init-KernelMapped_example =
    kmap_init-KernelMapped kpgdir kpgtbl 300000 machine (0x37FF_F000 ∷ []) 0x3800_0000 [] placed
      cleared two_pages-IsStack (omega arith) (omega arith)

-- 1 GB of memory above EXTMEM.
abbrev mmap : ℕ → MmapEntry
mmap i =
    if i == 1
    then record { addr_low = 0x10_0000; len_low = 0x4000_0000; type = 1 }
    else record { addr_low = 0; len_low = 0x9_fc00; type = 1 }

last_entry : (l : ℕ) → 1 < l → l < 48 → is_extmem (mmap l) ≡ false
last_entry l h k = ground arith

boot_memory-MemoryBooted_example :
    (t : Machine) × (boot_memory
        (suc 0x10_0000)
        kpgdir
        kpgtbl
        0xC012_0000
        mmap
        48
        0x2_0000
        (0, 0)
        machine
      ≡ ok t)
    × MemoryBooted kpgdir 0xC012_0000
        (mem_normal
          ∷ (pages
                (mem_normal + pgsize)
                ((pgrounddown (extmem + 0x4000_0000) - mem_normal) / pgsize)
              ++ free_pages machine.mem_map))
        t
unfolding pgroundup pgrounddown
boot_memory-MemoryBooted_example =
    boot_memory-MemoryBooted 0x10_0000 kpgdir kpgtbl 0xC012_0000 mmap 48 0x2_0000 1 2 (0, 0) machine
      placed cleared refl (omega arith) (omega arith) refl last_entry (omega arith) (omega arith)
      (omega arith) (omega arith)
