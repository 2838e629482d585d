-- ===== src/Mm/Boot.antt =====
-- The calls of kern_bootstrap (init/bootstrap.c) that set up memory: phy_mem_init, kmap_init and kvm_init,
-- one after the other. `mmap` is the memory map of the boot loader, and `garbage` what the locals of
-- phy_mem_init hold; `kern_end` is the linker's symbol.
use linda.Base.{
  ℕ, zero, suc, ◌+◌, ◌-◌, ◌*◌, ◌/◌, ◌^◌, ◌≤◌, ◌<◌, ◌≡◌, refl, ap, ◌∙◌, List, ◌∷◌, ◌++◌, arith, true,
  false, ◌&&◌, ltb, some, length, get_elem?, Outcome, ok, panic, hang, overrun, ◌>>=◌, pos,
}
use mathlib.Core.List.{append_assoc}
use linda.Mach.{u32_mod, extmem, pgsize, pgroundup, pgrounddown}
use linda.Mm.Memory.{MemMap, MmapEntry, phy_mem_init, virt_kern_addr}
use linda.Mm.Memory.Stack.{free_pages}
use linda.Mm.Memory.Init.{pages, Filled, is_extmem, phy_mem_init-Filled}
use linda.Mm.Vmmgr.{VmBlock, nvmblocks, kvm_init}
use linda.Mm.Vmmgr.Table.{IsNumbered, page_addr}
use linda.Mm.Vmmgr.Alloc.{available}
use linda.Mm.Mmap.{mem_normal}
use linda.Mm.Mmap.Leftover.{Mapped}
use linda.Mm.Mmap.Walk.{IsDir, translate}
use linda.Mm.Kmap.{Machine, kmap_init}
use linda.Mm.Kmap.Directory.{nmapped, IsPlaced}
use linda.Mm.Kmap.Translate.{linear}
use linda.Mm.Kmap.Pages.{Opened-kvm_init, booted}
use linda.Mm.Kmap.Init.{IsBss, IsStack, kmap_init-KernelMapped}

-- kmap_init and kvm_init.
unfoldable pub boot_paging : ℕ → ℕ → ℕ → ℕ → Machine → Outcome Machine
boot_paging fuel kpgdir kpgtbl kern_end s = kmap_init fuel kpgdir kpgtbl s >>= λ t. ok (record t {
  kmem = record t.kmem { kvmlist = kvm_init (virt_kern_addr kern_end t.mem_map) t.kmem.kvmlist };
})

unfoldable pub boot_memory :
    ℕ → ℕ → ℕ → ℕ → (ℕ → MmapEntry) → ℕ → ℕ → ℕ × ℕ → Machine → Outcome Machine
unfolding boot_paging
boot_memory fuel kpgdir kpgtbl kern_end mmap mmap_length kern_size garbage s =
    phy_mem_init fuel mmap mmap_length kern_size garbage s.mem_map >>= λ mem_map.
    boot_paging fuel kpgdir kpgtbl kern_end (record s { mem_map = mem_map })

pages-split :
    (start m n : ℕ)
    → pages start (m + suc n)
      ≡ pages start m ++ (start + m * pgsize) ∷ pages (start + m * pgsize + pgsize) n
unfolding pages
pages-split start zero n =
    let count : 0 + suc n ≡ suc n = omega arith in
    let at : start ≡ start + 0 * pgsize = omega arith in
    ap (pages start) count ∙ ap (λ (x : ℕ). x ∷ pages (x + pgsize) n) at
pages-split start (suc m) n =
    let count : suc m + suc n ≡ suc (m + suc n) = omega arith in
    let at : start + pgsize + m * pgsize ≡ start + suc m * pgsize = omega arith in
    ap (pages start) count
    ∙ ap (◌∷◌ start) (
        pages-split (start + pgsize) m n
        ∙ ap (λ (x : ℕ). pages (start + pgsize) m ++ x ∷ pages (x + pgsize) n) at)

pages-Mapped : (start m : ℕ) → start + m * pgsize ≤ mem_normal → Mapped (pages start m)
unfolding pages
pages-Mapped start zero h = tt
pages-Mapped start (suc m) h = (omega arith, pages-Mapped (start + pgsize) m (omega arith))

length-pages : (start m : ℕ) → length (pages start m) ≡ m
unfolding pages
length-pages start zero = refl
length-pages start (suc m) = ap suc (length-pages (start + pgsize) m)

-- The stack that phy_mem_init leaves, divided at MEM_NORMAL.
Filled-IsStack :
    (start m n k h : ℕ) (s s' : MemMap)
    → start + m * pgsize ≡ mem_normal
    → k ≡ m + suc n
    → Filled start k h s (ok s')
    → IsStack (pages start m) mem_normal (pages (mem_normal + pgsize) n ++ free_pages s) s'
Filled-IsStack start m n k h s s' at count (stored, _, top) = record {
  header = h + k;
  top = top;
  pages =
      stored
      ∙ ap (λ (j : ℕ). pages start j ++ free_pages s) count
      ∙ ap (λ (l : List ℕ). l ++ free_pages s) (pages-split start m n)
      ∙ ap (λ (x : ℕ). (pages start m ++ x ∷ pages (x + pgsize) n) ++ free_pages s) at
      ∙ append_assoc (pages start m) (mem_normal ∷ pages (mem_normal + pgsize) n) (free_pages s);
  low = pages-Mapped start m (omega arith);
  high = omega arith;
}

-- What the three calls leave: the kernel's linear map, the pages above MEM_NORMAL on the stack, and for
-- kvm_alloc_page the pages behind the kernel and below MEM_NORMAL.
pub record MemoryBooted (kpgdir kern_end : ℕ) (left : List ℕ) (t : Machine) : Type 0 where
  pub dir : IsDir kpgdir t.kmem.mem
  pub translates : (va : ℕ) → va < u32_mod → translate kpgdir va t.kmem.mem ≡ linear va
  pub stack : free_pages t.mem_map ≡ left
  pub numbered : IsNumbered 0 t.kmem.kvmlist
  pub free :
      (k : ℕ)
      → k < nvmblocks
      → (b : VmBlock) × (get_elem? t.kmem.kvmlist k ≡ some b)
        × (available b ≡ (ltb k nmapped && ltb (virt_kern_addr kern_end t.mem_map) (page_addr k)))

normal : pgrounddown mem_normal ≡ mem_normal
unfolding pgrounddown
normal = refl

boot_paging-MemoryBooted :
    (fuel kpgdir kpgtbl kern_end : ℕ) (s : Machine) (below rest : List ℕ)
    → IsPlaced kpgdir kpgtbl
    → IsBss kpgdir s.kmem
    → IsStack below mem_normal rest s.mem_map
    → nmapped < fuel
    → length below + 1 < fuel
    → (t : Machine) × (boot_paging fuel kpgdir kpgtbl kern_end s ≡ ok t)
      × MemoryBooted kpgdir kern_end (mem_normal ∷ rest) t
unfolding boot_paging
boot_paging-MemoryBooted fuel kpgdir kpgtbl kern_end s below rest p b k f f' =
    let (t, e, m) = kmap_init-KernelMapped kpgdir kpgtbl fuel s below mem_normal rest p b k f f' in
    let kernaddr = virt_kern_addr kern_end t.mem_map in
    let (numbered, free) = Opened-kvm_init kernaddr s.kmem.kvmlist t.kmem.kvmlist b.1 m.opens in
    (
      record t { kmem = record t.kmem { kvmlist = kvm_init kernaddr t.kmem.kvmlist } },
      rw e refl,
      record {
        dir = m.dir;
        translates = m.translates;
        stack = m.stack ∙ ap (λ (x : ℕ). x ∷ rest) normal;
        numbered = numbered;
        free = λ i l. let (is, av) = free i l in (booted kernaddr i, is, av);
      },
    )

boot_from :
    (fuel kpgdir kpgtbl kern_end start m n k h : ℕ) (s : Machine) (r : Outcome MemMap)
    → IsPlaced kpgdir kpgtbl
    → IsBss kpgdir s.kmem
    → start + m * pgsize ≡ mem_normal
    → k ≡ m + suc n
    → nmapped + 1 < fuel
    → Filled start k h s.mem_map r
    → (t : Machine) × ((r >>= λ mem_map.
          boot_paging fuel kpgdir kpgtbl kern_end (record s { mem_map = mem_map }))
        ≡ ok t)
      × MemoryBooted kpgdir kern_end
          (mem_normal ∷ (pages (mem_normal + pgsize) n ++ free_pages s.mem_map))
          t
boot_from fuel kpgdir kpgtbl kern_end start m n k h s (ok s') p b at count f filled =
    boot_paging-MemoryBooted fuel kpgdir kpgtbl kern_end (record s { mem_map = s' }) (pages start m)
      (pages (mem_normal + pgsize) n ++ free_pages s.mem_map) p b
      (Filled-IsStack start m n k h s.mem_map s' at count filled) (omega arith)
      (omega (arith, length-pages start m))
boot_from fuel kpgdir kpgtbl kern_end start m n k h s panic p b at count f filled = absurd filled
boot_from fuel kpgdir kpgtbl kern_end start m n k h s hang p b at count f filled = absurd filled
boot_from fuel kpgdir kpgtbl kern_end start m n k h s overrun p b at count f filled = absurd filled

-- MEM_NORMAL among the pages from `start` to `e`.
page_counts :
    (a b : ℕ)
    → a + pgsize ≤ u32_mod
    → b < u32_mod
    → pgroundup a ≤ mem_normal
    → mem_normal ≤ pgrounddown b
    → (pgroundup a + (mem_normal - pgroundup a) / pgsize * pgsize ≡ mem_normal)
      × (suc ((pgrounddown b - pgroundup a) / pgsize)
          ≡ (mem_normal - pgroundup a) / pgsize + suc ((pgrounddown b - mem_normal) / pgsize))
unfolding pgroundup pgrounddown
page_counts a b h h' l m = (omega arith, omega arith)

-- Let the boot loader's map have a last entry of available memory at EXTMEM, in which the kernel ends
-- below MEM_NORMAL and the memory at or above it, both within 32 bits, let the loader have placed and cleared the kernel's
-- tables, and let n pages be stored already. Then phy_mem_init, kmap_init and kvm_init end without a
-- panic: the kernel's directory is well formed and read by the processor as the linear map of the first
-- 896 MB, the pages from MEM_NORMAL to the end of the memory are left for processes, the lowest first, and
-- kvm_alloc_page has exactly the pages behind the kernel and below MEM_NORMAL.
pub boot_memory-MemoryBooted :
    (fuel kpgdir kpgtbl kern_end : ℕ) (mmap : ℕ → MmapEntry) (mmap_length kern_size j n : ℕ)
    (garbage : ℕ × ℕ) (s : Machine)
    → IsPlaced kpgdir kpgtbl
    → IsBss kpgdir s.kmem
    → s.mem_map.header ≡ pos n
    → 2 ^ 20 ≤ fuel
    → j < mmap_length
    → is_extmem (mmap j) ≡ true
    → ((l : ℕ) → j < l → l < mmap_length → is_extmem (mmap l) ≡ false)
    → extmem + kern_size + pgsize ≤ u32_mod
    → extmem + (mmap j).len_low < u32_mod
    → pgroundup (extmem + kern_size) ≤ mem_normal
    → mem_normal ≤ pgrounddown (extmem + (mmap j).len_low)
    → (t : Machine) × (boot_memory
          (suc fuel)
          kpgdir
          kpgtbl
          kern_end
          mmap
          mmap_length
          kern_size
          garbage
          s
        ≡ ok t)
      × MemoryBooted kpgdir kern_end
          (mem_normal
            ∷ (pages
                  (mem_normal + pgsize)
                  ((pgrounddown (extmem + (mmap j).len_low) - mem_normal) / pgsize)
                ++ free_pages s.mem_map))
          t
unfolding boot_memory
boot_memory-MemoryBooted fuel kpgdir kpgtbl kern_end mmap mmap_length kern_size j n garbage s p b h
      f lt is last a c lo hi =
    let (at, count) = page_counts (extmem + kern_size) (extmem + (mmap j).len_low) a c lo hi in
    boot_from (suc fuel) kpgdir kpgtbl kern_end (pgroundup (extmem + kern_size)) _ _ _ n s
      (phy_mem_init (suc fuel) mmap mmap_length kern_size garbage s.mem_map) p b at count
      (omega arith)
      (phy_mem_init-Filled fuel mmap mmap_length kern_size j n garbage s.mem_map h f lt is last a c
        (omega arith))
