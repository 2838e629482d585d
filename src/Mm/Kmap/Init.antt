-- ===== src/Mm/Kmap/Init.antt =====
-- kmap_init (mm/mmap.c) as a whole, with kvm_init behind it.
use linda.Base.{
  ℕ, zero, suc, ◌+◌, ◌*◌, ◌≤◌, ◌<◌, ◌≡◌, ◌⊎◌, refl, ap, ◌∙◌, List, ◌∷◌, ◌++◌, some, arith, ◌&&◌,
  ltb, lt→ltb, le→not_ltb, subst, length, get_elem?, ok, ◌>>=◌, pos,
}
use linda.Mach.{pgsize, u32_mod, v2p, pgrounddown}
use linda.Mm.Vmmgr.{VmBlock, nvmblocks, kvm_init}
use linda.Mm.Vmmgr.Table.{page_addr, IsNumbered}
use linda.Mm.Vmmgr.Alloc.{available}
use linda.Mm.Memory.{MemMap}
use linda.Mm.Memory.Stack.{free_pages}
use linda.Mm.Kmalloc.{Kmem}
use linda.Mm.Mmap.{mem_normal}
use linda.Mm.Mmap.Walk.{IsDir, translate}
use linda.Mm.Mmap.Leftover.{Mapped, keep_unmapped_lem}
use linda.Mm.Kmap.{map_entry, map_round, map_kernel, kmap_init, Machine}
use linda.Mm.Kmap.Directory.{nmapped, IsPlaced, Linear, Linear-zero, Linear-suc}
use linda.Mm.Kmap.Translate.{Linear-IsDir, translate-linear, linear}
use linda.Mm.Kmap.Pages.{Opened, Opened-zero, Opened-suc, IsCleared, Opened-kvm_init, booted}
use linda.Kernel.Trap.{put, register_trap_handler}
use linda.Kernel.Trap.Boot.{Handler}

-- What the first `i` rounds come to.
abbrev pub Rounds : ℕ → ℕ → ℕ → Kmem → Kmem → Type 0
Rounds kpgdir kpgtbl i s s' =
    Linear kpgdir kpgtbl i s.mem s'.mem
    × Opened i s.kvmlist s'.kvmlist
    × (s'.kmem_list ≡ s.kmem_list)

round_lem :
    (kpgdir kpgtbl i : ℕ) (s s' : Kmem)
    → IsPlaced kpgdir kpgtbl
    → i < nmapped
    → length s.kvmlist ≡ nvmblocks
    → Rounds kpgdir kpgtbl i s s'
    → (t : Kmem) × (map_round kpgdir kpgtbl (i * pgsize) s' ≡ ok t)
      × Rounds kpgdir kpgtbl (suc i) s t
unfolding map_round
round_lem kpgdir kpgtbl i s s' p h l (lin, o, same) =
    let (bs, e, o') = Opened-suc i s.kvmlist s'.kvmlist h l o in
    (
      record s' { kvmlist = bs; mem = map_entry kpgdir kpgtbl (i * pgsize) s'.mem },
      rw e refl,
      (Linear-suc kpgdir kpgtbl i s.mem s'.mem p h lin, o', same),
    )

-- The loop, started with `n` rounds to go.
map_kernel_from :
    (kpgdir kpgtbl n i fuel : ℕ) (s s' : Kmem)
    → IsPlaced kpgdir kpgtbl
    → n + i ≡ nmapped
    → n < fuel
    → length s.kvmlist ≡ nvmblocks
    → Rounds kpgdir kpgtbl i s s'
    → (t : Kmem) × (map_kernel fuel kpgdir kpgtbl (i * pgsize) s' ≡ ok t)
      × Rounds kpgdir kpgtbl nmapped s t
unfolding map_kernel
map_kernel_from kpgdir kpgtbl n i zero s s' p e h l r = absurd (omega arith)
map_kernel_from kpgdir kpgtbl zero i (suc fuel) s s' p e h l r = (
  s',
  rw (le→not_ltb (i * pgsize) mem_normal (omega arith)) refl,
  subst (λ (j : ℕ). Rounds kpgdir kpgtbl j s s') (omega arith) r,
)
map_kernel_from kpgdir kpgtbl (suc n) i (suc fuel) s s' p e h l r =
    let (t, q, r') = round_lem kpgdir kpgtbl i s s' p (omega arith) l r in
    let (u, q', r'') =
      map_kernel_from kpgdir kpgtbl n (suc i) fuel s t p (omega arith) (omega arith) l r' in
    (
      u,
      rw (lt→ltb (i * pgsize) mem_normal (omega arith), q, ◌>>=◌)
          (ap (λ (x : ℕ). map_kernel fuel kpgdir kpgtbl x t) (omega arith) ∙ q'),
      r'',
    )

map_kernel-Rounds :
    (kpgdir kpgtbl fuel : ℕ) (s : Kmem)
    → IsPlaced kpgdir kpgtbl
    → ((d : ℕ) → d < 1024 → s.mem (kpgdir + 4 * d) ≡ 0)
    → length s.kvmlist ≡ nvmblocks
    → nmapped < fuel
    → (t : Kmem) × (map_kernel fuel kpgdir kpgtbl 0 s ≡ ok t) × Rounds kpgdir kpgtbl nmapped s t
map_kernel-Rounds kpgdir kpgtbl fuel s p c l h =
    map_kernel_from kpgdir kpgtbl nmapped 0 fuel s s p refl h l
      (Linear-zero kpgdir kpgtbl s.mem c, Opened-zero s.kvmlist, refl)

-- What kmap_init leaves: the directory is well formed, the processor reads it as the linear map of the first 896 MB and of
-- nothing else, no word outside the two arrays has changed, the pages from `page` on are left on the
-- stack, and the directory and the handler of page faults are installed.
pub record KernelMapped (kpgdir kpgtbl : ℕ) (left : List ℕ) (s t : Machine) : Type 0 where
  pub dir : IsDir kpgdir t.kmem.mem
  pub translates : (va : ℕ) → va < u32_mod → translate kpgdir va t.kmem.mem ≡ linear va
  pub kept :
      (a : ℕ)
      → (a < kpgdir) ⊎ (kpgdir + pgsize ≤ a)
      → (a < kpgtbl) ⊎ (kpgtbl + 1024 * pgsize ≤ a)
      → t.kmem.mem a ≡ s.kmem.mem a
  pub opens : Opened nmapped s.kmem.kvmlist t.kmem.kvmlist
  pub stack : free_pages t.mem_map ≡ left
  pub installed : t.cr3 ≡ v2p kpgdir
  pub handler : t.traps.trap_handlers 14 ≡ some Handler.page_fault_handler

-- The loader has cleared the directory and the table of pages.
abbrev pub IsBss : ℕ → Kmem → Type 0
IsBss kpgdir s = ((d : ℕ) → d < 1024 → s.mem (kpgdir + 4 * d) ≡ 0) × IsCleared s.kvmlist

-- The stack of pages, from `below` its top: pages below MEM_NORMAL, then `page` above it.
pub record IsStack (below : List ℕ) (page : ℕ) (rest : List ℕ) (s : MemMap) : Type 0 where
  pub header : ℕ
  pub top : s.header ≡ pos header
  pub pages : free_pages s ≡ below ++ page ∷ rest
  pub low : Mapped below
  pub high : mem_normal ≤ page

-- With the arrays in pages of the kernel, cleared by the loader, and a page at or above MEM_NORMAL on the
-- stack, kmap_init ends, within any fuel above the number of the pages that it maps and of those that
-- it pops. Then the processor translates each address of the 896 MB from KERNBASE on to its offset from
-- KERNBASE and no other address; the directory is well formed; no word outside the two arrays has changed; of the stack the pages that
-- were above that page are gone and the others are left; and the directory and the handler of page
-- faults are installed.
pub kmap_init-KernelMapped :
    (kpgdir kpgtbl fuel : ℕ) (s : Machine) (below : List ℕ) (page : ℕ) (rest : List ℕ)
    → IsPlaced kpgdir kpgtbl
    → IsBss kpgdir s.kmem
    → IsStack below page rest s.mem_map
    → nmapped < fuel
    → length below + 1 < fuel
    → (t : Machine) × (kmap_init fuel kpgdir kpgtbl s ≡ ok t)
      × KernelMapped kpgdir kpgtbl (pgrounddown page ∷ rest) s t
unfolding kmap_init register_trap_handler
kmap_init-KernelMapped kpgdir kpgtbl fuel s below page rest p (z, (l, c)) k h h' =
    let (kmem, e, (lin, o, same)) = map_kernel-Rounds kpgdir kpgtbl fuel s.kmem p z l h in
    let (mem_map, e', left) =
      keep_unmapped_lem below page rest k.header fuel s.mem_map k.top k.pages k.low k.high h' in
    (
      record {
        kmem = kmem;
        mem_map = mem_map;
        cr3 = v2p kpgdir;
        traps = record s.traps {
          trap_handlers = put 14 (some Handler.page_fault_handler) s.traps.trap_handlers;
        };
      },
      rw (e, ◌>>=◌, e') refl,
      record {
        dir = Linear-IsDir kpgdir kpgtbl s.kmem.mem kmem.mem p lin;
        translates = translate-linear kpgdir kpgtbl s.kmem.mem kmem.mem p lin;
        kept = lin.kept;
        opens = o;
        stack = left;
        installed = refl;
        handler = refl;
      },
    )

-- After kmap_init, which ends, kvm_init numbers the pages of the kernel, and then exactly those above the
-- end of the kernel and below MEM_NORMAL are the ones that kvm_alloc_page may hand out. The conditions
-- are those under which kmap_init ends.
kvm_init-kmap_init :
    (kpgdir kpgtbl fuel kernaddr : ℕ) (s : Machine) (below : List ℕ) (page : ℕ) (rest : List ℕ)
    → IsPlaced kpgdir kpgtbl
    → IsBss kpgdir s.kmem
    → IsStack below page rest s.mem_map
    → nmapped < fuel
    → length below + 1 < fuel
    → (t : Machine) × (kmap_init fuel kpgdir kpgtbl s ≡ ok t)
      × IsNumbered 0 (kvm_init kernaddr t.kmem.kvmlist)
      × ((k : ℕ)
          → k < nvmblocks
          → (b : VmBlock) × (get_elem? (kvm_init kernaddr t.kmem.kvmlist) k ≡ some b)
            × (available b ≡ (ltb k nmapped && ltb kernaddr (page_addr k))))
kvm_init-kmap_init kpgdir kpgtbl fuel kernaddr s below page rest p b k h h' =
    let (t, e, m) = kmap_init-KernelMapped kpgdir kpgtbl fuel s below page rest p b k h h' in
    let (n, f) = Opened-kvm_init kernaddr s.kmem.kvmlist t.kmem.kvmlist b.1 m.opens in
    (t, e, n, λ i l. let (is, free) = f i l in (booted kernaddr i, is, free))
