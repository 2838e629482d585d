-- ===== src/Mm/Mmap.antt =====
-- mm/mmap.c: page directories and page tables, and the list of the mapped blocks. `kmem.mem` is the
-- memory at the kernel's addresses, a word at each address that 4 divides; a directory or a table is the
-- address of its page. `mmaplist` is the address of the first block, 0 for NULL; the fields of a block
-- lie at 0 (virt_addr), 4 (phy_addr), 8 (mapped) and 12 (next). `flags` is 0 or PTE_U in every call: it
-- is whether it is PTE_U. The instruction invlpg, which forgets an old translation, is left out.
pub mod Walk
pub mod Entry
pub mod NewTable
pub mod Map
pub mod Update
pub mod Leftover
pub mod Share
mod Tests
use linda.Base.{
  ℕ, zero, suc, ◌+◌, ◌-◌, ◌*◌, ◌/◌, ◌%◌, Bool, true, false, Option, none, some, Outcome, ok, panic,
  hang, ◌>>=◌, ◌==◌, if◌then◌else◌, leb, ltb,
}
use linda.Mach.{pgsize, kernbase, pdx, ptx, p2v, v2p, pgrounddown}
use linda.Mm.Vmmgr.{VmBlock, kvm_alloc_page}
use linda.Mm.Memory.{MemMap, phy_mem_alloc, phy_mem_free}
use linda.Mm.Kmalloc.{Kmem, kmalloc, kmfree, clear}

pub record Mmap : Type 0 where
  pub kmem : Kmem
  pub mmaplist : ℕ

abbrev pub write_word : ℕ → ℕ → (ℕ → ℕ) → ℕ → ℕ
write_word addr v mem a = if a == addr then v else mem a

abbrev pub store : ℕ → ℕ → Kmem → Kmem
store addr v s = record s { mem = write_word addr v s.mem }

-- `(addr & PGMASK) | PTE_P | PTE_W | flags`
unfoldable pub entry : ℕ → Bool → ℕ
unfolding pgrounddown
entry addr user = pgrounddown addr + (if user then 7 else 3)

-- The table of a directory's entry, or 0.
unfoldable pub table_of : ℕ → ℕ → (ℕ → ℕ) → ℕ
unfolding pgrounddown pdx
table_of mmap va mem = pgrounddown (mem (mmap + 4 * pdx va))

-- The table for `va` in mmap_do_map, a new one if there is none.
unfoldable pub get_table : ℕ → ℕ → Bool → Kmem → Outcome (ℕ × Kmem)
get_table mmap va user s =
    if table_of mmap va s.mem == 0
    then (kvm_alloc_page s.kvmlist >>= λ (pgtbl, kvmlist). ok (
      pgtbl,
      store (mmap + 4 * pdx va) (entry (v2p pgtbl) user)
          (record s { kvmlist = kvmlist; mem = clear pgtbl pgsize s.mem }),
    ))
    else ok (p2v (table_of mmap va s.mem), s)

-- The part of mmap_do_map on the directory.
unfoldable pub map_page : ℕ → ℕ → ℕ → Bool → Kmem → Outcome Kmem
map_page mmap va pa user s =
    get_table mmap va user s >>= λ (pgtbl, s'). ok (store (pgtbl + 4 * ptx va) (entry pa user) s')

-- The part of mmap_do_unmap on the directory, when the table of `va` is there.
unfoldable pub unmap_page : ℕ → ℕ → Kmem → Kmem
unmap_page mmap va s = store (p2v (table_of mmap va s.mem) + 4 * ptx va) 0 s

-- The loop of mmap_do_unmap over the list; `first` counts the blocks passed.
unfoldable pub remove_block : ℕ → ℕ → ℕ → ℕ → ℕ → Mmap → Outcome Mmap
unfolding pgrounddown kmfree
remove_block zero va last map first s = hang
remove_block (suc fuel) va last map first s =
    let rest = remove_block fuel va map (s.kmem.mem (map + 12)) (suc first) s in
    if map == 0
    then ok s
    else if pgrounddown (s.kmem.mem map) == pgrounddown va
    then (let s' =
          (if first == 0
            then record s { mmaplist = 0 }
            else record s { kmem = store (last + 12) (s.kmem.mem (map + 12)) s.kmem }) in
        kmfree map s'.kmem >>= λ kmem. ok (record s' { kmem = kmem }))
    else rest

unfoldable pub mmap_do_unmap : ℕ → ℕ → ℕ → Mmap → Outcome Mmap
unfolding remove_block
mmap_do_unmap fuel mmap va s =
    if table_of mmap va s.kmem.mem == 0
    then ok s
    else remove_block fuel va s.mmaplist s.mmaplist 0
        (record s { kmem = unmap_page mmap va s.kmem })

-- `virt_addr`, `phy_addr` and the char `mapped` of the block at `map`.
unfoldable pub fill_block : ℕ → ℕ → ℕ → Kmem → Kmem
fill_block map va pa s =
    store (map + 8) (s.mem (map + 8) / 256 * 256 + 1) (store (map + 4) pa (store map va s))

-- The first block from `map` on that is not mapped, or 0, and the last block passed.
unfoldable pub find_block : ℕ → ℕ → ℕ → (ℕ → ℕ) → Outcome (ℕ × ℕ)
find_block zero last map mem = hang
find_block (suc fuel) last map mem =
    let rest = find_block fuel map (mem (map + 12)) mem in
    if map == 0 then ok (0, last) else if mem (map + 8) % 256 == 0 then ok (map, last) else rest

-- The part of mmap_do_map on the list; the heap searches with `heap_fuel`.
unfoldable pub record_block : ℕ → ℕ → ℕ → ℕ → Mmap → Outcome Mmap
unfolding pgrounddown fill_block find_block kmalloc
record_block fuel heap_fuel va pa s =
    if s.mmaplist == 0
    then (kmalloc heap_fuel 16 s.kmem >>= λ (map, kmem).
        ok
          (record { kmem = fill_block map (pgrounddown va) (pgrounddown pa) kmem; mmaplist = map }))
    else find_block fuel 0 s.mmaplist s.kmem.mem >>= λ (map, last).
        if map == 0
        then (kmalloc heap_fuel 16 s.kmem >>= λ (new, kmem).
            ok (record s { kmem = store (last + 12) new (fill_block new va pa kmem) }))
        else ok (record s { kmem = fill_block map va pa s.kmem })

unfoldable pub mmap_do_map : ℕ → ℕ → ℕ → ℕ → ℕ → Bool → Mmap → Outcome Mmap
unfolding mmap_do_unmap record_block
mmap_do_map fuel heap_fuel mmap va pa user s = mmap_do_unmap fuel mmap va s >>= λ s'.
    map_page mmap va pa user s'.kmem >>= λ kmem.
    record_block fuel heap_fuel va pa (record s' { kmem = kmem })

-- page_fault_handler at the address `addr`, with the directory of the current process; its message is
-- left out.
unfoldable pub page_fault_handler : ℕ → ℕ → ℕ → ℕ → ℕ → MemMap × Mmap → Outcome (MemMap × Mmap)
unfolding mmap_do_map phy_mem_alloc
page_fault_handler fuel heap_fuel kpgdir pgdir addr (mem_map, s) =
    let (pa, mem_map') = phy_mem_alloc mem_map in
    (if leb kernbase addr
      then mmap_do_map fuel heap_fuel kpgdir addr pa false s
      else mmap_do_map fuel heap_fuel pgdir addr pa true s)
    >>= λ s'. ok (mem_map', s')

-- The loop of umap_init, `rounds` of it from entry `i` on.
unfoldable pub copy_entries : ℕ → ℕ → ℕ → ℕ → Kmem → Kmem
copy_entries kpgdir pgdir i zero s = s
copy_entries kpgdir pgdir i (suc rounds) s =
    copy_entries kpgdir pgdir (suc i) rounds (store (pgdir + 4 * i) (s.mem (kpgdir + 4 * i)) s)

-- It copies the entries from PDX(KERNBASE) on; the others stay as the page held them.
unfoldable pub umap_init : ℕ → Kmem → Outcome (ℕ × Kmem)
unfolding copy_entries
umap_init kpgdir s = kvm_alloc_page s.kvmlist >>= λ (pgdir, kvmlist).
    ok (pgdir, copy_entries kpgdir pgdir 768 256 (record s { kvmlist = kvmlist }))

-- MEM_NORMAL: the kernel maps the physical addresses below it.
abbrev pub mem_normal : ℕ
mem_normal = 0x3800_0000

-- The second loop of kmap_init, which pops the pages that the kernel has mapped, on fuel.
unfoldable pub pop_mapped : ℕ → ℕ → MemMap → Outcome (ℕ × MemMap)
pop_mapped zero phy_addr s = hang
pop_mapped (suc fuel) phy_addr s =
    let (next, s') = phy_mem_alloc s in
    let rest = pop_mapped fuel next s' in if ltb phy_addr mem_normal then rest else ok (phy_addr, s)

-- That loop, and the page above MEM_NORMAL put back.
unfoldable pub keep_unmapped : ℕ → MemMap → Outcome MemMap
unfolding pop_mapped
keep_unmapped fuel s = pop_mapped fuel 0 s >>= λ (phy_addr, s').
    ok (if leb mem_normal phy_addr then phy_mem_free phy_addr s' else s')
