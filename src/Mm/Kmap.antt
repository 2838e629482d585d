-- ===== src/Mm/Kmap.antt =====
-- kmap_init (mm/mmap.c): the kernel's page directory. `kpgdir` and `kpgtbl` are the addresses of the two
-- static arrays, table `i` of which lies `i` pages behind `kpgtbl`; the loader clears them. The message
-- at the end is left out.
pub mod Directory
pub mod Translate
pub mod Pages
pub mod Init
mod Tests
use linda.Base.{
  ℕ, zero, suc, ◌+◌, ◌*◌, List, Outcome, ok, hang, ◌>>=◌, false, ◌==◌, ltb, if◌then◌else◌,
}
use linda.Mach.{pgsize, pdx, ptx, p2v, v2p, add32}
use linda.Mm.Vmmgr.{VmBlock, kvm_map_page, kvm_free_page}
use linda.Mm.Memory.{MemMap}
use linda.Mm.Kmalloc.{Kmem}
use linda.Mm.Mmap.{write_word, entry, table_of, mem_normal, keep_unmapped}
use linda.Kernel.Trap.{Traps, register_trap_handler}
use linda.Kernel.Trap.Boot.{Handler}

-- The table of the directory's entry for `va`, a static one if there is none, and the memory with the
-- entry for it.
unfoldable pub static_table : ℕ → ℕ → ℕ → (ℕ → ℕ) → ℕ × (ℕ → ℕ)
static_table kpgdir kpgtbl va mem =
    if table_of kpgdir va mem == 0
    then (
      kpgtbl + pgsize * pdx va,
      write_word (kpgdir + 4 * pdx va) (entry (v2p (kpgtbl + pgsize * pdx va)) false) mem,
    )
    else (p2v (table_of kpgdir va mem), mem)

-- A round of the first loop on the directory and its tables.
unfoldable pub map_entry : ℕ → ℕ → ℕ → (ℕ → ℕ) → ℕ → ℕ
unfolding static_table
map_entry kpgdir kpgtbl phy_addr mem =
    let (pgtbl, mem') = static_table kpgdir kpgtbl (p2v phy_addr) mem in
    write_word (pgtbl + 4 * ptx (p2v phy_addr)) (entry phy_addr false) mem'

-- `kvm_map_page(P2V(phy_addr)); kvm_free_page(P2V(phy_addr));`
abbrev pub mark_page : ℕ → List VmBlock → Outcome (List VmBlock)
mark_page addr kvmlist = kvm_map_page addr kvmlist >>= λ mapped. kvm_free_page addr mapped

-- A whole round.
unfoldable pub map_round : ℕ → ℕ → ℕ → Kmem → Outcome Kmem
map_round kpgdir kpgtbl phy_addr s = mark_page (p2v phy_addr) s.kvmlist >>= λ kvmlist.
    ok (record s { kvmlist = kvmlist; mem = map_entry kpgdir kpgtbl phy_addr s.mem })

-- The first loop.
unfoldable pub map_kernel : ℕ → ℕ → ℕ → ℕ → Kmem → Outcome Kmem
map_kernel zero kpgdir kpgtbl phy_addr s = hang
map_kernel (suc fuel) kpgdir kpgtbl phy_addr s =
    let rest = map_round kpgdir kpgtbl phy_addr s >>= λ s'.
    map_kernel fuel kpgdir kpgtbl (add32 phy_addr pgsize) s' in
    if ltb phy_addr mem_normal then rest else ok s

-- What kmap_init works on; `cr3` is the register.
pub record Machine : Type 0 where
  pub kmem : Kmem
  pub mem_map : MemMap
  pub cr3 : ℕ
  pub traps : Traps Handler

unfoldable pub kmap_init : ℕ → ℕ → ℕ → Machine → Outcome Machine
unfolding map_kernel
kmap_init fuel kpgdir kpgtbl s = map_kernel fuel kpgdir kpgtbl 0 s.kmem >>= λ kmem.
    keep_unmapped fuel s.mem_map >>= λ mem_map.
    register_trap_handler 14 Handler.page_fault_handler s.traps >>= λ traps.
    ok (record { kmem = kmem; mem_map = mem_map; cr3 = v2p kpgdir; traps = traps })
