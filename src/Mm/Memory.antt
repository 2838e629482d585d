-- ===== src/Mm/Memory.antt =====
-- mm/memory.c: the stack of free physical pages. `mem_map.free_list` is the memory behind `kern_end`,
-- indexed by the `int` `header`; what it holds before it is written is the caller's.
pub mod Stack
pub mod Init
mod Tests
use linda.Base.{
  ℕ, zero, suc, ◌+◌, ◌*◌, ◌%◌, Bool, ◌&&◌, Outcome, ok, hang, leb, ◌==◌, if◌then◌else◌, ℤ, pos,
  negsuc, ◌+ℤ◌, ◌-ℤ◌, eq_ℤ, ltb_ℤ,
}
use linda.Mach.{extmem, pgsize, add32, sub32, pgroundup, pgrounddown}

pub record MemMap : Type 0 where
  pub free_list : ℤ → ℕ
  pub page_count : ℕ
  pub header : ℤ

-- include/kernel/multiboot.h: the fields of `struct multiboot_mmap_entry` that mm/memory.c reads
pub record MmapEntry : Type 0 where
  pub addr_low : ℕ
  pub len_low : ℕ
  pub type : ℕ

abbrev pub multiboot_memory_available : ℕ
multiboot_memory_available = 1

abbrev pub write : (ℤ → ℕ) → ℤ → ℕ → ℤ → ℕ
write free_list i v j = if eq_ℤ i j then v else free_list j

-- NULL is 0.
unfoldable pub phy_mem_alloc : MemMap → ℕ × MemMap
unfolding ◌-ℤ◌
phy_mem_alloc s =
    if ltb_ℤ s.header (pos 0)
    then (0, s)
    else (s.free_list s.header, record s { header = s.header -ℤ pos 1 })

unfoldable pub phy_mem_free : ℕ → MemMap → MemMap
unfolding ◌+ℤ◌ pgrounddown
phy_mem_free addr s =
    let header = s.header +ℤ pos 1 in
    record s { free_list = write s.free_list header (pgrounddown addr); header = header }

-- The loop over the entries of the boot loader's memory map, `rounds` of them from entry `i` on. It
-- carries `start_addr` and `end_addr`.
unfoldable pub find_extmem : (ℕ → MmapEntry) → ℕ → ℕ → ℕ → ℕ × ℕ → ℕ × ℕ
find_extmem mmap kern_size zero i range = range
find_extmem mmap kern_size (suc rounds) i range =
    let e = mmap i in
    find_extmem mmap kern_size rounds (suc i) (
      if (e.type == multiboot_memory_available) && (e.addr_low == extmem)
      then (add32 e.addr_low kern_size, add32 e.addr_low e.len_low)
      else range)

-- `while(end_addr>=start_addr)` on fuel
unfoldable pub free_range : ℕ → ℕ → ℕ → MemMap → Outcome MemMap
free_range zero start_addr end_addr s = hang
free_range (suc fuel) start_addr end_addr s =
    let s' = phy_mem_free end_addr s in
    let rest =
      free_range fuel start_addr (sub32 end_addr pgsize)
        (record s' { page_count = s'.page_count + 1 }) in
    if leb start_addr end_addr then rest else ok s

-- `mmap_end_addr` is `mmap_length` entries, not bytes, behind `mmap_start_addr`. The locals
-- `start_addr` and `end_addr` are not initialised: `garbage` is what they hold.
unfoldable pub phy_mem_init : ℕ → (ℕ → MmapEntry) → ℕ → ℕ → ℕ × ℕ → MemMap → Outcome MemMap
unfolding find_extmem pgroundup pgrounddown
phy_mem_init fuel mmap mmap_length kern_size garbage s =
    let (start_addr, end_addr) = find_extmem mmap kern_size mmap_length 0 garbage in
    free_range fuel (pgroundup start_addr) (pgrounddown end_addr) s

-- `kern_end` is the linker's symbol.
unfoldable pub virt_kern_addr : ℕ → MemMap → ℕ
virt_kern_addr kern_end s = add32 kern_end (s.page_count * 4)
