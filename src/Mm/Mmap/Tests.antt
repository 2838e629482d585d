-- ===== src/Mm/Mmap/Tests.antt =====
-- Mapping a page in an empty directory, and what becomes of the list of mapped blocks.
use linda.Base.{
  ℕ, ◌≡◌, ◌≢◌, refl, sym, subst, true, false, [], ◌∷◌, Option, none, some, arith, Outcome, ok, hang,
  ◌==◌, if◌then◌else◌, pos, negsuc,
}
use linda.Mach.{v2p, p2v, pdx, ptx, pgrounddown}
use linda.Mm.Vmmgr.{kvm_alloc_page}
use linda.Mm.Vmmgr.Table.{page_addr}
use linda.Mm.Kmalloc.{Kmem}
use linda.Mm.Mmap.{
  Mmap, entry, table_of, get_table, map_page, unmap_page, remove_block, keep_unmapped, umap_init,
}
use linda.Mm.Memory.{MemMap}
use linda.Mm.Mmap.Leftover.{keep_unmapped-hang}
use linda.Mm.Mmap.Walk.{translate, IsDir, IsFresh}
use linda.Mm.Mmap.NewTable.{with_table, with_table-IsDir}
use linda.Mm.Mmap.Map.{NextFresh, MapsTo}
use linda.Mm.Mmap.Share.{Shares, umap_init-Shares}
use linda.Kernel.Init.Copy.{InPlace, map_page-InPlace}
use linda.Mm.Mmap.Update.{Maps, map_page-Maps, unmap_page_lem}

-- The directory, in page 4 of the kernel, and the next free page.
abbrev dir : ℕ
dir = page_addr 4

abbrev table : ℕ
table = page_addr 5

abbrev empty : Kmem
empty = record {
  kmem_list = [];
  kvmlist = record { address = table; status = 2 } ∷ [];
  mem = λ _. 0;
}

abbrev translated : ℕ → Outcome Kmem → Option ℕ
translated va (ok s) = translate dir va s.mem
translated va _ = none

map_run : translated 0x0804_90AB (map_page dir 0x0804_9000 0x12_3000 true empty) ≡ some 0x12_30AB
unfolding map_page get_table table_of entry p2v v2p pdx ptx pgrounddown translate kvm_alloc_page
map_run = refl

map_run_other : translated 0x0804_A000 (map_page dir 0x0804_9000 0x12_3000 true empty) ≡ none
unfolding map_page get_table table_of entry p2v v2p pdx ptx pgrounddown translate kvm_alloc_page
map_run_other = refl

-- Two blocks, at 0x1000 and 0x2000, that record pages 0x5000 and 0x6000.
abbrev two_blocks : Mmap
two_blocks = record {
  kmem = record empty {
    mem = λ a.
        if a == 0x1000
        then 0x5000
        else if a == 0x100C
        then 0x2000
        else if a == 0x2000
        then 0x6000
        else 0;
  };
  mmaplist = 0x1000;
}

abbrev list_of : Outcome Mmap → Option ℕ
list_of (ok s) = some s.mmaplist
list_of _ = none

-- Removing the first block of the list empties the list; removing the second does not.
remove_first_run : list_of (remove_block 3 0x5000 0x1000 0x1000 0 two_blocks) ≡ some 0
unfolding remove_block
remove_first_run = refl

remove_second_run : list_of (remove_block 3 0x6000 0x1000 0x1000 0 two_blocks) ≡ some 0x1000
unfolding remove_block
remove_second_run = refl

empty-IsDir : IsDir dir empty.mem
empty-IsDir = record {
  aligned = refl;
  present = λ d h z. absurd (z refl);
  absent = λ d h z. refl;
  low = λ d h. omega arith;
  other = λ d h e. omega (arith, e);
  apart = λ d e h k z _. absurd (z refl);
}

table-IsFresh : IsFresh dir empty.mem table
table-IsFresh = record {
  aligned = refl;
  above = omega arith;
  below = omega arith;
  dir = λ e. omega (arith, e);
  table = λ d h e. omega (arith, e);
}

empty-NextFresh : NextFresh dir empty
unfolding kvm_alloc_page
empty-NextFresh page kvmlist e =
    let same : page ≡ table = cc e in subst (IsFresh dir empty.mem) (sym same) table-IsFresh

map_page-Maps_example :
    Maps dir 0x0804_9000 0x12_3000 empty (map_page dir 0x0804_9000 0x12_3000 true empty)
map_page-Maps_example =
    map_page-Maps dir 0x0804_9000 0x12_3000 true empty (omega arith) empty-IsDir empty-NextFresh

-- The directory with a table for its first entry.
abbrev with_first : Kmem
with_first = record empty {
  mem = with_table dir empty.mem empty-IsDir table table-IsFresh 0 (omega arith) false;
}

with_first-IsDir : IsDir dir with_first.mem
with_first-IsDir =
    with_table-IsDir dir empty.mem empty-IsDir table table-IsFresh 0 (omega arith) false

with_first_table : table_of dir 0x1000 with_first.mem ≢ 0
unfolding table_of entry v2p pdx pgrounddown
with_first_table e = omega (arith, e)

unmap_page_lem_example :
    IsDir dir (unmap_page dir 0x1000 with_first).mem
    × MapsTo dir 0x1000 none with_first.mem (unmap_page dir 0x1000 with_first).mem
unmap_page_lem_example =
    unmap_page_lem dir 0x1000 with_first (omega arith) with_first-IsDir with_first_table

-- A stack of one mapped page and one above MEM_NORMAL.
abbrev two_pages : MemMap
two_pages = record {
  free_list = λ i. elim i [ pos n ↦ if n == 2 then 0x37FF_F000 else 0x3800_0000 | negsuc n ↦ 0 ];
  page_count = 2;
  header = pos 2;
}

abbrev small_memory : MemMap
small_memory = record { free_list = λ _. 0x20_0000; page_count = 1; header = pos 1 }

keep_unmapped-hang_example : keep_unmapped 1000 small_memory ≡ hang
keep_unmapped-hang_example = keep_unmapped-hang 1000 small_memory (λ i h. omega arith)

umap_init-Shares_example : Shares dir empty (umap_init dir empty)
umap_init-Shares_example = umap_init-Shares dir empty empty-IsDir empty-NextFresh

map_page-InPlace_example :
    InPlace dir 0x0804_9000 0x12_3000 16
      (λ i. i)
      (λ _. 0)
      empty
      (map_page dir 0x0804_9000 0x12_3000 false empty)
map_page-InPlace_example =
    map_page-InPlace dir 0x0804_9000 0x12_3000 16 (λ i. i) (λ _. 0) empty refl (omega arith)
      (omega arith) empty-IsDir empty-NextFresh
