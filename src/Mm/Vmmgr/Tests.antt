-- ===== src/Mm/Vmmgr/Tests.antt =====
-- Runs of the table of pages, and its theorems at a table of three.
use linda.Base.{ℕ, ◌≡◌, refl, List, [], ◌∷◌, arith, ok, panic}
use linda.Mm.Vmmgr.{VmBlock, kvm_alloc_page, kvm_alloc_umapped_page, kvm_free_page}
use linda.Mm.Vmmgr.Table.{page_addr}
use linda.Mm.Vmmgr.Alloc.{AllocSpec, kvm_alloc_page_lem}
use linda.Mm.Vmmgr.Free.{kvm_free_page-kvm_alloc_page}

abbrev block : ℕ → ℕ → VmBlock
block i status = record { address = page_addr i; status = status }

-- The first page is the kernel's, the others are free.
abbrev table : List VmBlock
table = block 0 3 ∷ block 1 2 ∷ block 2 2 ∷ []

abbrev taken_once : List VmBlock
taken_once = block 0 3 ∷ block 1 3 ∷ block 2 2 ∷ []

abbrev taken_twice : List VmBlock
taken_twice = block 0 3 ∷ block 1 3 ∷ block 2 3 ∷ []

alloc_run : kvm_alloc_page table ≡ ok (0xC000_1000, taken_once)
unfolding kvm_alloc_page
alloc_run = refl

alloc_again : kvm_alloc_page taken_once ≡ ok (0xC000_2000, taken_twice)
unfolding kvm_alloc_page
alloc_again = refl

alloc_panics : (kvm_alloc_page taken_twice ≡ panic) × (kvm_alloc_umapped_page taken_twice ≡ panic)
unfolding kvm_alloc_page kvm_alloc_umapped_page
alloc_panics = (refl, refl)

kvm_alloc_page_lem_example : AllocSpec table (kvm_alloc_page table)
kvm_alloc_page_lem_example = kvm_alloc_page_lem table

kvm_free_page-kvm_alloc_page_example : kvm_free_page 0xC000_1000 taken_once ≡ ok table
kvm_free_page-kvm_alloc_page_example =
    kvm_free_page-kvm_alloc_page table (omega arith) (omega arith) alloc_run
