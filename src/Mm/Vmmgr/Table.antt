-- ===== src/Mm/Vmmgr/Table.antt =====
-- The table of pages (mm/vmmgr.c): which page an entry stands for, and what kvm_init makes of it.
use linda.Base.{
  ℕ, zero, suc, ◌+◌, ◌*◌, ◌≤◌, ◌≡◌, List, [], ◌∷◌, some, arith, length, get_elem?, leb,
  if◌then◌else◌,
}
use linda.Mach.{kernbase, pgsize, p2v}
use linda.Mm.Vmmgr.{VmBlock, nvmblocks, set_used, set_mapped, kvm_init_from, kvm_init}

-- The address of page `i`.
abbrev pub page_addr : ℕ → ℕ
page_addr i = kernbase + i * pgsize

-- Entry `i + k` of the table, for each `k`, carries the address of its page.
abbrev pub IsNumbered : ℕ → List VmBlock → Type 0
IsNumbered i [] = Unit {0}
IsNumbered i (b ∷ bs) = (b.address ≡ page_addr i) × IsNumbered (suc i) bs

pub IsNumbered-get_elem? :
    (i : ℕ) (bs : List VmBlock) (k : ℕ) (b : VmBlock)
    → IsNumbered i bs
    → get_elem? bs k ≡ some b
    → b.address ≡ page_addr (i + k)
IsNumbered-get_elem? i [] k b n e = cc
IsNumbered-get_elem? i (c ∷ bs) zero b n e = ground arith
IsNumbered-get_elem? i (c ∷ bs) (suc k) b n e = ground (arith, IsNumbered-get_elem? (suc i) bs k b)

kvm_init_from-IsNumbered :
    (kernaddr i : ℕ) (bs : List VmBlock)
    → i + length bs ≤ nvmblocks
    → IsNumbered i (kvm_init_from kernaddr i bs)
unfolding kvm_init_from
kvm_init_from-IsNumbered kernaddr i [] h = tt
kvm_init_from-IsNumbered kernaddr i (b ∷ bs) h =
    (omega arith, kvm_init_from-IsNumbered kernaddr (suc i) bs (omega arith))

-- What kvm_init makes of an entry.
abbrev pub initial : ℕ → ℕ → VmBlock → VmBlock
initial kernaddr i b = record {
  address = page_addr i;
  status = if leb (page_addr i) kernaddr then set_mapped (set_used b.status) else b.status;
}

kvm_init_from-get_elem? :
    (kernaddr i : ℕ) (bs : List VmBlock) (k : ℕ) (b : VmBlock)
    → i + length bs ≤ nvmblocks
    → get_elem? bs k ≡ some b
    → get_elem? (kvm_init_from kernaddr i bs) k ≡ some (initial kernaddr (i + k) b)
unfolding kvm_init_from p2v
kvm_init_from-get_elem? kernaddr i [] k b h e = cc
kvm_init_from-get_elem? kernaddr i (c ∷ bs) zero b h e = ground arith
kvm_init_from-get_elem? kernaddr i (c ∷ bs) (suc k) b h e =
    ground (arith, kvm_init_from-get_elem? kernaddr (suc i) bs k b)

-- On a table of at most NVMBLOCKS entries kvm_init numbers every page, marks the pages up to the
-- kernel's end used and mapped, and leaves the status of every other page alone.
pub kvm_init_lem :
    (kernaddr : ℕ) (kvmlist : List VmBlock) (k : ℕ) (b : VmBlock)
    → length kvmlist ≤ nvmblocks
    → get_elem? kvmlist k ≡ some b
    → IsNumbered 0 (kvm_init kernaddr kvmlist)
      × (get_elem? (kvm_init kernaddr kvmlist) k ≡ some (initial kernaddr k b))
unfolding kvm_init
kvm_init_lem kernaddr kvmlist k b h e = (
  kvm_init_from-IsNumbered kernaddr 0 kvmlist (omega arith),
  ground (arith, kvm_init_from-get_elem? kernaddr 0 kvmlist k b),
)
