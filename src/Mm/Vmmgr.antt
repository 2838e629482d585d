-- ===== src/Mm/Vmmgr.antt =====
-- mm/vmmgr.c and include/kernel/mm/vmmgr.h: the table of the kernel's virtual pages. `kvmlist` is a
-- list; only the two low bits of `status` are ever set, VM_USED (bit 0) and VM_MAPPED (bit 1).
pub mod Table
pub mod Alloc
pub mod Free
mod Tests
use linda.Base.{
  ℕ, suc, ◌+◌, ◌-◌, ◌*◌, ◌/◌, ◌%◌, Bool, not, ◌&&◌, List, [], ◌∷◌, Option, none, some, Outcome, ok,
  panic, ◌>>=◌, ltb, leb, ◌==◌, if◌then◌else◌, set, get_elem?,
}
use linda.Mach.{kernbase, kernsize, pgsize, p2v, add32, sub32}

pub record VmBlock : Type 0 where
  pub address : ℕ
  pub status : ℕ

-- NVMBLOCKS
abbrev pub nvmblocks : ℕ
nvmblocks = kernsize / pgsize

-- `status & VM_USED`, `status & VM_MAPPED`
abbrev pub is_used : ℕ → Bool
is_used status = status % 2 == 1

abbrev pub is_mapped : ℕ → Bool
is_mapped status = status / 2 % 2 == 1

-- `|= VM_USED`, `|= VM_MAPPED`, `&= ~VM_USED`
abbrev pub set_used : ℕ → ℕ
set_used status = status / 2 * 2 + 1

abbrev pub set_mapped : ℕ → ℕ
set_mapped status = status / 4 * 4 + 2 + status % 2

abbrev pub clear_used : ℕ → ℕ
clear_used status = status / 2 * 2

-- `&= (~VM_MAPPED)`: the macro is `1 << 1` with no brackets, so this is `(~1) << 1`, which has the
-- two low bits clear.
abbrev pub clear_low_bits : ℕ → ℕ
clear_low_bits status = status / 4 * 4

-- The body of kvm_init's loop, from index `i` on.
unfoldable pub kvm_init_from : ℕ → ℕ → List VmBlock → List VmBlock
unfolding p2v
kvm_init_from kernaddr i [] = []
kvm_init_from kernaddr i (b ∷ bs) =
    record {
      address = add32 kernbase (i * pgsize);
      status = if leb (p2v (i * pgsize)) kernaddr then set_mapped (set_used b.status) else b.status;
    }
    ∷ kvm_init_from kernaddr (suc i) bs

-- `kernaddr` is what virt_kern_addr returns.
unfoldable pub kvm_init : ℕ → List VmBlock → List VmBlock
unfolding kvm_init_from
kvm_init kernaddr kvmlist = kvm_init_from kernaddr 0 kvmlist

-- The address, and the table with the page marked.
unfoldable pub kvm_alloc_page : List VmBlock → Outcome (ℕ × List VmBlock)
kvm_alloc_page [] = panic
kvm_alloc_page (b ∷ bs) =
    let rest = kvm_alloc_page bs in
    if is_mapped b.status && not (is_used b.status)
    then ok (b.address, record b { status = set_used b.status } ∷ bs)
    else rest >>= λ (addr, bs'). ok (addr, b ∷ bs')

-- It marks nothing.
unfoldable pub kvm_alloc_umapped_page : List VmBlock → Outcome ℕ
kvm_alloc_umapped_page [] = panic
kvm_alloc_umapped_page (b ∷ bs) =
    let rest = kvm_alloc_umapped_page bs in if is_mapped b.status then rest else ok b.address

-- `kvmlist[idx]` is changed by `f`.
unfoldable pub update : ℕ → (VmBlock → VmBlock) → List VmBlock → List VmBlock
update idx f kvmlist = elim (get_elem? kvmlist idx) [
  | none ↦ kvmlist
  | some b ↦ set kvmlist idx (f b)
]

-- A page that no kvm_init has numbered gets its address here.
unfoldable pub release_block : ℕ → VmBlock → VmBlock
unfolding p2v
release_block idx b = record {
  address = if b.address == 0 then p2v (idx * pgsize) else b.address;
  status = clear_used b.status;
}

-- `offset < 0` never holds of a `uint_t`.
unfoldable pub kvm_free_page : ℕ → List VmBlock → Outcome (List VmBlock)
unfolding update release_block
kvm_free_page addr kvmlist =
    let offset = sub32 addr kernbase in
    if leb kernsize offset
    then panic
    else ok (update (offset / pgsize) (release_block (offset / pgsize)) kvmlist)

unfoldable pub kvm_unmap_page : ℕ → List VmBlock → Outcome (List VmBlock)
unfolding update
kvm_unmap_page addr kvmlist =
    let offset = sub32 addr kernbase in
    if leb kernsize offset
    then panic
    else ok (update (offset / pgsize) (λ b. record b { status = clear_low_bits b.status }) kvmlist)

unfoldable pub kvm_map_page : ℕ → List VmBlock → Outcome (List VmBlock)
unfolding update
kvm_map_page addr kvmlist =
    let offset = sub32 addr kernbase in
    if leb kernsize offset
    then panic
    else ok (update (offset / pgsize) (λ b. record b { status = set_mapped b.status }) kvmlist)
