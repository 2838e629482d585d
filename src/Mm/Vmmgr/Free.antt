-- ===== src/Mm/Vmmgr/Free.antt =====
-- kvm_free_page, kvm_map_page and kvm_unmap_page (mm/vmmgr.c) on a numbered table.
use linda.Base.{
  ℕ, ◌+◌, ◌*◌, ◌/◌, ◌%◌, ◌≤◌, ◌<◌, ◌≡◌, ◌≢◌, true, false, List, some, arith, length, get_elem?, set,
  ok, ◌>>=◌, leb, ap, sym, ◌∙◌, get_elem?-set_self, get_elem?-set_ne, set-set, set_same,
  lt-length_of_some,
}
use linda.Mach.{kernbase, kernsize, pgsize, sub32}
use linda.Mm.Vmmgr.{
  VmBlock, nvmblocks, is_used, clear_low_bits, set_mapped, update, release_block, kvm_alloc_page,
  kvm_free_page, kvm_map_page, kvm_unmap_page,
}
use linda.Mm.Vmmgr.Table.{IsNumbered, IsNumbered-get_elem?, page_addr}
use linda.Mm.Vmmgr.Alloc.{Allocated, available, taken, kvm_alloc_page-Allocated}

module _ (bs : List VmBlock) (i : ℕ) (b : VmBlock) (at : get_elem? bs i ≡ some b) where
  update_lem : (f : VmBlock → VmBlock) → update i f bs ≡ set bs i (f b)
  unfolding update
  update_lem f = rw (at, update)

-- The table index that the three functions compute from a page's address.
offset_lem :
    (i : ℕ)
    → i < nvmblocks
    → (sub32 (page_addr i) kernbase / pgsize ≡ i)
      × (leb kernsize (sub32 (page_addr i) kernbase) ≡ false)
offset_lem i h = (omega arith, ground arith)

pub free_lem :
    (bs : List VmBlock) (i : ℕ) (b : VmBlock)
    → i < nvmblocks
    → get_elem? bs i ≡ some b
    → kvm_free_page (page_addr i) bs ≡ ok (set bs i (release_block i b))
unfolding kvm_free_page
free_lem bs i b h e = let (o, l) = offset_lem i h in rw (l, o, update_lem bs i b e)

release-taken :
    (i : ℕ) (b : VmBlock)
    → b.address ≡ page_addr i
    → available b ≡ true
    → release_block i (taken b) ≡ b
unfolding release_block
release-taken i b e h = ground arith

-- On a table of numbered pages kvm_free_page undoes kvm_alloc_page: freeing the page that was handed
-- out gives back the whole table as it was.
pub kvm_free_page-kvm_alloc_page :
    (bs : List VmBlock) {addr : ℕ} {bs' : List VmBlock}
    → IsNumbered 0 bs
    → length bs ≤ nvmblocks
    → kvm_alloc_page bs ≡ ok (addr, bs')
    → kvm_free_page addr bs' ≡ ok bs
kvm_free_page-kvm_alloc_page bs {addr} {bs'} n l e =
    let a = kvm_alloc_page-Allocated e in
    let lt : a.index < length bs = lt-length_of_some bs a.index a.block a.was in
    let num : a.block.address ≡ page_addr a.index =
      omega (arith, IsNumbered-get_elem? 0 bs a.index a.block n a.was) in
    let page : addr ≡ page_addr a.index = omega (arith, num, a.address) in
    rw (
      page,
      a.marks,
      free_lem (set bs a.index (taken a.block)) a.index (taken a.block) (omega arith)
          (get_elem?-set_self bs a.index (taken a.block) lt),
      release-taken a.index a.block num a.free,
      set-set,
      set_same bs a.index a.block a.was,
    )

Allocated-apart :
    {bs : List VmBlock} {x y : ℕ} {bs' bs'' : List VmBlock} (a : Allocated bs x bs')
    (b : Allocated bs' y bs'')
    → a.index ≢ b.index
Allocated-apart {bs} a b same =
    let lt : a.index < length bs = lt-length_of_some bs a.index a.block a.was in
    let got : get_elem? (set bs a.index (taken a.block)) a.index ≡ some (taken a.block) =
      get_elem?-set_self bs a.index (taken a.block) lt in
    let was : get_elem? (set bs a.index (taken a.block)) a.index ≡ some b.block =
      rw (← a.marks, same) b.was in
    ground (arith, got, was, b.free)

-- Two pages that kvm_alloc_page hands out one after the other, with no kvm_free_page between, are
-- different pages of the kernel's part of the address space, and both are page-aligned.
kvm_alloc_page_distinct :
    (bs : List VmBlock) {x y : ℕ} {bs' bs'' : List VmBlock}
    → IsNumbered 0 bs
    → length bs ≤ nvmblocks
    → kvm_alloc_page bs ≡ ok (x, bs')
    → kvm_alloc_page bs' ≡ ok (y, bs'')
    → (x ≢ y) × (x % pgsize ≡ 0) × (y % pgsize ≡ 0) × (kernbase ≤ x) × (kernbase ≤ y)
kvm_alloc_page_distinct bs {x} {y} {bs'} n l e f =
    let a = kvm_alloc_page-Allocated e in
    let b = kvm_alloc_page-Allocated f in
    let i_lt : a.index < length bs = lt-length_of_some bs a.index a.block a.was in
    let was : get_elem? bs b.index ≡ some b.block =
      sym (get_elem?-set_ne bs (taken a.block) (Allocated-apart a b)) ∙ (rw (← a.marks) b.was) in
    let j_lt : b.index < length bs = lt-length_of_some bs b.index b.block was in
    let px : x ≡ page_addr a.index =
      omega (arith, IsNumbered-get_elem? 0 bs a.index a.block n a.was, a.address) in
    let py : y ≡ page_addr b.index =
      omega (arith, IsNumbered-get_elem? 0 bs b.index b.block n was, b.address) in
    (λ same. Allocated-apart a b (omega arith), omega arith, omega arith, omega arith, omega arith)

abbrev pub with_status : VmBlock → ℕ → VmBlock
with_status b status = record b { status = status }

pub map_lem :
    (bs : List VmBlock) (i : ℕ) (b : VmBlock)
    → i < nvmblocks
    → get_elem? bs i ≡ some b
    → kvm_map_page (page_addr i) bs ≡ ok (set bs i (with_status b (set_mapped b.status)))
unfolding kvm_map_page
map_lem bs i b h e =
    let (o, l) = offset_lem i h in
    rw (l, o, update_lem bs i b e (λ c. with_status c (set_mapped c.status)))

unmap_lem :
    (bs : List VmBlock) (i : ℕ) (b : VmBlock)
    → i < nvmblocks
    → get_elem? bs i ≡ some b
    → kvm_unmap_page (page_addr i) bs ≡ ok (set bs i (with_status b (clear_low_bits b.status)))
unfolding kvm_unmap_page
unmap_lem bs i b h e =
    let (o, l) = offset_lem i h in
    rw (l, o, update_lem bs i b e (λ c. with_status c (clear_low_bits c.status)))

-- The two status bits are independent in kvm_map_page and not in kvm_unmap_page: on a numbered table
-- mapping a page sets VM_MAPPED and keeps VM_USED, while unmapping a page clears both, so that a used
-- page which is unmapped and mapped again is available to kvm_alloc_page.
kvm_unmap_page_drops_used :
    (bs : List VmBlock) (i : ℕ) (b : VmBlock)
    → i < nvmblocks
    → get_elem? bs i ≡ some b
    → (kvm_map_page (page_addr i) bs ≡ ok (set bs i (record b { status = set_mapped b.status })))
      × (is_used (set_mapped b.status) ≡ is_used b.status)
      × ((kvm_unmap_page (page_addr i) bs >>= kvm_map_page (page_addr i))
          ≡ ok (set bs i (record b { status = b.status / 4 * 4 + 2 })))
      × (available (record b { status = b.status / 4 * 4 + 2 }) ≡ true)
kvm_unmap_page_drops_used bs i b h e = (
  map_lem bs i b h e,
  ground arith,
  rw
      (
        unmap_lem bs i b h e,
        ◌>>=◌,
        map_lem (set bs i (with_status b (clear_low_bits b.status))) i
            (with_status b (clear_low_bits b.status)) h
            (get_elem?-set_self bs i _ (lt-length_of_some bs i b e)),
        set-set,
      )
      (ap (λ (v : ℕ). ok (set bs i (with_status b v))) (omega arith)),
  ground arith,
)
