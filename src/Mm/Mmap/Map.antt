-- ===== src/Mm/Mmap/Map.antt =====
-- Mapping and unmapping a page (mm/mmap.c: the part of mmap_do_map and of mmap_do_unmap on the directory)
-- against the processor's walk.
use linda.Base.{
  ℕ, ◌+◌, ◌*◌, ◌%◌, ◌<◌, ◌≡◌, ◌≢◌, refl, sym, ap₂, ◌∙◌, List, Option, none, some, arith, ◌==◌,
  if◌then◌else◌, eq→==, ne→==, ℕ_discrete, ok,
}
use linda.Mach.{pgsize, kernbase, kernsize, u32_mod, p2v, pdx, ptx, pgrounddown}
use linda.Mach.Paging.{pdx-ptx_parts, pdx-ptx_injective}
use linda.Mm.Vmmgr.{VmBlock, kvm_alloc_page}
use linda.Mm.Kmalloc.{Kmem}
use linda.Mm.Mmap.{write_word}
use linda.Mm.Mmap.Walk.{frame, walk, translate, IsDir, IsFresh}
use linda.Mm.Mmap.Entry.{leaf, put_entry-walk_same, put_entry-walk_other}

-- The kernel page that kvm_alloc_page would hand out is not part of the directory.
abbrev pub NextFresh : ℕ → Kmem → Type 0
NextFresh mmap s =
    (page : ℕ) (kvmlist : List VmBlock)
    → kvm_alloc_page s.kvmlist ≡ ok (page, kvmlist)
    → IsFresh mmap s.mem page

-- What mapping the page of `va` to the frame of `pa` comes to, however the walk of the other pages goes.
abbrev pub MapsTo : ℕ → ℕ → Option ℕ → (ℕ → ℕ) → (ℕ → ℕ) → Type 0
MapsTo mmap va target mem mem' =
    (wa : ℕ)
    → wa < u32_mod
    → translate mmap wa mem' ≡ (
        if pgrounddown wa == pgrounddown va
        then elim target [ none ↦ none | some pa ↦ some (pgrounddown pa + wa % pgsize) ]
        else translate mmap wa mem)

pub p2v_frame : (f : ℕ) → f < kernsize → p2v f ≡ f + kernbase
unfolding p2v
p2v_frame f h = omega arith

-- Two addresses in different pages have different indices.
indices_apart :
    (va wa : ℕ)
    → va < u32_mod
    → wa < u32_mod
    → pgrounddown wa ≢ pgrounddown va
    → ¬ ((pdx wa ≡ pdx va) × (ptx wa ≡ ptx va))
indices_apart va wa h k n (a, b) = n (pdx-ptx_injective wa va k h a b)

same_indices : (va wa : ℕ) → pgrounddown wa ≡ pgrounddown va → (pdx wa ≡ pdx va) × (ptx wa ≡ ptx va)
unfolding pgrounddown pdx ptx
same_indices va wa e = (omega arith, omega arith)

pub translate-walk :
    (mmap va : ℕ) (mem : ℕ → ℕ)
    → translate mmap va mem ≡ walk mmap (pdx va) (ptx va) (va % pgsize) mem
unfolding translate
translate-walk mmap va mem = refl

-- `v` is written to the entry for `va` of its table.
pub put-MapsTo :
    (mmap va v : ℕ) (target : Option ℕ) (mem : ℕ → ℕ)
    → IsDir mmap mem
    → va < u32_mod
    → frame (mem (mmap + 4 * pdx va)) ≢ 0
    → ((o : ℕ) → leaf v o ≡ elim target [ none ↦ none | some pa ↦ some (pgrounddown pa + o) ])
    → MapsTo mmap va target mem
        (write_word (frame (mem (mmap + 4 * pdx va)) + kernbase + 4 * ptx va) v mem)
put-MapsTo mmap va v target mem w h nz l wa k =
    let (_, hc, hs) = pdx-ptx_parts va h in
    let (_, kc, ks) = pdx-ptx_parts wa k in
    let mem' = write_word (frame (mem (mmap + 4 * pdx va)) + kernbase + 4 * ptx va) v mem in
    elim (ℕ_discrete (pgrounddown wa) (pgrounddown va)) [
      | yes e ↦
          let (a, b) = same_indices va wa e in
          rw (eq→== (pgrounddown wa) (pgrounddown va) e) (
            translate-walk mmap wa mem'
            ∙ ap₂ (λ (x y : ℕ). walk mmap x y (wa % pgsize) mem') a b
            ∙ put_entry-walk_same mmap mem w (pdx va) (ptx va) v hc hs (wa % pgsize)
                (w.present (pdx va) hc nz)
            ∙ l (wa % pgsize))
      | no n ↦ rw (ne→== (pgrounddown wa) (pgrounddown va) n) (
          translate-walk mmap wa mem'
          ∙ put_entry-walk_other mmap mem w (pdx va) (ptx va) v hc hs (pdx wa) (ptx wa)
              (wa % pgsize) kc ks nz (indices_apart va wa h k n)
          ∙ sym (translate-walk mmap wa mem))
    ]
