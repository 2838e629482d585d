-- ===== src/Mm/Kmalloc/Extent.antt =====
-- Where the chunks of the heap (mm/kmalloc.c) lie: a chunk takes up its header and its bytes.
use linda.Base.{
  ℕ, ◌+◌, ◌≤◌, ◌≡◌, ◌⊎◌, List, [], ◌∷◌, ◌++◌, some, arith, true, length, get_elem?, ◌==◌,
}
use linda.Mach.{u32_mod, kernbase, pgsize}
use linda.Mm.Vmmgr.{VmBlock, nvmblocks}
use linda.Mm.Vmmgr.Table.{page_addr, IsNumbered}
use linda.Mm.Vmmgr.Alloc.{available}
use linda.Mm.Kmalloc.{Chunk, Kmem, header_size, kmem_used}

-- Every element of a list satisfies `P`.
abbrev pub All {ℓ κ} : {A : Type ℓ} → (A → Type κ) → List A → Type κ
All P [] = Unit
All P (x ∷ xs) = P x × All P xs

-- A chunk lies within the kernel's part of the address space.
abbrev pub InKernel : Chunk → Type 0
InKernel c = (kernbase + header_size ≤ c.addr) × (c.addr + c.size ≤ u32_mod)

-- Two chunks have no byte in common, headers included.
abbrev pub Disjoint : Chunk → Chunk → Type 0
Disjoint c d = (c.addr + c.size + header_size ≤ d.addr) ⊎ (d.addr + d.size + header_size ≤ c.addr)

-- A chunk has no byte in the page at `p`.
abbrev pub AwayFrom : ℕ → Chunk → Type 0
AwayFrom p c = (c.addr + c.size ≤ p) ⊎ (p + pgsize + header_size ≤ c.addr)

abbrev pub Pairwise : List Chunk → Type 0
Pairwise [] = Unit
Pairwise (c ∷ cs) = All (Disjoint c) cs × Pairwise cs

-- The heap is well formed: its chunks lie in the kernel's space, no two of them overlap, and none
-- of them overlaps a page that kvm_alloc_page could hand out.
pub record IsHeap (s : Kmem) : Type 0 where
  pub in_kernel : All InKernel s.kmem_list
  pub pairwise : Pairwise s.kmem_list
  pub away :
      (k : ℕ) (b : VmBlock)
      → get_elem? s.kvmlist k ≡ some b
      → available b ≡ true
      → All (AwayFrom (page_addr k)) s.kmem_list
  pub numbered : IsNumbered 0 s.kvmlist
  pub bounded : length s.kvmlist ≤ nvmblocks

-- The blocks that are handed out, address and size.
abbrev pub used_blocks : List Chunk → List (ℕ × ℕ)
used_blocks [] = []
used_blocks (c ∷ cs) = elim (c.status == kmem_used) [
  | true ↦ (c.addr, c.size) ∷ used_blocks cs
  | _ ↦ used_blocks cs
]

-- `ys` is `xs` with `x` put in somewhere.
pub data Inserted (x : ℕ × ℕ) : List (ℕ × ℕ) → List (ℕ × ℕ) → Type 0 where
  here : {xs : List (ℕ × ℕ)} → Inserted x xs (x ∷ xs)
  there : {y : ℕ × ℕ} {xs ys : List (ℕ × ℕ)} → Inserted x xs ys → Inserted x (y ∷ xs) (y ∷ ys)

module _ {ℓ κ} {A : Type ℓ} (P : A → Type κ) where
  pub All-append : (xs ys : List A) → All P xs → All P ys → All P (xs ++ ys)
  All-append [] ys h k = k
  All-append (x ∷ xs) ys h k = (h.0, All-append xs ys h.1 k)

module _ {ℓ κ ι} {A : Type ℓ} {P : A → Type κ} {Q : A → Type ι} where
  pub All-mono : (xs : List A) → ((x : A) → P x → Q x) → All P xs → All Q xs
  All-mono [] f h = tt
  All-mono (x ∷ xs) f h = (f x h.0, All-mono xs f h.1)

pub Pairwise-snoc :
    (cs : List Chunk) (d : Chunk) → Pairwise cs → All (Disjoint d) cs → Pairwise (cs ++ d ∷ [])
Pairwise-snoc [] d h k = (tt, tt)
Pairwise-snoc (c ∷ cs) d h k =
    (All-append (Disjoint c) cs (d ∷ []) h.0 (omega arith), Pairwise-snoc cs d h.1 k.1)
