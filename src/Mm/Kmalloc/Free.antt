-- ===== src/Mm/Kmalloc/Free.antt =====
-- kmfree (mm/kmalloc.c): the block that holds the address is given back, and no other.
use linda.Base.{
  ℕ, ◌+◌, ◌≤◌, ◌<◌, ◌≡◌, refl, ◌≢◌, ◌⊎◌, inl, inr, List, [], ◌∷◌, arith, true, false, length, ◌==◌,
  Bool-cases, Outcome, ok, panic, hang, overrun,
}
use linda.Mach.{u32_mod}
use linda.Mm.Vmmgr.{VmBlock}
use linda.Mm.Vmmgr.Table.{page_addr}
use linda.Mm.Kmalloc.{Chunk, Kmem, kmem_free, kmem_used, with_status, holds, free_from, kmfree}
use linda.Mm.Kmalloc.Extent.{
  All, InKernel, Disjoint, AwayFrom, Pairwise, IsHeap, used_blocks, Inserted, here,
}
use linda.Mm.Kmalloc.Replace.{Inserted-cons}
use linda.Mm.Kmalloc.Grow.{Glued, chunk_glue-Glued}

-- A chunk ends below the top of the address space, where `addr + size` would wrap to 0.
abbrev pub BelowTop : Chunk → Type 0
BelowTop c = c.addr + c.size < u32_mod

All-free_from :
    (P : Chunk → Type 0) (addr : ℕ) (cs : List Chunk) (mem : ℕ → ℕ)
    → ((c : Chunk) → P c → P (with_status c kmem_free))
    → All P cs
    → All P (free_from addr cs mem).0
unfolding free_from
All-free_from P addr [] mem f h = tt
All-free_from P addr (c ∷ cs) mem f h = elim (Bool-cases (holds addr c)) [
  | inl y ↦ rw y (f c h.0, h.1)
  | inr n ↦ rw n (h.0, All-free_from P addr cs mem f h.1)
]

Pairwise-free_from :
    (addr : ℕ) (cs : List Chunk) (mem : ℕ → ℕ) → Pairwise cs → Pairwise (free_from addr cs mem).0
unfolding free_from
Pairwise-free_from addr [] mem h = tt
Pairwise-free_from addr (c ∷ cs) mem h = elim (Bool-cases (holds addr c)) [
  | inl y ↦ rw y h
  | inr n ↦
      rw n
        (All-free_from (Disjoint c) addr cs mem (λ d x. x) h.0, Pairwise-free_from addr cs mem h.1)
]

-- An address lies outside a block.
abbrev pub Outside : ℕ → ℕ × ℕ → Type 0
Outside addr (a, n) = (addr < a) ⊎ (a + n ≤ addr)

-- Between the used blocks before and after: one that holds the address is gone, or none holds it.
abbrev pub Freed : ℕ → List (ℕ × ℕ) → List (ℕ × ℕ) → Type 0
Freed addr before after =
    ((a : ℕ) × (n : ℕ) × (a ≤ addr) × (addr < a + n) × Inserted (a, n) after before)
    ⊎ (All (Outside addr) before × (after ≡ before))

outside_lem :
    (addr : ℕ) (c : Chunk)
    → BelowTop c
    → (c.status == kmem_used) ≡ true
    → holds addr c ≡ false
    → Outside addr (c.addr, c.size)
outside_lem addr c t k n = ground arith

Freed-cons :
    (addr : ℕ) (c : Chunk) (cs ds : List Chunk)
    → BelowTop c
    → holds addr c ≡ false
    → Freed addr (used_blocks cs) (used_blocks ds)
    → Freed addr (used_blocks (c ∷ cs)) (used_blocks (c ∷ ds))
Freed-cons addr c cs ds t n (inl (a, m, lo, hi, i)) =
    inl (a, m, lo, hi, Inserted-cons (a, m) c ds cs i)
Freed-cons addr c cs ds t n (inr (out, same)) = elim (Bool-cases (c.status == kmem_used)) [
  | inl k ↦ inr (rw (k, used_blocks) (outside_lem addr c t k n, out), rw (k, used_blocks, same))
  | inr k ↦ inr (rw (k, used_blocks) out, rw (k, used_blocks, same))
]

used_of_holds : (addr : ℕ) (c : Chunk) → holds addr c ≡ true → (c.status == kmem_used) ≡ true
used_of_holds addr c h = ground arith

free_from-Freed :
    (addr : ℕ) (cs : List Chunk) (mem : ℕ → ℕ)
    → All BelowTop cs
    → Freed addr (used_blocks cs) (used_blocks (free_from addr cs mem).0)
unfolding free_from
free_from-Freed addr [] mem t = inr (tt, refl)
free_from-Freed addr (c ∷ cs) mem t = elim (Bool-cases (holds addr c)) [
  | inl y ↦ rw y (
      inl
        (c.addr, c.size, ground arith, ground arith, rw (used_of_holds addr c y, used_blocks) here))
  | inr n ↦
      rw n (Freed-cons addr c cs (free_from addr cs mem).0 t.0 n (free_from-Freed addr cs mem t.1))
]

-- What kmfree may answer.
abbrev pub Kmfreed : ℕ → Kmem → Outcome Kmem → Type 0
Kmfreed addr s (ok s') = IsHeap s' × Freed addr (used_blocks s.kmem_list) (used_blocks s'.kmem_list)
Kmfreed addr s _ = ⊥

Glued-Kmfreed :
    (addr : ℕ) (s s' : Kmem) (r : Outcome Kmem)
    → length s'.kmem_list ≢ 0
    → Freed addr (used_blocks s.kmem_list) (used_blocks s'.kmem_list)
    → Glued s' r
    → Kmfreed addr s r
Glued-Kmfreed addr s s' (ok t) ne f (h, used, _, _) = (h, rw used f)
Glued-Kmfreed addr s s' panic ne f g = absurd (ne (rw g refl))
Glued-Kmfreed addr s s' hang ne f g = g
Glued-Kmfreed addr s s' overrun ne f g = g

length-free_from :
    (addr : ℕ) (cs : List Chunk) (mem : ℕ → ℕ) → length (free_from addr cs mem).0 ≡ length cs
unfolding free_from
length-free_from addr [] mem = refl
length-free_from addr (c ∷ cs) mem = ground (arith, length-free_from addr cs mem)

kmfree_on-Kmfreed :
    (addr : ℕ) (cs : List Chunk) (kvmlist : List VmBlock) (mem : ℕ → ℕ)
    → IsHeap (record { kmem_list = cs; kvmlist = kvmlist; mem = mem })
    → All BelowTop cs
    → Kmfreed addr
        (record { kmem_list = cs; kvmlist = kvmlist; mem = mem })
        (kmfree addr (record { kmem_list = cs; kvmlist = kvmlist; mem = mem }))
unfolding kmfree
kmfree_on-Kmfreed addr [] kvmlist mem h t = (h, inr (tt, refl))
kmfree_on-Kmfreed addr (c ∷ cs) kvmlist mem h t =
    let ds = (free_from addr (c ∷ cs) mem).0 in
    let mem' = (free_from addr (c ∷ cs) mem).1 in
    Glued-Kmfreed addr (record { kmem_list = c ∷ cs; kvmlist = kvmlist; mem = mem })
      (record { kmem_list = ds; kvmlist = kvmlist; mem = mem' }) _
      (omega (arith, length-free_from addr (c ∷ cs) mem)) (free_from-Freed addr (c ∷ cs) mem t)
      (chunk_glue-Glued ds kvmlist mem' (record {
        in_kernel = All-free_from InKernel addr (c ∷ cs) mem (λ d x. x) h.in_kernel;
        pairwise = Pairwise-free_from addr (c ∷ cs) mem h.pairwise;
        away = λ k b e v.
            All-free_from (AwayFrom (page_addr k)) addr (c ∷ cs) mem (λ d x. x) (h.away k b e v);
        numbered = h.numbered;
        bounded = h.bounded;
      }))

-- On a well-formed heap whose chunks end below the top of the address space kmfree never panics and
-- leaves a well-formed heap; if a used block holds the address, one such block is no longer used and
-- all other used blocks stay, and otherwise the used blocks are as they were.
pub kmfree-Kmfreed :
    (addr : ℕ) (s : Kmem) → IsHeap s → All BelowTop s.kmem_list → Kmfreed addr s (kmfree addr s)
kmfree-Kmfreed addr s h t = kmfree_on-Kmfreed addr s.kmem_list s.kvmlist s.mem h t
