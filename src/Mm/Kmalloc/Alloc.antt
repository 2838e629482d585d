-- ===== src/Mm/Kmalloc/Alloc.antt =====
-- kmalloc (mm/kmalloc.c): the heap stays well formed, and the block handed out is new.
use linda.Base.{
  ℕ, zero, suc, ◌+◌, ◌*◌, ◌≤◌, ◌<◌, ◌≡◌, refl, inl, List, [], ◌∷◌, Option, none, some, arith,
  length, ap, subst, sym, if◌then◌else◌, dec_lt, ℕ_discrete, lt→ltb, le→not_ltb, eq→==, ne→==,
  Outcome, ok, panic, hang, overrun, ◌>>=◌,
}
use linda.Mm.Vmmgr.{VmBlock}
use linda.Mm.Vmmgr.Alloc.{available_count}
use linda.Mm.Kmalloc.{
  Chunk, Kmem, kmem_free, alloc_free_chunk_from_kvm, chunks_from, first, is_last, grow,
  kmalloc_visit, kmalloc_loop, kmalloc,
}
use linda.Mm.Kmalloc.Extent.{IsHeap, used_blocks}
use linda.Mm.Kmalloc.Grow.{Fresh, Grown, grow-Grown, alloc_free_chunk_from_kvm-Fresh}
use linda.Mm.Kmalloc.Shape.{length-chunks_from-le}
use linda.Mm.Kmalloc.Replace.{chunks_from-next, chunks_from-addr, chunks_from-none}
use linda.Mm.Kmalloc.Take.{Kmalloced, take_whole-Kmalloced, take_part-Kmalloced}

unused_blocks_lem :
    (size : ℕ) (s s' : Kmem) (r : Outcome (ℕ × Kmem))
    → used_blocks s'.kmem_list ≡ used_blocks s.kmem_list
    → Kmalloced size s' r
    → Kmalloced size s r
unused_blocks_lem size s s' (ok (p, t)) same (h, k) = (h, rw (← same) k)
unused_blocks_lem size s s' panic same k = k
unused_blocks_lem size s s' hang same k = k
unused_blocks_lem size s s' overrun same k = k

-- After grow the loop goes on, with fuel for the list and for the pages that are left.
again-Kmalloced :
    (size block fuel : ℕ) (s : Kmem) (r : Outcome Kmem) (k : Kmem → Outcome (ℕ × Kmem))
    → length (chunks_from (some block) s.kmem_list) ≡ 1
    → 1 + 2 * available_count s.kvmlist ≤ fuel
    → Grown s r
    → ((s' : Kmem)
        → IsHeap s'
        → length (chunks_from (some block) s'.kmem_list) + 2 * available_count s'.kvmlist < fuel
        → Kmalloced size s' (k s'))
    → Kmalloced size s (r >>= k)
again-Kmalloced size block fuel s (ok s') k len f (h, same, fewer, l) ih =
    unused_blocks_lem size s s' (k s') same (ih s' h (omega (arith, l block)))
again-Kmalloced size block fuel s panic k len f g ih = tt
again-Kmalloced size block fuel s hang k len f g ih = g
again-Kmalloced size block fuel s overrun k len f g ih = g

-- The rounds that follow meet the specification wherever the fuel is enough.
abbrev LoopSpec : ℕ → ℕ → (Option ℕ → Kmem → Outcome (ℕ × Kmem)) → Type 0
LoopSpec fuel size loop =
    (block : Option ℕ) (s : Kmem)
    → IsHeap s
    → length (chunks_from block s.kmem_list) + 2 * available_count s.kvmlist < fuel
    → Kmalloced size s (loop block s)

next-Kmalloced :
    (fuel size : ℕ) (block : Option ℕ) (s : Kmem) (b : Chunk) (rest : List Chunk)
    (loop : Option ℕ → Kmem → Outcome (ℕ × Kmem))
    → IsHeap s
    → chunks_from block s.kmem_list ≡ b ∷ rest
    → length (b ∷ rest) + 2 * available_count s.kvmlist ≤ fuel
    → LoopSpec fuel size loop
    → Kmalloced size s (loop (first rest) s)
unfolding chunks_from
next-Kmalloced fuel size block s b [] loop h e f ih = ih none s h (omega arith)
next-Kmalloced fuel size block s b (n ∷ rest) loop h e f ih =
    ih (some n.addr) s h
      (rw (chunks_from-next block s.kmem_list b n rest h.pairwise e) (omega arith))

-- The last round but for a larger heap.
grow_or_next :
    (fuel size a : ℕ) (s : Kmem) (b : Chunk) (rest : List Chunk)
    (loop : Option ℕ → Kmem → Outcome (ℕ × Kmem))
    → IsHeap s
    → chunks_from (some a) s.kmem_list ≡ b ∷ rest
    → length (b ∷ rest) + 2 * available_count s.kvmlist ≤ fuel
    → LoopSpec fuel size loop
    → Kmalloced size s (if is_last rest then grow s >>= loop (some a) else loop (first rest) s)
grow_or_next fuel size a s b [] loop h e f ih =
    again-Kmalloced size a fuel s (grow s) (loop (some a)) (ap length e) (omega arith)
      (grow-Grown s h) (ih (some a))
grow_or_next fuel size a s b (n ∷ rest) loop h e f ih =
    next-Kmalloced fuel size (some a) s b (n ∷ rest) loop h e f ih

visit-Kmalloced :
    (fuel size : ℕ) (block : Option ℕ) (s : Kmem) (chunks : List Chunk)
    (loop : Option ℕ → Kmem → Outcome (ℕ × Kmem))
    → IsHeap s
    → chunks_from block s.kmem_list ≡ chunks
    → length chunks + 2 * available_count s.kvmlist ≤ fuel
    → LoopSpec fuel size loop
    → Kmalloced size s (kmalloc_visit size block s chunks loop)
unfolding kmalloc_visit
visit-Kmalloced fuel size block s [] loop h e f ih = (h, inl (refl, refl))
visit-Kmalloced fuel size none s (b ∷ rest) loop h e f ih = cc (chunks_from-none s.kmem_list)
visit-Kmalloced fuel size (some a) s (b ∷ rest) loop h e f ih =
    let next = next-Kmalloced fuel size (some a) s b rest loop h e f ih in
    let at : chunks_from (some b.addr) s.kmem_list ≡ b ∷ rest =
      subst (λ (t : ℕ). chunks_from (some t) s.kmem_list ≡ b ∷ rest)
        (sym (chunks_from-addr a s.kmem_list b rest e)) e in
    elim (ℕ_discrete b.status kmem_free) [
      | yes free ↦ elim (dec_lt size b.size) [
        | yes lt ↦
            rw (eq→== _ _ free, lt→ltb _ _ lt) (take_part-Kmalloced size s b rest h at free lt)
        | no ge ↦ elim (ℕ_discrete b.size size) [
          | yes fits ↦
              rw (eq→== _ _ free, le→not_ltb size b.size (omega arith), eq→== _ _ fits)
                (take_whole-Kmalloced size s b rest h at free fits)
          | no small ↦
              rw (eq→== _ _ free, le→not_ltb size b.size (omega arith), ne→== _ _ small)
                (grow_or_next fuel size a s b rest loop h e f ih)
        ]
      ]
      | no used ↦ rw (ne→== _ _ used) next
    ]

kmalloc_loop-Kmalloced : (fuel size : ℕ) → LoopSpec fuel size (kmalloc_loop fuel size)
unfolding kmalloc_loop
kmalloc_loop-Kmalloced zero size block s h f = absurd (omega arith)
kmalloc_loop-Kmalloced (suc fuel) size block s h f =
    visit-Kmalloced fuel size block s (chunks_from block s.kmem_list) (kmalloc_loop fuel size) h
      refl (omega arith) (kmalloc_loop-Kmalloced fuel size)

first_page-Kmalloced :
    (fuel size : ℕ) (s : Kmem) (r : Outcome (Chunk × Kmem))
    → s.kmem_list ≡ []
    → 2 * available_count s.kvmlist + 1 < fuel
    → Fresh s r
    → Kmalloced size s (
        r >>= λ (chunk, s').
        kmalloc_loop fuel size (some chunk.addr) (record s' { kmem_list = chunk ∷ [] }))
first_page-Kmalloced fuel size s (ok (d, s')) nil f (same, free, count, apart, h, i, away) =
    unused_blocks_lem size s (record s' { kmem_list = d ∷ [] }) _ (rw (nil, free, used_blocks))
      (kmalloc_loop-Kmalloced fuel size (some d.addr) (record s' { kmem_list = d ∷ [] })
        (record {
          in_kernel = (i, tt);
          pairwise = (tt, tt);
          away = λ k b e v. (away k b e v, tt);
          numbered = h.numbered;
          bounded = h.bounded;
        })
        (omega (arith, length-chunks_from-le d.addr (d ∷ []))))
first_page-Kmalloced fuel size s panic nil f g = tt
first_page-Kmalloced fuel size s hang nil f g = g
first_page-Kmalloced fuel size s overrun nil f g = g

kmalloc_on-Kmalloced :
    (fuel size : ℕ) (cs : List Chunk) (kvmlist : List VmBlock) (mem : ℕ → ℕ)
    → IsHeap (record { kmem_list = cs; kvmlist = kvmlist; mem = mem })
    → length cs + 2 * available_count kvmlist + 1 < fuel
    → Kmalloced size
        (record { kmem_list = cs; kvmlist = kvmlist; mem = mem })
        (kmalloc fuel size (record { kmem_list = cs; kvmlist = kvmlist; mem = mem }))
unfolding kmalloc
kmalloc_on-Kmalloced fuel size [] kvmlist mem h f =
    let s : Kmem = record { kmem_list = []; kvmlist = kvmlist; mem = mem } in
    first_page-Kmalloced fuel size s (alloc_free_chunk_from_kvm s) refl (omega arith)
      (alloc_free_chunk_from_kvm-Fresh s h)
kmalloc_on-Kmalloced fuel size (c ∷ cs) kvmlist mem h f =
    kmalloc_loop-Kmalloced fuel size (some c.addr)
      (record { kmem_list = c ∷ cs; kvmlist = kvmlist; mem = mem }) h
      (omega (arith, length-chunks_from-le c.addr (c ∷ cs)))

-- On a well-formed heap kmalloc ends, with two rounds of fuel for each available page and one for
-- each chunk. If it does not panic, the heap is well formed again, and either it answers NULL and
-- the used blocks are as they were, or it answers the address of a block that is now used, has
-- exactly the size asked for, and stands beside all blocks that were used before; no two chunks
-- overlap, so neither does the new block with any of those.
pub kmalloc-Kmalloced :
    (fuel size : ℕ) (s : Kmem)
    → IsHeap s
    → length s.kmem_list + 2 * available_count s.kvmlist + 1 < fuel
    → Kmalloced size s (kmalloc fuel size s)
kmalloc-Kmalloced fuel size s h f = kmalloc_on-Kmalloced fuel size s.kmem_list s.kvmlist s.mem h f
