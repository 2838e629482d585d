-- ===== src/Mm/Kmalloc/FirstFit.antt =====
-- Which block kmalloc (mm/kmalloc.c) takes from a heap that has a large enough one.
use linda.Base.{
  ℕ, zero, suc, ◌+◌, ◌≤◌, ◌<◌, ◌≡◌, refl, ◌≢◌, ◌⊎◌, List, [], ◌∷◌, ◌++◌, Option, none, some, arith,
  length, ◌==◌, leb, if◌then◌else◌, Outcome, ok, panic, ne→==, sym, subst, ◌∙◌, ==_refl,
}
use linda.Mm.Kmalloc.{
  Chunk, Kmem, header_size, kmem_free, kmem_used, with_status, chunks_from, replace, take_part,
  take_whole, kmalloc_visit, kmalloc_loop, kmalloc,
}
use linda.Mm.Kmalloc.Extent.{All, InKernel, IsHeap}
use linda.Mm.Kmalloc.Replace.{All-chunks_from, chunks_from-next}
use linda.Mm.Kmalloc.Take.{cut_off, chunk_split_lem}

-- A chunk that kmalloc passes by: used, or too small.
abbrev pub Passed : ℕ → Chunk → Type 0
Passed size c = (c.status ≢ kmem_free) ⊎ (c.size < size)

-- What is to become of the first chunk that is free and large enough.
unfoldable pub fit : ℕ → Chunk → Kmem → Outcome (ℕ × Kmem)
unfolding take_whole
fit size c s =
    if c.size == size
    then ok (take_whole c s)
    else if leb c.size (size + header_size)
    then panic
    else ok (
      c.addr,
      record s {
        kmem_list =
            replace c.addr (with_status (record c { size = size }) kmem_used ∷ cut_off c size ∷ [])
              s.kmem_list;
      },
    )

visit-fit :
    (size : ℕ) (block : Option ℕ) (s : Kmem) (c : Chunk) (rest : List Chunk)
    (loop : Option ℕ → Kmem → Outcome (ℕ × Kmem))
    → InKernel c
    → c.status ≡ kmem_free
    → size ≤ c.size
    → kmalloc_visit size block s (c ∷ rest) loop ≡ fit size c s
unfolding kmalloc_visit fit take_part
visit-fit size block s c rest loop i free le = ground (arith, chunk_split_lem c size i)

visit-next :
    (size : ℕ) (block : Option ℕ) (s : Kmem) (c d : Chunk) (rest : List Chunk)
    (loop : Option ℕ → Kmem → Outcome (ℕ × Kmem))
    → Passed size c
    → kmalloc_visit size block s (c ∷ d ∷ rest) loop ≡ loop (some d.addr) s
unfolding kmalloc_visit
visit-next size block s c d rest loop p = ground arith

kmalloc_loop-suc :
    (fuel size : ℕ) (block : Option ℕ) (s : Kmem)
    → kmalloc_loop (suc fuel) size block s
      ≡ kmalloc_visit size block s (chunks_from block s.kmem_list) (kmalloc_loop fuel size)
unfolding kmalloc_loop
kmalloc_loop-suc fuel size block s = refl

loop-fit :
    (pre : List Chunk) (fuel size : ℕ) (block : Option ℕ) (s : Kmem) (c : Chunk) (rest : List Chunk)
    → IsHeap s
    → chunks_from block s.kmem_list ≡ pre ++ c ∷ rest
    → All (Passed size) pre
    → c.status ≡ kmem_free
    → size ≤ c.size
    → length pre ≤ fuel
    → kmalloc_loop (suc fuel) size block s ≡ fit size c s
loop-fit [] fuel size block s c rest h e p free le f =
    rw (kmalloc_loop-suc, e)
      (visit-fit size block s c rest (kmalloc_loop fuel size)
        (rw e at (All-chunks_from InKernel block s.kmem_list h.in_kernel)).0 free le)
loop-fit (b ∷ pre) zero size block s c rest h e p free le f = absurd (omega arith)
loop-fit (b ∷ []) (suc fuel) size block s c rest h e p free le f =
    rw (kmalloc_loop-suc, e, visit-next size block s b c rest (kmalloc_loop (suc fuel) size) p.0)
      (loop-fit [] fuel size (some c.addr) s c rest h
        (chunks_from-next block s.kmem_list b c rest h.pairwise e) tt free le (omega arith))
loop-fit (b ∷ d ∷ pre) (suc fuel) size block s c rest h e p free le f =
    rw
      (
        kmalloc_loop-suc,
        e,
        visit-next size block s b d (pre ++ c ∷ rest) (kmalloc_loop (suc fuel) size) p.0,
      )
      (loop-fit (d ∷ pre) fuel size (some d.addr) s c rest h
        (chunks_from-next block s.kmem_list b d (pre ++ c ∷ rest) h.pairwise e) p.1 free le
        (omega arith))

kmalloc_cons :
    (fuel size : ℕ) (s : Kmem) (c : Chunk) (rest : List Chunk)
    → s.kmem_list ≡ c ∷ rest
    → (kmalloc fuel size s ≡ kmalloc_loop fuel size (some c.addr) s)
      × (chunks_from (some c.addr) s.kmem_list ≡ c ∷ rest)
unfolding kmalloc chunks_from
kmalloc_cons fuel size s c rest e = (
  subst
      (λ (l : List Chunk).
        kmalloc fuel size (record s { kmem_list = l })
        ≡ kmalloc_loop fuel size (some c.addr) (record s { kmem_list = l }))
      (sym e) refl,
  rw (e, chunks_from, ==_refl c.addr),
)

-- On a well-formed heap kmalloc takes the first chunk that is free and large enough, past chunks
-- that are used or too small, whole if it has just the size asked for, and cut down to that size if
-- more than a header is left. If a header or less is left, kmalloc panics instead.
pub kmalloc-fit :
    (pre : List Chunk) (fuel size : ℕ) (s : Kmem) (c : Chunk) (rest : List Chunk)
    → IsHeap s
    → s.kmem_list ≡ pre ++ c ∷ rest
    → All (Passed size) pre
    → c.status ≡ kmem_free
    → size ≤ c.size
    → length pre ≤ fuel
    → kmalloc (suc fuel) size s ≡ fit size c s
kmalloc-fit [] fuel size s c rest h e p free le f =
    let (a, b) = kmalloc_cons (suc fuel) size s c rest e in
    a ∙ loop-fit [] fuel size (some c.addr) s c rest h b p free le f
kmalloc-fit (d ∷ pre) fuel size s c rest h e p free le f =
    let (a, b) = kmalloc_cons (suc fuel) size s d (pre ++ c ∷ rest) e in
    a ∙ loop-fit (d ∷ pre) fuel size (some d.addr) s c rest h b p free le f

visit-last :
    (size : ℕ) (block : Option ℕ) (s : Kmem) (u : Chunk)
    (loop : Option ℕ → Kmem → Outcome (ℕ × Kmem))
    → u.status ≢ kmem_free
    → kmalloc_visit size block s (u ∷ []) loop ≡ loop none s
unfolding kmalloc_visit
visit-last size block s u loop used = rw (ne→== _ _ used)

loop_none : (fuel size : ℕ) (s : Kmem) → kmalloc_loop (suc fuel) size none s ≡ ok (0, s)
unfolding kmalloc_loop
loop_none fuel size s = refl

loop-null :
    (pre : List Chunk) (fuel size : ℕ) (block : Option ℕ) (s : Kmem) (u : Chunk)
    → IsHeap s
    → chunks_from block s.kmem_list ≡ pre ++ u ∷ []
    → All (Passed size) pre
    → u.status ≢ kmem_free
    → length pre < fuel
    → kmalloc_loop (suc fuel) size block s ≡ ok (0, s)
loop-null pre zero size block s u h e p used f = absurd (omega arith)
loop-null [] (suc fuel) size block s u h e p used f =
    rw (kmalloc_loop-suc, e, visit-last size block s u (kmalloc_loop (suc fuel) size) used)
      (loop_none fuel size s)
loop-null (b ∷ []) (suc fuel) size block s u h e p used f =
    rw (kmalloc_loop-suc, e, visit-next size block s b u [] (kmalloc_loop (suc fuel) size) p.0)
      (loop-null [] fuel size (some u.addr) s u h
        (chunks_from-next block s.kmem_list b u [] h.pairwise e) tt used (omega arith))
loop-null (b ∷ d ∷ pre) (suc fuel) size block s u h e p used f =
    rw
      (
        kmalloc_loop-suc,
        e,
        visit-next size block s b d (pre ++ u ∷ []) (kmalloc_loop (suc fuel) size) p.0,
      )
      (loop-null (d ∷ pre) fuel size (some d.addr) s u h
        (chunks_from-next block s.kmem_list b d (pre ++ u ∷ []) h.pairwise e) p.1 used
        (omega arith))

-- On a well-formed heap whose last chunk is used and whose other chunks are used or too small, kmalloc
-- answers NULL and changes nothing, however many pages kvm_alloc_page could still hand out.
kmalloc-null :
    (pre : List Chunk) (fuel size : ℕ) (s : Kmem) (u : Chunk)
    → IsHeap s
    → s.kmem_list ≡ pre ++ u ∷ []
    → All (Passed size) pre
    → u.status ≢ kmem_free
    → length pre < fuel
    → kmalloc (suc fuel) size s ≡ ok (0, s)
kmalloc-null [] fuel size s u h e p used f =
    let (a, b) = kmalloc_cons (suc fuel) size s u [] e in
    a ∙ loop-null [] fuel size (some u.addr) s u h b p used f
kmalloc-null (d ∷ pre) fuel size s u h e p used f =
    let (a, b) = kmalloc_cons (suc fuel) size s d (pre ++ u ∷ []) e in
    a ∙ loop-null (d ∷ pre) fuel size (some d.addr) s u h b p used f
