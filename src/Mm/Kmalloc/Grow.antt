-- ===== src/Mm/Kmalloc/Grow.antt =====
-- New pages for the heap, and chunk_glue (mm/kmalloc.c): they keep it well formed.
use linda.Base.{
  ℕ, suc, ◌+◌, ◌-◌, ◌%◌, ◌≤◌, ◌≡◌, refl, List, [], ◌∷◌, ◌++◌, some, arith, true, length,
  length-append, ap, ◌∙◌, get_elem?, Outcome, ok, panic, hang, overrun, ◌>>=◌,
}
use linda.Mach.{u32_mod}
use linda.Mm.Vmmgr.{VmBlock, kvm_alloc_page}
use linda.Mm.Vmmgr.Table.{page_addr}
use linda.Mm.Vmmgr.Alloc.{
  available, available_count, AllocSpec, kvm_alloc_page_lem, Allocated-IsNumbered, Allocated-length,
  Allocated-page, Allocated-in, Allocated-available,
}
use linda.Mm.Kmalloc.{
  Chunk, Kmem, header_size, kmem_free, chunk_glue, glue_from, alloc_free_chunk_from_kvm,
  chunks_from, grow,
}
use linda.Mm.Kmalloc.Extent.{
  All, InKernel, Disjoint, AwayFrom, IsHeap, used_blocks, All-append, All-mono, Pairwise-snoc,
}
use linda.Mm.Kmalloc.Shape.{
  InKernel-glue_from, AwayFrom-glue_from, Pairwise-glue_from, used_blocks-glue_from,
  length-chunks_from-glue_from, length-chunks_from-snoc,
}

-- A page taken for the heap: a free chunk apart from all the others, and one available page less.
abbrev pub Fresh : Kmem → Outcome (Chunk × Kmem) → Type 0
Fresh s (ok (d, s')) =
    (s'.kmem_list ≡ s.kmem_list)
    × (d.status ≡ kmem_free)
    × (available_count s.kvmlist ≡ suc (available_count s'.kvmlist))
    × All (Disjoint d) s.kmem_list
    × IsHeap s'
    × InKernel d
    × ((k : ℕ) (b : VmBlock)
        → get_elem? s'.kvmlist k ≡ some b
        → available b ≡ true
        → AwayFrom (page_addr k) d)
Fresh s panic = available_count s.kvmlist ≡ 0
Fresh s hang = ⊥
Fresh s overrun = ⊥

page_chunk-Fresh :
    (s : Kmem) (r : Outcome (ℕ × List VmBlock))
    → IsHeap s
    → AllocSpec s.kvmlist r
    → Fresh s (
        r >>= λ (page, kvmlist). ok (
          record {
            addr = (page + header_size) % u32_mod;
            size = 4096 - header_size;
            status = kmem_free;
          },
          record s { kvmlist = kvmlist },
        ))
page_chunk-Fresh s (ok (page, kvmlist)) h a =
    let at : page ≡ page_addr a.index = Allocated-page a h.numbered in
    let lt = Allocated-in a in
    (
      refl,
      refl,
      a.fewer,
      All-mono s.kmem_list (λ d x. omega arith) (h.away a.index a.block a.was a.free),
      record {
        in_kernel = h.in_kernel;
        pairwise = h.pairwise;
        away = λ k b e v. h.away k b (Allocated-available a k b e v).1 v;
        numbered = Allocated-IsNumbered a h.numbered;
        bounded = omega (arith, Allocated-length a, h.bounded);
      },
      omega (arith, h.bounded),
      λ k b e v. let ne = (Allocated-available a k b e v).0 in omega (arith, h.bounded),
    )
page_chunk-Fresh s panic h a = a
page_chunk-Fresh s hang h a = a
page_chunk-Fresh s overrun h a = a

pub alloc_free_chunk_from_kvm-Fresh : (s : Kmem) → IsHeap s → Fresh s (alloc_free_chunk_from_kvm s)
unfolding alloc_free_chunk_from_kvm
alloc_free_chunk_from_kvm-Fresh s h =
    page_chunk-Fresh s (kvm_alloc_page s.kvmlist) h (kvm_alloc_page_lem s.kvmlist)

-- What grow may do: the used blocks stay, and a chunk that was the last is followed by one at most.
abbrev pub Grown : Kmem → Outcome Kmem → Type 0
Grown s (ok s') =
    IsHeap s'
    × (used_blocks s'.kmem_list ≡ used_blocks s.kmem_list)
    × (available_count s.kvmlist ≡ suc (available_count s'.kvmlist))
    × ((a : ℕ)
        → length (chunks_from (some a) s'.kmem_list)
          ≤ suc (length (chunks_from (some a) s.kmem_list)))
Grown s panic = available_count s.kvmlist ≡ 0
Grown s hang = ⊥
Grown s overrun = ⊥

used_blocks-snoc_free :
    (cs : List Chunk) (d : Chunk)
    → d.status ≡ kmem_free
    → used_blocks (cs ++ d ∷ []) ≡ used_blocks cs
used_blocks-snoc_free [] d f = rw (f, used_blocks)
used_blocks-snoc_free (c ∷ cs) d f = ground (arith, used_blocks-snoc_free cs d f)

-- What chunk_glue may do.
abbrev pub Glued : Kmem → Outcome Kmem → Type 0
Glued s (ok s') =
    IsHeap s'
    × (used_blocks s'.kmem_list ≡ used_blocks s.kmem_list)
    × (s'.kvmlist ≡ s.kvmlist)
    × ((a : ℕ)
        → length (chunks_from (some a) s'.kmem_list) ≤ length (chunks_from (some a) s.kmem_list))
Glued s panic = s.kmem_list ≡ []
Glued s hang = ⊥
Glued s overrun = ⊥

glue_from-Glued :
    (c : Chunk) (cs : List Chunk) (kvmlist : List VmBlock) (mem : ℕ → ℕ)
    → IsHeap (record { kmem_list = c ∷ cs; kvmlist = kvmlist; mem = mem })
    → Glued
        (record { kmem_list = c ∷ cs; kvmlist = kvmlist; mem = mem })
        (ok (record {
          kmem_list = (glue_from c cs mem).0;
          kvmlist = kvmlist;
          mem = (glue_from c cs mem).1;
        }))
glue_from-Glued c cs kvmlist mem h = (
  record {
    in_kernel = InKernel-glue_from c cs mem h.in_kernel h.pairwise;
    pairwise = Pairwise-glue_from c cs mem h.in_kernel h.pairwise;
    away = λ k b e v.
        AwayFrom-glue_from (page_addr k) c cs mem h.in_kernel h.pairwise (h.away k b e v);
    numbered = h.numbered;
    bounded = h.bounded;
  },
  used_blocks-glue_from c cs mem,
  refl,
  λ a. length-chunks_from-glue_from a c cs mem,
)

-- chunk_glue keeps the heap well formed and every used block.
pub chunk_glue-Glued :
    (cs : List Chunk) (kvmlist : List VmBlock) (mem : ℕ → ℕ)
    → IsHeap (record { kmem_list = cs; kvmlist = kvmlist; mem = mem })
    → Glued
        (record { kmem_list = cs; kvmlist = kvmlist; mem = mem })
        (chunk_glue (record { kmem_list = cs; kvmlist = kvmlist; mem = mem }))
unfolding chunk_glue
chunk_glue-Glued [] kvmlist mem h = refl
chunk_glue-Glued (c ∷ cs) kvmlist mem h = glue_from-Glued c cs kvmlist mem h

with_page-IsHeap :
    (s s' : Kmem) (d : Chunk)
    → Fresh s (ok (d, s'))
    → IsHeap (record s' { kmem_list = s'.kmem_list ++ d ∷ [] })
with_page-IsHeap s s' d (same, free, count, apart, h, i, away) = record {
  in_kernel = All-append InKernel s'.kmem_list (d ∷ []) h.in_kernel (i, tt);
  pairwise = Pairwise-snoc s'.kmem_list d h.pairwise (rw same apart);
  away = λ k b e v.
      All-append (AwayFrom (page_addr k)) s'.kmem_list (d ∷ []) (h.away k b e v) (away k b e v, tt);
  numbered = h.numbered;
  bounded = h.bounded;
}

Glued-Grown :
    (s s' : Kmem) (d : Chunk) (r : Outcome Kmem)
    → Fresh s (ok (d, s'))
    → Glued (record s' { kmem_list = s'.kmem_list ++ d ∷ [] }) r
    → Grown s r
Glued-Grown s s' d (ok t) (same, free, count, apart, h, i, away) (h', used, table, len) = (
  h',
  used ∙ rw same (used_blocks-snoc_free s.kmem_list d free),
  rw table count,
  λ a. let l = len a in omega (arith, rw same at l, length-chunks_from-snoc a s.kmem_list d),
)
Glued-Grown s s' d panic f g =
    absurd (omega (arith, ap length g, length-append s'.kmem_list (d ∷ [])))
Glued-Grown s s' d hang f g = g
Glued-Grown s s' d overrun f g = g

grow_from-Grown :
    (s : Kmem) (r : Outcome (Chunk × Kmem))
    → Fresh s r
    → Grown s (r >>= λ (next, s'). chunk_glue (record s' { kmem_list = s'.kmem_list ++ next ∷ [] }))
grow_from-Grown s (ok (d, s')) f =
    Glued-Grown s s' d (chunk_glue (record s' { kmem_list = s'.kmem_list ++ d ∷ [] })) f
      (chunk_glue-Glued (s'.kmem_list ++ d ∷ []) s'.kvmlist s'.mem (with_page-IsHeap s s' d f))
grow_from-Grown s panic f = f
grow_from-Grown s hang f = f
grow_from-Grown s overrun f = f

-- grow adds one page to a well-formed heap, keeps every used block and panics exactly if no page is
-- available.
pub grow-Grown : (s : Kmem) → IsHeap s → Grown s (grow s)
unfolding grow
grow-Grown s h =
    grow_from-Grown s (alloc_free_chunk_from_kvm s) (alloc_free_chunk_from_kvm-Fresh s h)
