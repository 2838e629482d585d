-- ===== src/Mm/Kmalloc/Shape.antt =====
-- chunk_glue (mm/kmalloc.c) keeps the shape of the list of chunks: what the merged chunks take up,
-- which blocks are used, and where the pointers lead.
use linda.Base.{
  ℕ, suc, ◌+◌, ◌≤◌, ◌≡◌, refl, inl, inr, List, [], ◌∷◌, ◌++◌, some, arith, true, length,
  length-append, ◌==◌, Bool-cases, if◌then◌else◌,
}
use linda.Mm.Kmalloc.{Chunk, header_size, kmem_free, glued, can_glue, glue_from, chunks_from}
use linda.Mm.Kmalloc.Extent.{All, InKernel, Disjoint, AwayFrom, Pairwise, used_blocks}

-- Two chunks in the kernel that chunk_glue merges are neighbours, and the merged one takes up their
-- bytes.
glued_lem :
    (c d : Chunk)
    → InKernel c
    → InKernel d
    → can_glue c d ≡ true
    → Disjoint c d
    → (d.addr ≡ c.addr + c.size + header_size)
      × ((glued c d).size ≡ c.size + d.size + header_size)
      × (c.status ≡ kmem_free)
      × (d.status ≡ kmem_free)
glued_lem c d i j h x = ground arith

length-glue_from :
    (c : Chunk) (cs : List Chunk) (mem : ℕ → ℕ) → length (glue_from c cs mem).0 ≤ length (c ∷ cs)
unfolding glue_from
length-glue_from c [] mem = omega arith
length-glue_from c (d ∷ cs) mem = ground (arith, length-glue_from d cs mem)

-- A predicate on places that two neighbours pass on to the chunk made of them.
module _ (P : Chunk → Type 0)
    (join : (c d : Chunk)
      → d.addr ≡ c.addr + c.size + header_size
      → (glued c d).size ≡ c.size + d.size + header_size
      → P c
      → P d
      → P (glued c d)) where
  pub All-glue_from :
      (c : Chunk) (cs : List Chunk) (mem : ℕ → ℕ)
      → All InKernel (c ∷ cs)
      → Pairwise (c ∷ cs)
      → All P (c ∷ cs)
      → All P (glue_from c cs mem).0
  unfolding glue_from
  All-glue_from c [] mem i p h = h
  All-glue_from c (d ∷ cs) mem i p h = elim (Bool-cases (can_glue c d)) [
    | inl g ↦
        let (a, b, _, _) = glued_lem c d i.0 i.1.0 g p.0.0 in rw g (join c d a b h.0 h.1.0, h.1.1)
    | inr g ↦ rw g (h.0, All-glue_from d cs mem i.1 p.1 h.1)
  ]

pub InKernel-glue_from :
    (c : Chunk) (cs : List Chunk) (mem : ℕ → ℕ)
    → All InKernel (c ∷ cs)
    → Pairwise (c ∷ cs)
    → All InKernel (glue_from c cs mem).0
InKernel-glue_from c cs mem i p = All-glue_from InKernel (λ c d a b h k. omega arith) c cs mem i p i

pub AwayFrom-glue_from :
    (q : ℕ) (c : Chunk) (cs : List Chunk) (mem : ℕ → ℕ)
    → All InKernel (c ∷ cs)
    → Pairwise (c ∷ cs)
    → All (AwayFrom q) (c ∷ cs)
    → All (AwayFrom q) (glue_from c cs mem).0
AwayFrom-glue_from q c cs mem i p h =
    All-glue_from (AwayFrom q) (λ c d a b h k. omega arith) c cs mem i p h

Disjoint-glue_from :
    (e c : Chunk) (cs : List Chunk) (mem : ℕ → ℕ)
    → All InKernel (c ∷ cs)
    → Pairwise (c ∷ cs)
    → All (Disjoint e) (c ∷ cs)
    → All (Disjoint e) (glue_from c cs mem).0
Disjoint-glue_from e c cs mem i p h =
    All-glue_from (Disjoint e) (λ c d a b h k. omega arith) c cs mem i p h

All-Disjoint-glued :
    (c d : Chunk) (cs : List Chunk)
    → d.addr ≡ c.addr + c.size + header_size
    → (glued c d).size ≡ c.size + d.size + header_size
    → All (Disjoint c) cs
    → All (Disjoint d) cs
    → All (Disjoint (glued c d)) cs
All-Disjoint-glued c d [] a b h k = tt
All-Disjoint-glued c d (e ∷ cs) a b h k =
    (omega (arith, h.0, k.0), All-Disjoint-glued c d cs a b h.1 k.1)

pub Pairwise-glue_from :
    (c : Chunk) (cs : List Chunk) (mem : ℕ → ℕ)
    → All InKernel (c ∷ cs)
    → Pairwise (c ∷ cs)
    → Pairwise (glue_from c cs mem).0
unfolding glue_from
Pairwise-glue_from c [] mem i p = p
Pairwise-glue_from c (d ∷ cs) mem i p = elim (Bool-cases (can_glue c d)) [
  | inl g ↦
      let (a, b, _, _) = glued_lem c d i.0 i.1.0 g p.0.0 in
      rw g (All-Disjoint-glued c d cs a b p.0.1 p.1.0, p.1.1)
  | inr g ↦ rw g (Disjoint-glue_from c d cs mem i.1 p.1 p.0, Pairwise-glue_from d cs mem i.1 p.1)
]

-- chunk_glue merges free chunks only.
pub used_blocks-glue_from :
    (c : Chunk) (cs : List Chunk) (mem : ℕ → ℕ)
    → used_blocks (glue_from c cs mem).0 ≡ used_blocks (c ∷ cs)
unfolding glue_from
used_blocks-glue_from c [] mem = refl
used_blocks-glue_from c (d ∷ cs) mem = ground (arith, used_blocks-glue_from d cs mem)

length-chunks_from_cons :
    (a : ℕ) (c : Chunk) (cs : List Chunk)
    → length (chunks_from (some a) (c ∷ cs))
      ≡ (if c.addr == a then suc (length cs) else length (chunks_from (some a) cs))
unfolding chunks_from
length-chunks_from_cons a c cs = ground arith

pub length-chunks_from-le : (a : ℕ) (cs : List Chunk) → length (chunks_from (some a) cs) ≤ length cs
unfolding chunks_from
length-chunks_from-le a [] = omega arith
length-chunks_from-le a (c ∷ cs) =
    ground (arith, length-chunks_from_cons a c cs, length-chunks_from-le a cs)

pub length-chunks_from-glue_from :
    (a : ℕ) (c : Chunk) (cs : List Chunk) (mem : ℕ → ℕ)
    → length (chunks_from (some a) (glue_from c cs mem).0) ≤ length (chunks_from (some a) (c ∷ cs))
unfolding glue_from
length-chunks_from-glue_from a c [] mem = omega arith
length-chunks_from-glue_from a c (d ∷ cs) mem = elim (Bool-cases (can_glue c d)) [
  | inl g ↦ rw g (
      ground (
        arith,
        length-chunks_from_cons a (glued c d) cs,
        length-chunks_from_cons a c (d ∷ cs),
        length-chunks_from_cons a d cs,
        length-chunks_from-le a cs,
      ))
  | inr g ↦ rw g (
      ground (
        arith,
        length-chunks_from_cons a c (glue_from d cs mem).0,
        length-chunks_from_cons a c (d ∷ cs),
        length-chunks_from-glue_from a d cs mem,
        length-glue_from d cs mem,
      ))
]

pub length-chunks_from-snoc :
    (a : ℕ) (cs : List Chunk) (d : Chunk)
    → length (chunks_from (some a) (cs ++ d ∷ [])) ≤ suc (length (chunks_from (some a) cs))
unfolding chunks_from
length-chunks_from-snoc a [] d = ground arith
length-chunks_from-snoc a (c ∷ cs) d = ground (
  arith,
  length-chunks_from-snoc a cs d,
  length-append cs (d ∷ []),
  length-chunks_from_cons a c (cs ++ d ∷ []),
  length-chunks_from_cons a c cs,
)
