-- ===== src/Mm/Kmalloc/Replace.antt =====
-- The writing over of one chunk (mm/kmalloc.c) by others that lie within it keeps the shape of the
-- list, and the place of a pointer in it.
use linda.Base.{
  ℕ, ◌+◌, ◌≤◌, ◌≡◌, refl, inl, inr, List, [], ◌∷◌, ◌++◌, Option, none, some, arith, false, ◌==◌,
  Bool-cases, ==_refl, ==_iff,
}
use linda.Mm.Kmalloc.{Chunk, kmem_used, kmem_free, chunks_from, replace}
use linda.Mm.Kmalloc.Extent.{
  All, Disjoint, Pairwise, used_blocks, Inserted, here, there, All-append, All-mono,
}

-- A predicate of all chunks holds of those from a pointer on.
pub All-chunks_from :
    (P : Chunk → Type 0) (block : Option ℕ) (cs : List Chunk)
    → All P cs
    → All P (chunks_from block cs)
unfolding chunks_from
All-chunks_from P none cs h = tt
All-chunks_from P (some a) [] h = tt
All-chunks_from P (some a) (c ∷ cs) h = elim (Bool-cases (c.addr == a)) [
  | inl y ↦ rw y h
  | inr n ↦ rw n (All-chunks_from P (some a) cs h.1)
]

-- What is written over a chunk lies within it.
abbrev pub Within : Chunk → Chunk → Type 0
Within b u = (b.addr ≤ u.addr) × (u.addr + u.size ≤ b.addr + b.size)

Disjoint-Within : (b u d : Chunk) → Within b u → Disjoint d b → Disjoint d u
Disjoint-Within b u d w h = omega arith

All-Disjoint-Within :
    (b u : Chunk) (cs : List Chunk) → Within b u → All (Disjoint b) cs → All (Disjoint u) cs
All-Disjoint-Within b u cs w h = All-mono cs (λ d x. omega arith) h

Pairwise-append :
    (new cs : List Chunk)
    → Pairwise new
    → Pairwise cs
    → All (λ u. All (Disjoint u) cs) new
    → Pairwise (new ++ cs)
Pairwise-append [] cs p q h = q
Pairwise-append (u ∷ new) cs p q h =
    (All-append (Disjoint u) new cs p.0 h.0, Pairwise-append new cs p.1 q h.1)

pub Inserted-cons :
    (x : ℕ × ℕ) (c : Chunk) (cs ds : List Chunk)
    → Inserted x (used_blocks cs) (used_blocks ds)
    → Inserted x (used_blocks (c ∷ cs)) (used_blocks (c ∷ ds))
Inserted-cons x c cs ds ih = elim (Bool-cases (c.status == kmem_used)) [
  | inl k ↦ rw (k, used_blocks) (there ih)
  | inr k ↦ rw (k, used_blocks) ih
]

module _ (a : ℕ) (b : Chunk) (rest new : List Chunk) where
  pub All-replace :
      (P : Chunk → Type 0) (cs : List Chunk)
      → chunks_from (some a) cs ≡ b ∷ rest
      → (P b → All P new)
      → All P cs
      → All P (replace a new cs)
  unfolding chunks_from replace
  All-replace P [] e f h = tt
  All-replace P (c ∷ cs) e f h = elim (Bool-cases (c.addr == a)) [
    | inl y ↦
        let same : c ∷ cs ≡ b ∷ rest = rw (y, ◌≡◌) at e in
        let head : c ≡ b = cc in rw y (All-append P new cs (f (rw head at h.0)) h.1)
    | inr n ↦ rw n (h.0, All-replace P cs (rw (n, ◌≡◌) at e) f h.1)
  ]

  pub Pairwise-replace :
      (cs : List Chunk)
      → chunks_from (some a) cs ≡ b ∷ rest
      → All (Within b) new
      → Pairwise new
      → Pairwise cs
      → Pairwise (replace a new cs)
  unfolding chunks_from replace
  Pairwise-replace [] e w p h = tt
  Pairwise-replace (c ∷ cs) e w p h = elim (Bool-cases (c.addr == a)) [
    | inl y ↦
        let same : c ∷ cs ≡ b ∷ rest = rw (y, ◌≡◌) at e in
        let head : c ≡ b = cc in
        rw y (
          Pairwise-append new cs p h.1
            (All-mono new (λ u x. All-Disjoint-Within b u cs x (rw head at h.0)) w))
    | inr n ↦
        let e' : chunks_from (some a) cs ≡ b ∷ rest = rw (n, ◌≡◌) at e in
        rw n (
          All-replace (Disjoint c) cs e' (λ d. All-mono new (λ u x. Disjoint-Within b u c x d) w)
              h.0,
          Pairwise-replace cs e' w p h.1,
        )
  ]

  -- A free chunk is written over by chunks of which one is used.
  pub used_blocks-replace :
      (cs : List Chunk) (x : ℕ × ℕ)
      → chunks_from (some a) cs ≡ b ∷ rest
      → b.status ≡ kmem_free
      → ((ds : List Chunk) → used_blocks (new ++ ds) ≡ x ∷ used_blocks ds)
      → Inserted x (used_blocks cs) (used_blocks (replace a new cs))
  unfolding chunks_from replace
  used_blocks-replace [] x e f u = cc
  used_blocks-replace (c ∷ cs) x e f u = elim (Bool-cases (c.addr == a)) [
    | inl y ↦
        let same : c ∷ cs ≡ b ∷ rest = rw (y, ◌≡◌) at e in
        let head : c ≡ b = cc in rw (y, u cs, head, f) here
    | inr n ↦
        let ih = used_blocks-replace cs x (rw (n, ◌≡◌) at e) f u in
        rw n (Inserted-cons x c cs (replace a new cs) ih)
  ]

Disjoint-addr : (c d : Chunk) → Disjoint c d → (c.addr == d.addr) ≡ false
Disjoint-addr c d h = ground arith

-- In a list of disjoint chunks the chunk after `b` is named by its own address.
pub chunks_from-next :
    (block : Option ℕ) (cs : List Chunk) (b n : Chunk) (rest : List Chunk)
    → Pairwise cs
    → chunks_from block cs ≡ b ∷ n ∷ rest
    → chunks_from (some n.addr) cs ≡ n ∷ rest
unfolding chunks_from
chunks_from-next none cs b n rest p e = cc
chunks_from-next (some a) [] b n rest p e = cc
chunks_from-next (some a) (c ∷ cs) b n rest p e = elim (Bool-cases (c.addr == a)) [
  | inl y ↦
      let same : c ∷ cs ≡ b ∷ n ∷ rest = rw (y, ◌≡◌) at e in
      let tail : cs ≡ n ∷ rest = cc in
      let apart : Disjoint c n = (rw tail at p.0).0 in
      let ne = Disjoint-addr c n apart in rw (ne, tail, ==_refl n.addr)
  | inr k ↦
      let e' : chunks_from (some a) cs ≡ b ∷ n ∷ rest = rw (k, ◌≡◌) at e in
      let apart : Disjoint c n = (rw e' at (All-chunks_from (Disjoint c) (some a) cs p.0)).1.0 in
      let ne = Disjoint-addr c n apart in rw ne (chunks_from-next (some a) cs b n rest p.1 e')
]

pub chunks_from-addr :
    (a : ℕ) (cs : List Chunk) (b : Chunk) (rest : List Chunk)
    → chunks_from (some a) cs ≡ b ∷ rest
    → b.addr ≡ a
unfolding chunks_from
chunks_from-addr a [] b rest e = cc
chunks_from-addr a (c ∷ cs) b rest e = elim (Bool-cases (c.addr == a)) [
  | inl y ↦
      let same : c ∷ cs ≡ b ∷ rest = rw (y, ◌≡◌) at e in
      let head : c ≡ b = cc in rw (← head) ((==_iff c.addr a).0 y)
  | inr k ↦ chunks_from-addr a cs b rest (rw (k, ◌≡◌) at e)
]

pub chunks_from-none : (cs : List Chunk) → chunks_from none cs ≡ []
unfolding chunks_from
chunks_from-none cs = refl
