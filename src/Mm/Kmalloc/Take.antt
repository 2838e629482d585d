-- ===== src/Mm/Kmalloc/Take.antt =====
-- The block that kmalloc (mm/kmalloc.c) takes from the list, whole or cut down to the size asked for.
use linda.Base.{
  ℕ, ◌+◌, ◌-◌, ◌<◌, ◌≡◌, refl, ◌⊎◌, inr, List, [], ◌∷◌, some, arith, if◌then◌else◌, leb, dec_lt,
  lt→not_leb, le→leb, Outcome, ok, panic, hang, overrun, ◌≢◌,
}
use linda.Mm.Vmmgr.Table.{page_addr}
use linda.Mm.Kmalloc.{
  Chunk, Kmem, header_size, kmem_used, kmem_free, chunk_split, chunks_from, replace, with_status,
  take_part, take_whole,
}
use linda.Mm.Kmalloc.Extent.{
  All, InKernel, AwayFrom, Pairwise, IsHeap, used_blocks, Inserted, All-mono,
}
use linda.Mm.Kmalloc.Replace.{
  used_blocks-replace, Pairwise-replace, All-replace, All-chunks_from, Within,
}

-- What kmalloc may answer: NULL with the used blocks as they were, or a block of the size asked for,
-- which is then one more used block; it may panic, and it ends.
abbrev pub Kmalloced : ℕ → Kmem → Outcome (ℕ × Kmem) → Type 0
Kmalloced size s (ok (p, s')) =
    IsHeap s'
    × (((p ≡ 0) × (used_blocks s'.kmem_list ≡ used_blocks s.kmem_list))
        ⊎ ((p ≢ 0) × Inserted (p, size) (used_blocks s.kmem_list) (used_blocks s'.kmem_list)))
Kmalloced size s panic = Unit
Kmalloced size s hang = ⊥
Kmalloced size s overrun = ⊥

replace-IsHeap :
    (s : Kmem) (block : ℕ) (b : Chunk) (rest new : List Chunk)
    → IsHeap s
    → chunks_from (some block) s.kmem_list ≡ b ∷ rest
    → All (Within b) new
    → Pairwise new
    → All InKernel new
    → IsHeap (record s { kmem_list = replace block new s.kmem_list })
replace-IsHeap s block b rest new h e w p i = record {
  in_kernel = All-replace block b rest new InKernel s.kmem_list e (λ _. i) h.in_kernel;
  pairwise = Pairwise-replace block b rest new s.kmem_list e w p h.pairwise;
  away = λ k c f v.
      All-replace block b rest new (AwayFrom (page_addr k)) s.kmem_list e
        (λ x. All-mono new (λ u y. omega arith) w) (h.away k c f v);
  numbered = h.numbered;
  bounded = h.bounded;
}

-- chunk_split without its wrap-around, on a chunk of the heap.
abbrev pub cut_off : Chunk → ℕ → Chunk
cut_off b size = record {
  addr = b.addr + size + header_size;
  size = b.size - size - header_size;
  status = kmem_free;
}

pub chunk_split_lem :
    (b : Chunk) (size : ℕ)
    → InKernel b
    → size < b.size
    → b.status ≡ kmem_free
    → chunk_split b size ≡ (
        if leb b.size (size + header_size)
        then panic
        else ok (record b { size = size }, cut_off b size))
unfolding chunk_split
chunk_split_lem b size i lt free = ground arith

module _ (size : ℕ) (s : Kmem) (b : Chunk) (rest : List Chunk) (h : IsHeap s)
    (e : chunks_from (some b.addr) s.kmem_list ≡ b ∷ rest) (free : b.status ≡ kmem_free) where
  found-InKernel : InKernel b
  found-InKernel = (rw e at (All-chunks_from InKernel (some b.addr) s.kmem_list h.in_kernel)).0

  pub take_whole-Kmalloced : b.size ≡ size → Kmalloced size s (ok (take_whole b s))
  unfolding take_whole
  take_whole-Kmalloced fits = (
    replace-IsHeap s b.addr b rest (with_status b kmem_used ∷ []) h e (omega arith) (tt, tt)
        (found-InKernel, tt),
    inr (
      omega (arith, found-InKernel),
      used_blocks-replace b.addr b rest (with_status b kmem_used ∷ []) s.kmem_list (b.addr, size) e
          free (λ ds. rw fits),
    ),
  )

  split-Kmalloced :
      size + header_size < b.size
      → Kmalloced size s (
          ok (
            b.addr,
            record s {
              kmem_list =
                  replace b.addr
                    (with_status (record b { size = size }) kmem_used ∷ cut_off b size ∷ [])
                    s.kmem_list;
            },
          ))
  split-Kmalloced fits =
      let i = found-InKernel in
      (
        replace-IsHeap s b.addr b rest
            (with_status (record b { size = size }) kmem_used ∷ cut_off b size ∷ []) h e
            (omega arith) (omega arith) (omega arith),
        inr (
          omega arith,
          used_blocks-replace b.addr b rest
              (with_status (record b { size = size }) kmem_used ∷ cut_off b size ∷ []) s.kmem_list
              (b.addr, size) e free (λ ds. refl),
        ),
      )

  pub take_part-Kmalloced : size < b.size → Kmalloced size s (take_part b size s)
  unfolding take_part
  take_part-Kmalloced fits =
      rw (chunk_split_lem b size found-InKernel fits free)
        (elim (dec_lt (size + header_size) b.size) [
          | yes lt ↦ rw (lt→not_leb (size + header_size) b.size lt) (split-Kmalloced lt)
          | no ge ↦ rw (le→leb b.size (size + header_size) (omega arith)) tt
        ])
