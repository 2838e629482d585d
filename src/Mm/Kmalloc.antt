-- ===== src/Mm/Kmalloc.antt =====
-- mm/kmalloc.c: the kernel heap, a list of chunks.
-- `kmem_list` is the linked list in the order of its `next` pointers. A chunk stands for its header
-- of 16 bytes (sizeof(struct kmem_chunk)), which always lies just below `addr`, and a pointer to a
-- chunk is that `addr`, or `none` for NULL. `mem` is the memory behind the headers. `kvmlist` is the
-- table of mm/vmmgr.c, from which the heap takes pages.
pub mod Extent
pub mod Shape
pub mod Replace
pub mod Grow
pub mod Take
pub mod Alloc
pub mod FirstFit
pub mod Free
mod Tests
use linda.Base.{
  ℕ, zero, suc, ◌+◌, ◌-◌, Bool, true, false, not, ◌&&◌, List, [], ◌∷◌, ◌++◌, Option, none, some,
  Outcome, ok, panic, hang, ◌>>=◌, ltb, leb, ◌==◌, if◌then◌else◌,
}
use linda.Mach.{pgsize, add32, sub32}
use linda.Mm.Vmmgr.{VmBlock, kvm_alloc_page}

pub record Chunk : Type 0 where
  pub addr : ℕ
  pub size : ℕ
  pub status : ℕ

abbrev pub kmem_used : ℕ
kmem_used = 0

abbrev pub kmem_free : ℕ
kmem_free = 1

abbrev pub header_size : ℕ
header_size = 16

pub record Kmem : Type 0 where
  pub kmem_list : List Chunk
  pub kvmlist : List VmBlock
  pub mem : ℕ → ℕ

-- `memset(addr, 0, size)`
abbrev pub clear : ℕ → ℕ → (ℕ → ℕ) → ℕ → ℕ
clear addr size mem a = if leb addr a && ltb a (addr + size) then 0 else mem a

-- The shortened chunk and the chunk that is cut off its end.
unfoldable pub chunk_split : Chunk → ℕ → Outcome (Chunk × Chunk)
chunk_split chunk size =
    if leb chunk.size (add32 size header_size)
    then panic
    else if chunk.status == kmem_free
    then ok (
      record chunk { size = size },
      record {
        addr = add32 (add32 chunk.addr size) header_size;
        size = sub32 (sub32 chunk.size size) header_size;
        status = kmem_free;
      },
    )
    else panic

abbrev pub can_glue : Chunk → Chunk → Bool
can_glue chunk next =
    (chunk.status == kmem_free)
    && (next.status == kmem_free)
    && (sub32 next.addr chunk.addr == add32 chunk.size header_size)

abbrev pub glued : Chunk → Chunk → Chunk
glued chunk next = record chunk { size = add32 (add32 chunk.size next.size) header_size }

-- The loop of chunk_glue from `chunk` on. After two chunks are merged, the memset has also cleared
-- the header of the second, and the loop goes on from there: it reads NULL for `next` and ends.
unfoldable pub glue_from : Chunk → List Chunk → (ℕ → ℕ) → List Chunk × (ℕ → ℕ)
glue_from chunk [] mem = (chunk ∷ [], mem)
glue_from chunk (next ∷ rest) mem =
    let tail = glue_from next rest mem in
    if can_glue chunk next
    then (glued chunk next ∷ rest, clear chunk.addr (glued chunk next).size mem)
    else (chunk ∷ tail.0, tail.1)

unfoldable pub chunk_glue : Kmem → Outcome Kmem
unfolding glue_from
chunk_glue s = elim s.kmem_list [
  | [] ↦ panic
  | chunk ∷ rest ↦ ok (record s {
    kmem_list = (glue_from chunk rest s.mem).0;
    mem = (glue_from chunk rest s.mem).1;
  })
]

-- A whole page as one free chunk. (kvm_alloc_page never returns NULL: it panics.)
unfoldable pub alloc_free_chunk_from_kvm : Kmem → Outcome (Chunk × Kmem)
alloc_free_chunk_from_kvm s = kvm_alloc_page s.kvmlist >>= λ (page, kvmlist). ok (
  record { addr = add32 page header_size; size = pgsize - header_size; status = kmem_free },
  record s { kvmlist = kvmlist },
)

-- The list from the chunk that a pointer names on. It is empty for NULL, and for a chunk that has
-- been merged away: its header is cleared, so it reads as a used chunk with no `next`.
unfoldable pub chunks_from : Option ℕ → List Chunk → List Chunk
chunks_from none chunks = []
chunks_from (some a) [] = []
chunks_from (some a) (c ∷ chunks) =
    let rest = chunks_from (some a) chunks in if c.addr == a then c ∷ chunks else rest

-- `block->next`
abbrev pub first : List Chunk → Option ℕ
first [] = none
first (c ∷ _) = some c.addr

abbrev pub is_last : List Chunk → Bool
is_last [] = true
is_last (_ ∷ _) = false

-- The chunk at `a` is written over by the chunks `new`.
unfoldable pub replace : ℕ → List Chunk → List Chunk → List Chunk
replace a new [] = []
replace a new (c ∷ chunks) =
    let rest = replace a new chunks in if c.addr == a then new ++ chunks else c ∷ rest

abbrev pub with_status : Chunk → ℕ → Chunk
with_status c status = record c { status = status }

-- A new page at the end of the list, then chunk_glue.
unfoldable pub grow : Kmem → Outcome Kmem
unfolding alloc_free_chunk_from_kvm chunk_glue
grow s = alloc_free_chunk_from_kvm s >>= λ (next, s').
    chunk_glue (record s' { kmem_list = s'.kmem_list ++ next ∷ [] })

-- The larger block is split, and its first part handed out.
unfoldable pub take_part : Chunk → ℕ → Kmem → Outcome (ℕ × Kmem)
unfolding chunk_split replace
take_part block size s = chunk_split block size >>= λ (chunk, split). ok (
  chunk.addr,
  record s {
    kmem_list = replace block.addr (with_status chunk kmem_used ∷ split ∷ []) s.kmem_list;
  },
)

unfoldable pub take_whole : Chunk → Kmem → ℕ × Kmem
unfolding replace
take_whole block s = (
  block.addr,
  record s { kmem_list = replace block.addr (with_status block kmem_used ∷ []) s.kmem_list },
)

-- One round of kmalloc's loop at `block`, whose chunks are given; `loop` is the rounds that follow.
-- `goto alloc_routine` comes back to the same `block`.
unfoldable pub kmalloc_visit :
    ℕ → Option ℕ → Kmem → List Chunk → (Option ℕ → Kmem → Outcome (ℕ × Kmem)) → Outcome (ℕ × Kmem)
kmalloc_visit size block s [] loop = ok (0, s)
kmalloc_visit size block s (b ∷ rest) loop =
    if b.status == kmem_free
    then if ltb size b.size
      then take_part b size s
      else if b.size == size
      then ok (take_whole b s)
      else if is_last rest
      then grow s >>= loop block
      else loop (first rest) s
    else loop (first rest) s

-- The loop of kmalloc from `block` on.
unfoldable pub kmalloc_loop : ℕ → ℕ → Option ℕ → Kmem → Outcome (ℕ × Kmem)
unfolding chunks_from kmalloc_visit
kmalloc_loop zero size block s = hang
kmalloc_loop (suc fuel) size block s =
    kmalloc_visit size block s (chunks_from block s.kmem_list) (kmalloc_loop fuel size)

unfoldable pub kmalloc : ℕ → ℕ → Kmem → Outcome (ℕ × Kmem)
unfolding kmalloc_loop alloc_free_chunk_from_kvm
kmalloc fuel size s = elim s.kmem_list [
  | [] ↦ alloc_free_chunk_from_kvm s >>= λ (chunk, s').
      kmalloc_loop fuel size (some chunk.addr) (record s' { kmem_list = chunk ∷ [] })
  | chunk ∷ _ ↦ kmalloc_loop fuel size (some chunk.addr) s
]

-- `chunk->addr <= addr && chunk->addr + chunk->size > addr`, of a used chunk
abbrev pub holds : ℕ → Chunk → Bool
holds addr c = (c.status == kmem_used) && leb c.addr addr && ltb addr (add32 c.addr c.size)

-- The loop of kmfree: the first used chunk that holds the address is freed and cleared.
unfoldable pub free_from : ℕ → List Chunk → (ℕ → ℕ) → List Chunk × (ℕ → ℕ)
free_from addr [] mem = ([], mem)
free_from addr (c ∷ chunks) mem =
    let rest = free_from addr chunks mem in
    if holds addr c
    then (with_status c kmem_free ∷ chunks, clear c.addr c.size mem)
    else (c ∷ rest.0, rest.1)

unfoldable pub kmfree : ℕ → Kmem → Outcome Kmem
unfolding free_from chunk_glue
kmfree addr s =
    let s' = record s {
      kmem_list = (free_from addr s.kmem_list s.mem).0;
      mem = (free_from addr s.kmem_list s.mem).1;
    } in
    if is_last s.kmem_list then ok s else chunk_glue s'
