-- ===== src/Mm/Kmalloc/Tests.antt =====
-- Runs of the heap on two pages, and its theorems at concrete heaps.
use linda.Base.{
  ℕ, zero, suc, ◌≡◌, refl, true, List, [], ◌∷◌, some, arith, ok, panic, ◌>>=◌, get_elem?,
}
use linda.Mm.Vmmgr.{VmBlock, kvm_alloc_page}
use linda.Mm.Vmmgr.Table.{page_addr}
use linda.Mm.Vmmgr.Alloc.{available, available_count}
use linda.Mm.Kmalloc.{Chunk, Kmem, grow, take_part, take_whole, kmalloc, kmfree}
use linda.Mm.Kmalloc.Extent.{All, AwayFrom, IsHeap, used_blocks}
use linda.Mm.Kmalloc.Alloc.{kmalloc-Kmalloced}
use linda.Mm.Kmalloc.Take.{Kmalloced}
use linda.Mm.Kmalloc.FirstFit.{fit, kmalloc-fit}
use linda.Mm.Kmalloc.Free.{Kmfreed, kmfree-Kmfreed}

abbrev table : List VmBlock
table =
    record { address = 0xC000_0000; status = 3 } ∷ record { address = 0xC000_1000; status = 2 } ∷ []

abbrev used : ℕ → ℕ → Chunk
used addr size = record { addr = addr; size = size; status = 0 }

abbrev free : ℕ → ℕ → Chunk
free addr size = record { addr = addr; size = size; status = 1 }

-- One used block of 100 bytes, and the rest of the first page.
abbrev two_chunks : List Chunk
two_chunks = used 0xC000_0010 100 ∷ free 0xC000_0084 3964 ∷ []

abbrev heap : List Chunk → Kmem
heap chunks = record { kmem_list = chunks; kvmlist = table; mem = λ _. 0 }

away_lem :
    (cs : List Chunk)
    → All (AwayFrom 0xC000_1000) cs
    → (k : ℕ) (b : VmBlock) → get_elem? table k ≡ some b
    → available b ≡ true
    → All (AwayFrom (page_addr k)) cs
away_lem cs h zero b e v = absurd (ground arith)
away_lem cs h (suc zero) b e v = h
away_lem cs h (suc (suc k)) b e v = cc

heap-IsHeap : IsHeap (heap two_chunks)
heap-IsHeap = record {
  in_kernel = omega arith;
  pairwise = omega arith;
  away = away_lem two_chunks (omega arith);
  numbered = omega arith;
  bounded = omega arith;
}

kmalloc_run :
    ◌>>=◌ {B = ℕ × ℕ × List (ℕ × ℕ)} (kmalloc 9 8 (heap [])) (λ (p, s).
      ◌>>=◌ {B = ℕ × ℕ × List (ℕ × ℕ)} (kmalloc 9 16 s) (λ (q, t).
        ◌>>=◌ {B = ℕ × ℕ × List (ℕ × ℕ)} (kmfree p t) (λ u. ok (p, q, used_blocks u.kmem_list))))
    ≡ ok (0xC000_1010, 0xC000_1028, (0xC000_1028, 16) ∷ [])
unfolding kmalloc kmfree kvm_alloc_page take_part take_whole grow
kmalloc_run = refl

-- A request for 3960 of 3964 bytes leaves too little for a header.
kmalloc_panics : kmalloc 9 3960 (heap two_chunks) ≡ panic
unfolding kmalloc take_part
kmalloc_panics = refl

kmalloc-Kmalloced_example : Kmalloced 200 (heap two_chunks) (kmalloc 9 200 (heap two_chunks))
unfolding available_count
kmalloc-Kmalloced_example = kmalloc-Kmalloced 9 200 (heap two_chunks) heap-IsHeap (omega arith)

kmalloc-fit_example :
    kmalloc 3 200 (heap two_chunks) ≡ fit 200 (free 0xC000_0084 3964) (heap two_chunks)
kmalloc-fit_example =
    kmalloc-fit (used 0xC000_0010 100 ∷ []) 2 200 (heap two_chunks) (free 0xC000_0084 3964) []
      heap-IsHeap refl (ground arith, tt) refl (omega arith) (omega arith)

-- The whole first page as one used block.
abbrev full : List Chunk
full = used 0xC000_0010 4080 ∷ []

full-IsHeap : IsHeap (heap full)
full-IsHeap = record {
  in_kernel = omega arith;
  pairwise = omega arith;
  away = away_lem full (omega arith);
  numbered = omega arith;
  bounded = omega arith;
}

kmfree-Kmfreed_example :
    Kmfreed 0xC000_0020 (heap two_chunks) (kmfree 0xC000_0020 (heap two_chunks))
kmfree-Kmfreed_example = kmfree-Kmfreed 0xC000_0020 (heap two_chunks) heap-IsHeap (omega arith)
