-- ===== src/Mm/Memory/Init.antt =====
-- phy_mem_init (mm/memory.c): the pages that it stores.
use linda.Base.{
  ℕ, zero, suc, ◌+◌, ◌-◌, ◌*◌, ◌/◌, ◌%◌, ◌^◌, ◌&&◌, ◌≤◌, ◌<◌, ◌≡◌, refl, Bool, true, false, List,
  [], ◌∷◌, ◌++◌, arith, dec_lt, ◌==◌, pos, ap, ◌∙◌, Outcome, ok, panic, hang, overrun,
}
use linda.Mach.{pgrounddown, pgroundup, pgsize, u32_mod, sub32, add32, extmem}
use linda.Mm.Memory.{
  MemMap, MmapEntry, phy_mem_free, free_range, phy_mem_init, find_extmem,
  multiboot_memory_available,
}
use native.Mathlib.Nat.{mod-eq_of_lt}
use linda.Mm.Memory.Stack.{free_pages, phy_mem_alloc-phy_mem_free}

-- `n` pages from `start` on, in order.
unfoldable pub pages : ℕ → ℕ → List ℕ
pages start zero = []
pages start (suc n) = start ∷ pages (start + pgsize) n

pages-snoc :
    (start n : ℕ) (xs : List ℕ)
    → pages start n ++ (start + n * pgsize) ∷ xs ≡ pages start (suc n) ++ xs
unfolding pages
pages-snoc start zero xs = ap (λ (a : ℕ). a ∷ xs) (omega arith)
pages-snoc start (suc n) xs = ap (◌∷◌ start) (
    ap (λ (a : ℕ). pages (start + pgsize) n ++ a ∷ xs) (omega arith)
    ∙ pages-snoc (start + pgsize) n xs)

-- `k` pages from `start` on lie on top of the free pages of `s`, and are counted.
abbrev pub Filled : ℕ → ℕ → ℕ → MemMap → Outcome MemMap → Type 0
Filled start k n s (ok s') =
    (free_pages s' ≡ pages start k ++ free_pages s)
    × (s'.page_count ≡ s.page_count + k)
    × (s'.header ≡ pos (n + k))
Filled start k n s _ = ⊥

-- One round of the loop.
abbrev freed : ℕ → MemMap → MemMap
freed addr s = let s' = phy_mem_free addr s in record s' { page_count = s'.page_count + 1 }

freed_lem :
    (addr n : ℕ) (s : MemMap)
    → s.header ≡ pos n
    → addr % pgsize ≡ 0
    → (free_pages (freed addr s) ≡ addr ∷ free_pages s)
      × ((freed addr s).page_count ≡ s.page_count + 1)
      × ((freed addr s).header ≡ pos (n + 1))
unfolding phy_mem_free free_pages pgrounddown
freed_lem addr n s h al =
    (ground (arith, phy_mem_alloc-phy_mem_free addr n s h), refl, ground arith)

free_range_go :
    (fuel start e : ℕ) (s : MemMap)
    → start ≤ e
    → free_range (suc fuel) start e s ≡ free_range fuel start (sub32 e pgsize) (freed e s)
unfolding free_range
free_range_go fuel start e s h = ground arith

free_range_stop :
    (fuel start e : ℕ) (s : MemMap) → e < start → free_range (suc fuel) start e s ≡ ok s
unfolding free_range
free_range_stop fuel start e s h = ground arith

Filled-step :
    (start k n : ℕ) (s : MemMap) (r : Outcome MemMap)
    → s.header ≡ pos n
    → start % pgsize ≡ 0
    → Filled start k (n + 1) (freed (start + k * pgsize) s) r
    → Filled start (suc k) n s r
Filled-step start k n s (ok s') h al (fp, pc, hd) =
    let (a, b, c) = freed_lem (start + k * pgsize) n s h (omega arith) in
    (fp ∙ rw a (pages-snoc start k (free_pages s)), omega (arith, pc, b), hd ∙ ap pos (omega arith))
Filled-step start k n s panic h al f = f
Filled-step start k n s hang h al f = f
Filled-step start k n s overrun h al f = f

Filled-nil :
    (start addr n : ℕ) (s : MemMap)
    → s.header ≡ pos n
    → addr % pgsize ≡ 0
    → Filled start 0 (n + 1) (freed addr s) (ok (freed addr s))
unfolding pages
Filled-nil start addr n s h al =
    (refl, omega arith, (freed_lem addr n s h al).2 ∙ ap pos (omega arith))

free_range-Filled :
    (k fuel start e n : ℕ) (s : MemMap)
    → s.header ≡ pos n
    → start % pgsize ≡ 0
    → pgsize ≤ start
    → e ≡ start + k * pgsize
    → e < u32_mod
    → k < fuel
    → Filled start (suc k) n s (free_range (suc fuel) start e s)
free_range-Filled zero zero start e n s h al lo eq hi f = absurd (omega arith)
free_range-Filled (suc k) zero start e n s h al lo eq hi f = absurd (omega arith)
free_range-Filled zero (suc fuel) start e n s h al lo eq hi f =
    rw
      (
        free_range_go (suc fuel) start e s (omega arith),
        free_range_stop fuel start (sub32 e pgsize) (freed e s) (omega arith),
        eq,
      )
      (Filled-step start 0 n s (ok (freed (start + 0 * pgsize) s)) h al
        (Filled-nil start (start + 0 * pgsize) n s h (omega arith)))
free_range-Filled (suc k) (suc fuel) start e n s h al lo eq hi f =
    rw (free_range_go (suc fuel) start e s (omega arith)) (
      Filled-step start (suc k) n s _ h al (
        rw eq (
          free_range-Filled k fuel start (sub32 (start + suc k * pgsize) pgsize) (n + 1)
            (freed (start + suc k * pgsize) s)
            (freed_lem (start + suc k * pgsize) n s h (omega arith)).2 al lo (omega arith)
            (omega arith) (omega arith))))

abbrev pub is_extmem : MmapEntry → Bool
is_extmem e = (e.type == multiboot_memory_available) && (e.addr_low == extmem)

abbrev pub range_of : ℕ → MmapEntry → ℕ × ℕ
range_of kern_size e = (add32 e.addr_low kern_size, add32 e.addr_low e.len_low)

module _ (mmap : ℕ → MmapEntry) (kern_size : ℕ) where
  find_extmem-none :
      (rounds i : ℕ) (range : ℕ × ℕ)
      → ((l : ℕ) → i ≤ l → l < i + rounds → is_extmem (mmap l) ≡ false)
      → find_extmem mmap kern_size rounds i range ≡ range
  unfolding find_extmem
  find_extmem-none zero i range no_l = refl
  find_extmem-none (suc rounds) i range no_l =
      rw (no_l i (omega arith) (omega arith))
        (find_extmem-none rounds (suc i) range λ l a b. no_l l (omega arith) (omega arith))

  find_extmem-last :
      (rounds i j : ℕ) (range : ℕ × ℕ)
      → i ≤ j
      → j < i + rounds
      → is_extmem (mmap j) ≡ true
      → ((l : ℕ) → j < l → l < i + rounds → is_extmem (mmap l) ≡ false)
      → find_extmem mmap kern_size rounds i range ≡ range_of kern_size (mmap j)
  unfolding find_extmem
  find_extmem-last zero i j range lo hi is no_l = absurd (omega arith)
  find_extmem-last (suc rounds) i j range lo hi is no_l = elim (dec_lt i j) [
    | yes lt ↦
        find_extmem-last rounds (suc i) j _ lt (omega arith) is λ l a b. no_l l a (omega arith)
    | no ge ↦
        let same : i ≡ j = omega arith in
        rw (same, is)
          (find_extmem-none rounds (suc j) (range_of kern_size (mmap j))
            λ l a b. no_l l a (omega arith))
  ]

is_extmem-addr_low : (e : MmapEntry) → is_extmem e ≡ true → e.addr_low ≡ extmem
is_extmem-addr_low e h = ground arith

-- Let entry `j` be the last one among those read that is available memory at EXTMEM, let the kernel
-- and the memory end within 32 bits and leave at least one page between them, and let n pages be
-- stored already. Then phy_mem_init ends, its free pages are the pages from the end of the kernel to
-- the end of the memory, the lowest handed out first, over those stored before, and page_count counts
-- them.
pub phy_mem_init-Filled :
    (fuel : ℕ) (mmap : ℕ → MmapEntry) (mmap_length kern_size j n : ℕ) (garbage : ℕ × ℕ) (s : MemMap)
    → s.header ≡ pos n
    → 2 ^ 20 ≤ fuel
    → j < mmap_length
    → is_extmem (mmap j) ≡ true
    → ((l : ℕ) → j < l → l < mmap_length → is_extmem (mmap l) ≡ false)
    → extmem + kern_size + pgsize ≤ u32_mod
    → extmem + (mmap j).len_low < u32_mod
    → pgroundup (extmem + kern_size) ≤ pgrounddown (extmem + (mmap j).len_low)
    → Filled
        (pgroundup (extmem + kern_size))
        (suc ((pgrounddown (extmem + (mmap j).len_low) - pgroundup (extmem + kern_size)) / pgsize))
        n
        s
        (phy_mem_init (suc fuel) mmap mmap_length kern_size garbage s)
unfolding phy_mem_init
phy_mem_init-Filled fuel mmap mmap_length kern_size j n garbage s h f lt is no_l a b c =
    let start = pgroundup (extmem + kern_size) in
    let e = pgrounddown (extmem + (mmap j).len_low) in
    let a' : extmem + kern_size < u32_mod = omega arith in
    rw
      (
        find_extmem-last mmap kern_size mmap_length 0 j garbage (omega arith) (omega arith) is
            (λ l x y. no_l l x (omega arith)),
        is_extmem-addr_low (mmap j) is,
        mod-eq_of_lt a',
        mod-eq_of_lt b,
      )
      (free_range-Filled ((e - start) / pgsize) fuel start e n s h (omega arith) (omega arith)
        (omega arith) (omega arith) (omega arith))
