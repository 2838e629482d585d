-- ===== src/Mm/Mmap/Leftover.antt =====
-- The pages that kmap_init (mm/mmap.c) leaves on the stack of free physical pages.
use linda.Base.{
  ℕ, zero, suc, ◌+◌, ◌≤◌, ◌<◌, ◌≡◌, refl, sym, ap, ◌∙◌, subst, List, [], ◌∷◌, ◌++◌, arith,
  if◌then◌else◌, leb, length, Outcome, ok, hang, ◌>>=◌, ℤ, pos, negsuc, le→not_ltb, lt→ltb, le→leb,
}
use linda.Mach.{pgrounddown}
use linda.Mm.Memory.{MemMap, phy_mem_alloc, phy_mem_free}
use linda.Mm.Memory.Stack.{
  free_pages, phy_mem_alloc_lem, phy_mem_alloc_exhausted, phy_mem_alloc-phy_mem_free,
}
use linda.Mm.Mmap.{mem_normal, pop_mapped, keep_unmapped}

-- All the pages lie below MEM_NORMAL.
abbrev pub Mapped : List ℕ → Type 0
Mapped [] = Unit
Mapped (p ∷ ps) = (p < mem_normal) × Mapped ps

pop_step :
    (fuel phy_addr : ℕ) (s : MemMap)
    → phy_addr < mem_normal
    → pop_mapped (suc fuel) phy_addr s ≡ pop_mapped fuel (phy_mem_alloc s).0 (phy_mem_alloc s).1
unfolding pop_mapped
pop_step fuel phy_addr s h = rw (lt→ltb phy_addr mem_normal h) refl

pop_stop :
    (fuel phy_addr : ℕ) (s : MemMap)
    → mem_normal ≤ phy_addr
    → pop_mapped (suc fuel) phy_addr s ≡ ok (phy_addr, s)
unfolding pop_mapped
pop_stop fuel phy_addr s h = rw (le→not_ltb phy_addr mem_normal h) refl

-- A stack that holds a page has a header above 0.
pops :
    (n : ℕ) (s : MemMap) (p : ℕ) (ps : List ℕ)
    → s.header ≡ pos n
    → free_pages s ≡ p ∷ ps
    → (m : ℕ) × ((phy_mem_alloc s).1.header ≡ pos m)
      × ((phy_mem_alloc s).0 ≡ p)
      × (free_pages (phy_mem_alloc s).1 ≡ ps)
unfolding free_pages
pops zero s p ps h e = let (nil, _, _) = phy_mem_alloc_exhausted s h in absurd (cc (nil, e))
pops (suc n) s p ps h e = let (a, b) = phy_mem_alloc_lem n s h in (n, b, cc (a, e), cc (a, e))

pop_mapped_lem :
    (below : List ℕ) (page : ℕ) (rest : List ℕ) (n fuel phy_addr : ℕ) (s : MemMap)
    → s.header ≡ pos n
    → free_pages s ≡ below ++ page ∷ rest
    → Mapped below
    → mem_normal ≤ page
    → phy_addr < mem_normal
    → length below + 1 < fuel
    → (m : ℕ) × ((s' : MemMap) × (pop_mapped fuel phy_addr s ≡ ok (page, s'))
        × (s'.header ≡ pos m)
        × (free_pages s' ≡ rest))
pop_mapped_lem below page rest n zero phy_addr s h e b g l k = absurd (omega arith)
pop_mapped_lem [] page rest n (suc zero) phy_addr s h e b g l k = absurd (omega arith)
pop_mapped_lem [] page rest n (suc (suc fuel)) phy_addr s h e b g l k =
    let (m, hm, top, left) = pops n s page rest h e in
    (
      m,
      (
        (phy_mem_alloc s).1,
        pop_step (suc fuel) phy_addr s l
            ∙ ap (λ (x : ℕ). pop_mapped (suc fuel) x (phy_mem_alloc s).1) top
            ∙ pop_stop fuel page (phy_mem_alloc s).1 g,
        hm,
        left,
      ),
    )
pop_mapped_lem (q ∷ below) page rest n (suc fuel) phy_addr s h e (b, bs) g l k =
    let (m, hm, top, left) = pops n s q (below ++ page ∷ rest) h e in
    let (m', (s', r, hs, fs)) =
      pop_mapped_lem below page rest m fuel (phy_mem_alloc s).0 (phy_mem_alloc s).1 hm left bs g
        (omega (arith, b, top)) (omega (arith, k)) in
    (m', (s', pop_step fuel phy_addr s l ∙ r, hs, fs))

-- If the pages on top of the stack lie below MEM_NORMAL down to a page above it, kmap_init pops exactly
-- them: the stack that it leaves has that page on top and the pages that were below it. Two rounds more
-- than there are such pages are enough.
pub keep_unmapped_lem :
    (below : List ℕ) (page : ℕ) (rest : List ℕ) (n fuel : ℕ) (s : MemMap)
    → s.header ≡ pos n
    → free_pages s ≡ below ++ page ∷ rest
    → Mapped below
    → mem_normal ≤ page
    → length below + 1 < fuel
    → (s' : MemMap) × (keep_unmapped fuel s ≡ ok s') × (free_pages s' ≡ pgrounddown page ∷ rest)
unfolding keep_unmapped
keep_unmapped_lem below page rest n fuel s h e b g k =
    let (m, (s', r, hm, left)) =
      pop_mapped_lem below page rest n fuel 0 s h e b g (omega arith) k in
    let (pushed, _, _, _) = phy_mem_alloc-phy_mem_free page m s' hm in
    (
      phy_mem_free page s',
      ap
            (λ (o : Outcome (ℕ × MemMap)). o >>= λ (phy_addr, t).
              ok (if leb mem_normal phy_addr then phy_mem_free phy_addr t else t))
            r
          ∙ rw (le→leb mem_normal page g) refl,
      pushed ∙ ap (◌∷◌ (pgrounddown page)) left,
    )

-- No slot of the array that the header can still reach holds a page above MEM_NORMAL.
abbrev pub NoneAbove : MemMap → ℤ → Type 0
NoneAbove s (pos n) = (i : ℕ) → i ≤ n → s.free_list (pos i) < mem_normal
NoneAbove s (negsuc n) = Unit

alloc_none : (n : ℕ) (s : MemMap) → s.header ≡ negsuc n → phy_mem_alloc s ≡ (0, s)
unfolding phy_mem_alloc
alloc_none n s e = rw e (ground arith)

alloc_last :
    (s : MemMap)
    → s.header ≡ pos 0
    → phy_mem_alloc s ≡ (s.free_list (pos 0), record s { header = negsuc 0 })
unfolding phy_mem_alloc
alloc_last s e = rw e refl

alloc_some :
    (n : ℕ) (s : MemMap)
    → s.header ≡ pos (suc n)
    → phy_mem_alloc s ≡ (s.free_list (pos (suc n)), record s { header = pos n })
unfolding phy_mem_alloc
alloc_some n s e = rw e (ground arith)

-- The page that phy_mem_alloc gives is mapped, and none above MEM_NORMAL is left.
abbrev Low : ℕ × MemMap → Type 0
Low (page, s) = (page < mem_normal) × NoneAbove s s.header

NoneAbove-alloc :
    (s : MemMap) (header : ℤ) → s.header ≡ header → NoneAbove s header → Low (phy_mem_alloc s)
NoneAbove-alloc s (negsuc n) e a =
    subst Low (sym (alloc_none n s e)) (omega arith, subst (NoneAbove s) (sym e) tt)
NoneAbove-alloc s (pos zero) e a = subst Low (sym (alloc_last s e)) (a 0 (omega arith), tt)
NoneAbove-alloc s (pos (suc n)) e a =
    subst Low (sym (alloc_some n s e)) (a (suc n) (omega arith), λ i h. a i (omega (arith, h)))

pop_mapped-hang :
    (fuel phy_addr : ℕ) (s : MemMap)
    → NoneAbove s s.header
    → phy_addr < mem_normal
    → pop_mapped fuel phy_addr s ≡ hang
unfolding pop_mapped
pop_mapped-hang zero phy_addr s a h = refl
pop_mapped-hang (suc fuel) phy_addr s a h =
    let (l, b) = NoneAbove-alloc s s.header refl a in
    pop_step fuel phy_addr s h ∙ pop_mapped-hang fuel (phy_mem_alloc s).0 (phy_mem_alloc s).1 b l

-- If no slot of the array up to the header holds a page at or above MEM_NORMAL, 896 MB, kmap_init never
-- leaves its second loop, whatever the number of rounds: once the stack is empty phy_mem_alloc gives NULL,
-- which lies below MEM_NORMAL.
pub keep_unmapped-hang :
    (fuel : ℕ) (s : MemMap) → NoneAbove s s.header → keep_unmapped fuel s ≡ hang
unfolding keep_unmapped
keep_unmapped-hang fuel s a =
    ap
      (λ (o : Outcome (ℕ × MemMap)).
        o >>= λ (phy_addr, t). ok (if leb mem_normal phy_addr then phy_mem_free phy_addr t else t))
      (pop_mapped-hang fuel 0 s a (omega arith))
