-- ===== src/Mm/Kmap/Translate.antt =====
-- The processor's walk of the directory that the first loop of kmap_init (mm/mmap.c) leaves.
use linda.Base.{
  inl, inr, dec_lt, ℕ, ◌+◌, ◌-◌, ◌*◌, ◌%◌, ◌≤◌, ◌<◌, ◌≡◌, ◌⊎◌, refl, ap, ◌∙◌, Option, none, some,
  arith, ltb, leb, if◌then◌else◌, eq→==, ne→==,
}
use linda.Mach.{pgsize, kernbase, u32_mod, pdx, ptx}
use linda.Mm.Mmap.{mem_normal}
use linda.Mm.Mmap.Walk.{IsDir, frame, walk, translate}
use linda.Mm.Kmap.Directory.{nmapped, IsPlaced, Linear}

-- The physical address of a kernel address.
abbrev pub linear : ℕ → Option ℕ
linear va =
    if leb kernbase va
    then if ltb va (kernbase + mem_normal) then some (va - kernbase) else none
    else none

module _ (kpgdir kpgtbl : ℕ) (mem mem' : ℕ → ℕ) (p : IsPlaced kpgdir kpgtbl)
    (l : Linear kpgdir kpgtbl nmapped mem mem') where
  walk_absent : (d t o : ℕ) → d < 1024 → (d < 768) ⊎ (992 ≤ d) → walk kpgdir d t o mem' ≡ none
  unfolding walk
  walk_absent d t o k out =
      let e : mem' (kpgdir + 4 * d) ≡ 0 = l.dir d k ∙ ground arith in
      rw (eq→== (mem' (kpgdir + 4 * d) % 2) 0 (omega arith)) refl

  walk_present :
      (d t o : ℕ)
      → 768 ≤ d
      → d < 992
      → t < 1024
      → walk kpgdir d t o mem' ≡ some (((d - 768) * 1024 + t) * pgsize + o)
  unfolding walk
  walk_present d t o k k' h =
      let a = p.above in
      let b = p.tbl_aligned in
      let e : mem' (kpgdir + 4 * d) ≡ kpgtbl + pgsize * d - kernbase + 3 =
        l.dir d (omega arith) ∙ ground arith in
      let at : frame (mem' (kpgdir + 4 * d)) + kernbase + 4 * t
          ≡ kpgtbl + 768 * pgsize + 4 * ((d - 768) * 1024 + t) =
        omega arith in
      let f : mem' (frame (mem' (kpgdir + 4 * d)) + kernbase + 4 * t)
          ≡ ((d - 768) * 1024 + t) * pgsize + 3 =
        ap mem' at ∙ l.table ((d - 768) * 1024 + t) (omega arith) in
      rw
        (
          ne→== (mem' (kpgdir + 4 * d) % 2) 0 (λ z. omega arith),
          ne→== (mem' (frame (mem' (kpgdir + 4 * d)) + kernbase + 4 * t) % 2) 0 (λ z. omega arith),
        )
        (ap some (omega arith))

  -- The processor reads the kernel's directory as the linear map of the first 896 MB.
  pub translate-linear : (va : ℕ) → va < u32_mod → translate kpgdir va mem' ≡ linear va
  unfolding translate pdx ptx
  translate-linear va h = elim (dec_lt va kernbase) [
    | yes k ↦ walk_absent _ _ _ (omega arith) (inl (omega arith)) ∙ ground arith
    | no n ↦ elim (dec_lt va (kernbase + mem_normal)) [
      | yes k ↦ walk_present _ _ _ (omega arith) (omega arith) (omega arith) ∙ ground arith
      | no m ↦ walk_absent _ _ _ (omega arith) (inr (omega arith)) ∙ ground arith
    ]
  ]

  table_frame :
      (d : ℕ)
      → d < 1024
      → frame (mem' (kpgdir + 4 * d))
        ≡ (if leb 768 d then if ltb d 992 then kpgtbl + pgsize * d - kernbase else 0 else 0)
  table_frame d h = let e = l.dir d h in let a = p.tbl_aligned in let b = p.above in ground arith

  -- The kernel's directory is in the form on which mmap_do_map relies.
  pub Linear-IsDir : IsDir kpgdir mem'
  Linear-IsDir = record {
    aligned = p.dir_aligned;
    present =
        λ d h n. let e = l.dir d h in let a = p.tbl_aligned in let b = p.above in ground (arith, n);
    absent =
        λ d h z. let e = l.dir d h in let a = p.tbl_aligned in let b = p.above in ground (arith, z);
    low = λ d h. let e = table_frame d h in let a = p.below in let b = p.above in ground arith;
    other = λ d h z.
        let e = table_frame d h in
        let a = p.apart in let b = p.above in let n = p.not_first in ground (arith, z);
    apart = λ d c h k n same.
        let e = table_frame d h in
        let e' = table_frame c k in let b = p.above in ground (arith, n, same);
  }
