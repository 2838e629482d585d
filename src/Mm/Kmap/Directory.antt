-- ===== src/Mm/Kmap/Directory.antt =====
-- The linear map that the first loop of kmap_init (mm/mmap.c) builds, against the processor's walk.
use linda.Base.{
  fun_ext, ap₂, ℕ, suc, ◌+◌, ◌-◌, ◌*◌, ◌/◌, ◌%◌, ◌≤◌, ◌<◌, ◌≡◌, ◌≢◌, ◌⊎◌, refl, sym, ap, ◌∙◌, arith,
  false, ◌==◌, ltb, leb, if◌then◌else◌, eq→==, ne→==, ℕ_discrete,
}
use linda.Mach.{pgsize, kernbase, u32_mod, pdx, ptx, p2v, v2p, pgrounddown}
use linda.Mm.Mmap.{write_word, entry, table_of}
use linda.Mm.Mmap.Walk.{read_other, read_same}
use linda.Mm.Kmap.{static_table, map_entry}

-- The number of the pages below MEM_NORMAL.
abbrev pub nmapped : ℕ
nmapped = 0x3_8000

-- Where the linker puts the two arrays: in pages of the kernel, apart from each other.
pub record IsPlaced (kpgdir kpgtbl : ℕ) : Type 0 where
  pub dir_aligned : kpgdir % pgsize ≡ 0
  pub tbl_aligned : kpgtbl % pgsize ≡ 0
  pub not_first : kpgdir ≢ kernbase
  pub above : kernbase ≤ kpgtbl
  pub below : kpgtbl + 1024 * pgsize ≤ u32_mod
  pub apart : (kpgdir + pgsize ≤ kpgtbl) ⊎ (kpgtbl + 1024 * pgsize ≤ kpgdir)

-- The directory's entry `d` once the first `i` pages are mapped.
abbrev pub dir_entry : ℕ → ℕ → ℕ → ℕ
dir_entry kpgtbl i d =
    if leb 768 d
    then if ltb ((d - 768) * 1024) i then kpgtbl + pgsize * d - kernbase + 3 else 0
    else 0

-- The first `i` pages are mapped, and outside the arrays the memory is still `mem`.
pub record Linear (kpgdir kpgtbl i : ℕ) (mem mem' : ℕ → ℕ) : Type 0 where
  pub dir : (d : ℕ) → d < 1024 → mem' (kpgdir + 4 * d) ≡ dir_entry kpgtbl i d
  pub table : (j : ℕ) → j < i → mem' (kpgtbl + 768 * pgsize + 4 * j) ≡ j * pgsize + 3
  pub kept :
      (a : ℕ)
      → (a < kpgdir) ⊎ (kpgdir + pgsize ≤ a)
      → (a < kpgtbl) ⊎ (kpgtbl + 1024 * pgsize ≤ a)
      → mem' a ≡ mem a

indices :
    (i : ℕ)
    → i < nmapped
    → (pdx (p2v (i * pgsize)) ≡ 768 + i / 1024) × (ptx (p2v (i * pgsize)) ≡ i % 1024)
unfolding pdx ptx p2v
indices i h = (omega arith, omega arith)

table_of-rounddown :
    (mmap va : ℕ) (mem : ℕ → ℕ) → table_of mmap va mem ≡ pgrounddown (mem (mmap + 4 * pdx va))
unfolding table_of
table_of-rounddown mmap va mem = refl

module _ (kpgdir kpgtbl i : ℕ) (mem mem' : ℕ → ℕ) (p : IsPlaced kpgdir kpgtbl) (h : i < nmapped)
    (l : Linear kpgdir kpgtbl i mem mem') where
  -- The entry that page `i` needs.
  abbrev with_dir : ℕ → ℕ
  with_dir =
      write_word (kpgdir + 4 * (768 + i / 1024)) (kpgtbl + pgsize * (768 + i / 1024) - kernbase + 3)
        mem'

  with_dir_lem :
      (a : ℕ)
      → with_dir a ≡ (
          if a == kpgdir + 4 * (768 + i / 1024)
          then dir_entry kpgtbl (suc i) (768 + i / 1024)
          else mem' a)
  with_dir_lem a = ground arith

  table_here :
      table_of kpgdir (p2v (i * pgsize)) mem' ≡ pgrounddown (dir_entry kpgtbl i (768 + i / 1024))
  table_here =
      table_of-rounddown kpgdir (p2v (i * pgsize)) mem'
      ∙ ap (λ (d : ℕ). pgrounddown (mem' (kpgdir + 4 * d))) (indices i h).0
      ∙ ap pgrounddown (l.dir (768 + i / 1024) (omega arith))

  dir_value :
      dir_entry kpgtbl (suc i) (768 + i / 1024)
      ≡ entry (v2p (kpgtbl + pgsize * (768 + i / 1024))) false
  unfolding entry v2p pgrounddown
  dir_value = let a = p.tbl_aligned in let b = p.above in let c = p.below in ground arith

  -- The first page of a table finds no entry, and the others find the one that is there.
  entry_none : i % 1024 ≡ 0 → table_of kpgdir (p2v (i * pgsize)) mem' ≡ 0
  unfolding pgrounddown
  entry_none z = table_here ∙ ground arith

  entry_some :
      i % 1024 ≢ 0
      → table_of kpgdir (p2v (i * pgsize)) mem' ≡ kpgtbl + pgsize * (768 + i / 1024) - kernbase
  unfolding pgrounddown
  entry_some n = table_here ∙ (let a = p.tbl_aligned in let b = p.above in ground arith)

  with_dir_same : i % 1024 ≢ 0 → (a : ℕ) → mem' a ≡ with_dir a
  with_dir_same n a = elim (ℕ_discrete a (kpgdir + 4 * (768 + i / 1024))) [
    | yes e ↦ rw e (l.dir (768 + i / 1024) (omega arith) ∙ ground arith)
    | no d ↦ rw (ne→== _ _ d) refl
  ]

  table_there : i % 1024 ≢ 0 → table_of kpgdir (p2v (i * pgsize)) mem' ≢ 0
  table_there n e = let a = p.above in let b = entry_some n in omega arith

  table_addr :
      p2v (kpgtbl + pgsize * (768 + i / 1024) - kernbase) ≡ kpgtbl + pgsize * (768 + i / 1024)
  unfolding p2v
  table_addr = let a = p.above in let b = p.below in omega arith

  static_table_lem :
      static_table kpgdir kpgtbl (p2v (i * pgsize)) mem'
      ≡ (kpgtbl + pgsize * (768 + i / 1024), with_dir)
  unfolding static_table
  static_table_lem = elim (ℕ_discrete (i % 1024) 0) [
    | yes z ↦
        rw (eq→== _ _ (entry_none z), (indices i h).0, sym dir_value)
          (ap
            (λ (v : ℕ). (
              kpgtbl + pgsize * (768 + i / 1024),
              write_word (kpgdir + 4 * (768 + i / 1024)) v mem',
            ))
            (ground arith))
    | no n ↦
        rw (ne→== (table_of kpgdir (p2v (i * pgsize)) mem') 0 (λ e. table_there n e), entry_some n)
          (ap₂ (λ (x : ℕ) (f : ℕ → ℕ). (x, f)) table_addr (fun_ext (with_dir_same n)))
  ]

  map_entry_lem :
      map_entry kpgdir kpgtbl (i * pgsize) mem'
      ≡ write_word (kpgtbl + 768 * pgsize + 4 * i) (i * pgsize + 3) with_dir
  unfolding map_entry entry pgrounddown
  map_entry_lem =
      rw (static_table_lem, (indices i h).1)
        (ap₂ (λ (x y : ℕ). write_word x y with_dir) (omega arith) (omega arith))

  dir_apart : (d j : ℕ) → d < 1024 → j < nmapped → kpgdir + 4 * d ≢ kpgtbl + 768 * pgsize + 4 * j
  dir_apart d j k k' e = let a = p.apart in omega arith

  dir_now :
      (d : ℕ)
      → d < 1024
      → (if kpgdir + 4 * d == kpgdir + 4 * (768 + i / 1024)
          then dir_entry kpgtbl (suc i) (768 + i / 1024)
          else mem' (kpgdir + 4 * d))
        ≡ dir_entry kpgtbl (suc i) d
  dir_now d k = elim (ℕ_discrete d (768 + i / 1024)) [
    | yes e ↦ rw (e, eq→== (kpgdir + 4 * (768 + i / 1024)) _ refl) refl
    | no n ↦
        rw (ne→== (kpgdir + 4 * d) (kpgdir + 4 * (768 + i / 1024)) (λ e. n (omega arith)))
          (l.dir d k ∙ ground arith)
  ]

  table_now :
      (j : ℕ)
      → j < suc i
      → write_word
          (kpgtbl + 768 * pgsize + 4 * i)
          (i * pgsize + 3)
          with_dir
          (kpgtbl + 768 * pgsize + 4 * j)
        ≡ j * pgsize + 3
  table_now j k = elim (ℕ_discrete j i) [
    | yes e ↦ rw e (read_same (kpgtbl + 768 * pgsize + 4 * i) (i * pgsize + 3) with_dir)
    | no n ↦
        read_other (i * pgsize + 3) with_dir (λ e. n (omega arith))
        ∙ read_other (kpgtbl + pgsize * (768 + i / 1024) - kernbase + 3) mem'
            (λ e. dir_apart (768 + i / 1024) j (omega arith) (omega arith) (sym e))
        ∙ l.table j (omega arith)
  ]

  -- The round for page `i`.
  pub Linear-suc : Linear kpgdir kpgtbl (suc i) mem (map_entry kpgdir kpgtbl (i * pgsize) mem')
  Linear-suc = rw map_entry_lem (record {
    dir = λ d k.
        read_other (i * pgsize + 3) with_dir (λ e. absurd (dir_apart d i k h e))
        ∙ with_dir_lem (kpgdir + 4 * d)
        ∙ dir_now d k;
    table = λ j k. table_now j k;
    kept = λ a x y.
        let at = p.tbl_aligned in
        read_other (i * pgsize + 3) with_dir (λ e. omega arith)
        ∙ read_other (kpgtbl + pgsize * (768 + i / 1024) - kernbase + 3) mem' (λ e. omega arith)
        ∙ l.kept a x y;
  })

pub Linear-zero :
    (kpgdir kpgtbl : ℕ) (mem : ℕ → ℕ)
    → ((d : ℕ) → d < 1024 → mem (kpgdir + 4 * d) ≡ 0)
    → Linear kpgdir kpgtbl 0 mem mem
Linear-zero kpgdir kpgtbl mem c = record {
  dir = λ d k. c d k ∙ ground arith;
  table = λ j k. absurd (omega arith);
  kept = λ a x y. refl;
}
