-- ===== src/Mm/Mmap/NewTable.antt =====
-- A new table of a directory (mm/mmap.c, mmap_do_map): no walk changes, and the directory stays
-- well-formed.
use linda.Base.{
  ℕ, ◌+◌, ◌*◌, ◌%◌, ◌≤◌, ◌<◌, ◌≡◌, ◌≢◌, refl, sym, ap, ◌∙◌, subst, Bool, arith, ℕ_discrete,
}
use linda.Mach.{pgsize, kernbase, kernsize, u32_mod, v2p, pgrounddown}
use linda.Mm.Kmalloc.{clear}
use linda.Mm.Mmap.{write_word, entry}
use linda.Mm.Mmap.Walk.{
  frame, walk, IsDir, IsFresh, entry_apart, read_other, read_same, frame_aligned, frame-entry,
  entry_present, read_clear, read_clear_other,
}
use linda.Mm.Mmap.Entry.{walk_same, walk_absent, walk-leaf}

round_v2p :
    (page : ℕ)
    → page % pgsize ≡ 0
    → kernbase ≤ page
    → page < u32_mod
    → pgrounddown (v2p page) + kernbase ≡ page
unfolding pgrounddown v2p
round_v2p page a h k = omega arith

-- A word of one page, read after another page is cleared.
outside :
    (page q i : ℕ) (mem : ℕ → ℕ)
    → page % pgsize ≡ 0
    → q % pgsize ≡ 0
    → i < 1024
    → q ≢ page
    → clear page pgsize mem (q + 4 * i) ≡ mem (q + 4 * i)
outside page q i mem a b h n =
    read_clear_other page (q + 4 * i) mem (λ le. omega (arith, a, b, h, n, le))

module _ (mmap : ℕ) (mem : ℕ → ℕ) (w : IsDir mmap mem) (page : ℕ) (f : IsFresh mmap mem page)
    (c : ℕ) (hc : c < 1024) (user : Bool) where
  -- The memory with the table `page` in entry `c` of the directory.
  abbrev pub with_table : ℕ → ℕ
  with_table = write_word (mmap + 4 * c) (entry (v2p page) user) (clear page pgsize mem)

  pub frame_page : frame (entry (v2p page) user) + kernbase ≡ page
  frame_page =
      ap (λ (x : ℕ). x + kernbase) (frame-entry (v2p page) user)
      ∙ round_v2p page f.aligned (omega (arith, f.above)) f.below

  pub with_table_same : with_table (mmap + 4 * c) ≡ entry (v2p page) user
  with_table_same = read_same (mmap + 4 * c) (entry (v2p page) user) (clear page pgsize mem)

  with_table_other : (d : ℕ) → d < 1024 → d ≢ c → with_table (mmap + 4 * d) ≡ mem (mmap + 4 * d)
  with_table_other d h n =
      read_other (entry (v2p page) user) (clear page pgsize mem) (omega (arith, n))
      ∙ outside page mmap d mem f.aligned w.aligned h (λ (e : mmap ≡ page). f.dir (sym e))

  -- An entry of the old directory, in the new one.
  entry_cases :
      (P : ℕ → ℕ → Type 0) (d : ℕ)
      → d < 1024
      → P c (entry (v2p page) user)
      → (d ≢ c → P d (mem (mmap + 4 * d)))
      → P d (with_table (mmap + 4 * d))
  entry_cases P d h new old = elim (ℕ_discrete d c) [
    | yes e ↦
        subst (λ (x : ℕ). P x (with_table (mmap + 4 * x))) (sym e)
          (subst (P c) (sym with_table_same) new)
    | no n ↦ subst (P d) (sym (with_table_other d h n)) (old n)
  ]

  frame_nonzero : frame (entry (v2p page) user) ≢ 0
  frame_nonzero e = omega (arith, frame_page, f.above, e)

  pub with_table-IsDir : IsDir mmap with_table
  with_table-IsDir = record {
    aligned = w.aligned;
    present = λ d h.
        entry_cases (λ x e. frame e ≢ 0 → e % 2 ≡ 1) d h (λ z. entry_present (v2p page) user)
          (λ n. w.present d h);
    absent = λ d h.
        entry_cases (λ x e. frame e ≡ 0 → e % 2 ≡ 0) d h (λ z. absurd (frame_nonzero z))
          (λ n. w.absent d h);
    low = λ d h.
        entry_cases (λ x e. frame e < kernsize) d h (omega (arith, frame_page, f.below))
          (λ n. w.low d h);
    other = λ d h.
        entry_cases (λ x e. frame e + kernbase ≢ mmap) d h (λ e. f.dir (sym frame_page ∙ e))
          (λ n. w.other d h);
    apart = λ d e h k.
        entry_cases (λ x u. frame u ≢ 0 → frame u ≡ frame (with_table (mmap + 4 * e)) → x ≡ e) d h
          (entry_cases
            (λ y u.
              frame (entry (v2p page) user) ≢ 0 → frame (entry (v2p page) user) ≡ frame u → c ≡ y)
            e k (λ z q. refl) (λ n z q. absurd (f.table e k (omega (arith, frame_page, q)))))
          (λ n.
            entry_cases
              (λ y u. frame (mem (mmap + 4 * d)) ≢ 0 → frame (mem (mmap + 4 * d)) ≡ frame u → d ≡ y)
              e k (λ z q. absurd (f.table d h (omega (arith, frame_page, q))))
              (λ m. w.apart d e h k));
  }

  -- Entry `t` of a page that is not the directory.
  apart_dir : (q t : ℕ) → q % pgsize ≡ 0 → t < 1024 → q ≢ mmap → q + 4 * t ≢ mmap + 4 * c
  apart_dir q t a k n e = n (entry_apart q mmap t c a w.aligned k hc e).0

  with_table_empty :
      (t : ℕ) → t < 1024 → with_table (frame (entry (v2p page) user) + kernbase + 4 * t) ≡ 0
  with_table_empty t k =
      ap (λ (x : ℕ). with_table (x + 4 * t)) frame_page
      ∙ read_other (entry (v2p page) user) (clear page pgsize mem)
          (apart_dir page t f.aligned k f.dir)
      ∙ read_clear page (page + 4 * t) mem (omega arith) (omega arith)

  with_table-walk_new :
      (t o : ℕ)
      → t < 1024
      → frame (mem (mmap + 4 * c)) ≡ 0
      → walk mmap c t o with_table ≡ walk mmap c t o mem
  with_table-walk_new t o k z =
      walk-leaf mmap c t o with_table (entry (v2p page) user) 0 with_table_same
        (entry_present (v2p page) user) (with_table_empty t k)
      ∙ sym (walk_absent mmap c t o mem (w.absent c hc z))

  pub with_table-walk :
      (d t o : ℕ)
      → d < 1024
      → t < 1024
      → frame (mem (mmap + 4 * c)) ≡ 0
      → walk mmap d t o with_table ≡ walk mmap d t o mem
  with_table-walk d t o h k z = elim (ℕ_discrete d c) [
    | yes e ↦
        subst (λ (x : ℕ). walk mmap x t o with_table ≡ walk mmap x t o mem) (sym e)
          (with_table-walk_new t o k z)
    | no n ↦
        let q = frame (mem (mmap + 4 * d)) + kernbase in
        let aligned = frame_aligned (mem (mmap + 4 * d)) in
        walk_same mmap d t o mem with_table (with_table_other d h n) (λ p.
          read_other (entry (v2p page) user) (clear page pgsize mem)
            (apart_dir q t aligned k (w.other d h))
          ∙ outside page q t mem f.aligned aligned k (f.table d h))
  ]
