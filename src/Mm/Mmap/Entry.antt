-- ===== src/Mm/Mmap/Entry.antt =====
-- Writing one entry of a table (mm/mmap.c): the directory stays well-formed, and only the walk through
-- that entry changes.
use linda.Base.{
  ℕ, ◌+◌, ◌*◌, ◌%◌, ◌<◌, ◌≡◌, ◌≢◌, refl, sym, Option, none, some, arith, ◌==◌, if◌then◌else◌, eq→==,
  ne→==, ℕ_discrete,
}
use linda.Mach.{kernbase}
use linda.Mm.Mmap.{write_word}
use linda.Mm.Mmap.Walk.{frame, walk, IsDir, entry_apart, read_other, read_same, frame_aligned}

-- A walk that reads the same two entries comes to the same.
pub walk_same :
    (mmap d t o : ℕ) (mem mem' : ℕ → ℕ)
    → mem' (mmap + 4 * d) ≡ mem (mmap + 4 * d)
    → (mem (mmap + 4 * d) % 2 ≢ 0
        → mem' (frame (mem (mmap + 4 * d)) + kernbase + 4 * t)
          ≡ mem (frame (mem (mmap + 4 * d)) + kernbase + 4 * t))
    → walk mmap d t o mem' ≡ walk mmap d t o mem
unfolding walk
walk_same mmap d t o mem mem' e g = rw e (elim (ℕ_discrete (mem (mmap + 4 * d) % 2) 0) [
  | yes z ↦ rw (eq→== (mem (mmap + 4 * d) % 2) 0 z) refl
  | no z ↦ rw (g z) refl
])

-- A walk through an entry of the directory that is not present.
pub walk_absent :
    (mmap d t o : ℕ) (mem : ℕ → ℕ) → mem (mmap + 4 * d) % 2 ≡ 0 → walk mmap d t o mem ≡ none
unfolding walk
walk_absent mmap d t o mem z = rw (eq→== (mem (mmap + 4 * d) % 2) 0 z) refl

-- What the walk comes to at an entry of a table.
abbrev pub leaf : ℕ → ℕ → Option ℕ
leaf pte o = if pte % 2 == 0 then none else some (frame pte + o)

pub walk-leaf :
    (mmap d t o : ℕ) (mem : ℕ → ℕ) (pde pte : ℕ)
    → mem (mmap + 4 * d) ≡ pde
    → pde % 2 ≡ 1
    → mem (frame pde + kernbase + 4 * t) ≡ pte
    → walk mmap d t o mem ≡ leaf pte o
unfolding walk
walk-leaf mmap d t o mem pde pte e p g = rw (e, g, ne→== (pde % 2) 0 (omega arith)) refl

module _ (mmap : ℕ) (mem : ℕ → ℕ) (w : IsDir mmap mem) (c s v : ℕ) (hc : c < 1024)
    (hs : s < 1024) where
  -- The table of entry `c` of the directory, and the memory with `v` at its entry `s`.
  abbrev pub slot : ℕ
  slot = frame (mem (mmap + 4 * c)) + kernbase + 4 * s

  pub put_entry_dir : (d : ℕ) → d < 1024 → write_word slot v mem (mmap + 4 * d) ≡ mem (mmap + 4 * d)
  put_entry_dir d h = read_other v mem (λ (e : mmap + 4 * d ≡ slot). w.other c hc (
      sym
        (entry_apart mmap (frame (mem (mmap + 4 * c)) + kernbase) d s w.aligned
          (frame_aligned (mem (mmap + 4 * c))) h hs e).0))

  pub put_entry-IsDir : IsDir mmap (write_word slot v mem)
  put_entry-IsDir = record {
    aligned = w.aligned;
    present = λ d h. rw (put_entry_dir d h) (w.present d h);
    absent = λ d h. rw (put_entry_dir d h) (w.absent d h);
    low = λ d h. rw (put_entry_dir d h) (w.low d h);
    other = λ d h. rw (put_entry_dir d h) (w.other d h);
    apart = λ d e h k. rw (put_entry_dir d h, put_entry_dir e k) (w.apart d e h k);
  }

  pub put_entry-walk_same :
      (o : ℕ) → mem (mmap + 4 * c) % 2 ≡ 1 → walk mmap c s o (write_word slot v mem) ≡ leaf v o
  put_entry-walk_same o p =
      walk-leaf mmap c s o (write_word slot v mem) (mem (mmap + 4 * c)) v (put_entry_dir c hc) p
        (read_same slot v mem)

  pub put_entry-walk_other :
      (d t o : ℕ)
      → d < 1024
      → t < 1024
      → frame (mem (mmap + 4 * c)) ≢ 0
      → ¬ ((d ≡ c) × (t ≡ s))
      → walk mmap d t o (write_word slot v mem) ≡ walk mmap d t o mem
  put_entry-walk_other d t o h k nz n =
      walk_same mmap d t o mem (write_word slot v mem) (put_entry_dir d h) (λ z.
        read_other v mem (λ (e : frame (mem (mmap + 4 * d)) + kernbase + 4 * t ≡ slot).
          let (pages, entries) =
            entry_apart (frame (mem (mmap + 4 * d)) + kernbase)
              (frame (mem (mmap + 4 * c)) + kernbase) t s (frame_aligned (mem (mmap + 4 * d)))
              (frame_aligned (mem (mmap + 4 * c))) k hs e in
          n (sym (w.apart c d hc h nz (omega (arith, pages))), entries)))
