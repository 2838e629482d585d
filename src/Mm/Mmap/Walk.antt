-- ===== src/Mm/Mmap/Walk.antt =====
-- How the processor reads the directories and tables that mm/mmap.c writes.
use linda.Base.{
  ℕ, ◌+◌, ◌*◌, ◌/◌, ◌%◌, ◌≤◌, ◌<◌, ◌≡◌, ◌≢◌, refl, Bool, true, false, Option, none, some, arith,
  ◌==◌, if◌then◌else◌, eq→==, ne→==,
}
use linda.Mach.{pgsize, u32_mod, kernbase, kernsize, pdx, ptx, pgrounddown}
use linda.Mm.Mmap.{write_word, entry}
use linda.Mm.Kmalloc.{clear}

-- The physical address of the frame that an entry names.
abbrev pub frame : ℕ → ℕ
frame e = e / pgsize * pgsize

-- The walk: the entry of the directory, the entry of the table, the offset; none at an entry that is not
-- present. The table is read through the kernel's linear map.
unfoldable pub walk : ℕ → ℕ → ℕ → ℕ → (ℕ → ℕ) → Option ℕ
walk mmap d t o mem =
    let pde = mem (mmap + 4 * d) in
    let pte = mem (frame pde + kernbase + 4 * t) in
    if pde % 2 == 0 then none else if pte % 2 == 0 then none else some (frame pte + o)

-- The physical address of the virtual address `va`.
unfoldable pub translate : ℕ → ℕ → (ℕ → ℕ) → Option ℕ
unfolding walk pdx ptx
translate mmap va mem = walk mmap (pdx va) (ptx va) (va % pgsize) mem

-- A directory: its page lies in the kernel; an entry that names a frame is present and one that names
-- none is not; the frames are the kernel's, and no table is the directory or the table of another entry.
pub record IsDir (mmap : ℕ) (mem : ℕ → ℕ) : Type 0 where
  pub aligned : mmap % pgsize ≡ 0
  pub present : (d : ℕ) → d < 1024 → frame (mem (mmap + 4 * d)) ≢ 0 → mem (mmap + 4 * d) % 2 ≡ 1
  pub absent : (d : ℕ) → d < 1024 → frame (mem (mmap + 4 * d)) ≡ 0 → mem (mmap + 4 * d) % 2 ≡ 0
  pub low : (d : ℕ) → d < 1024 → frame (mem (mmap + 4 * d)) < kernsize
  pub other : (d : ℕ) → d < 1024 → frame (mem (mmap + 4 * d)) + kernbase ≢ mmap
  pub apart :
      (d e : ℕ)
      → d < 1024
      → e < 1024
      → frame (mem (mmap + 4 * d)) ≢ 0
      → frame (mem (mmap + 4 * d)) ≡ frame (mem (mmap + 4 * e))
      → d ≡ e

-- A page that is neither the directory nor one of its tables.
pub record IsFresh (mmap : ℕ) (mem : ℕ → ℕ) (page : ℕ) : Type 0 where
  pub aligned : page % pgsize ≡ 0
  pub above : kernbase + pgsize ≤ page
  pub below : page < u32_mod
  pub dir : page ≢ mmap
  pub table : (d : ℕ) → d < 1024 → frame (mem (mmap + 4 * d)) + kernbase ≢ page

-- Entries of pages are at one address only if they are the same entry of the same page.
pub entry_apart :
    (p q i j : ℕ)
    → p % pgsize ≡ 0
    → q % pgsize ≡ 0
    → i < 1024
    → j < 1024
    → p + 4 * i ≡ q + 4 * j
    → (p ≡ q) × (i ≡ j)
entry_apart p q i j a b h k e = (omega arith, omega arith)

pub read_other : {a b : ℕ} (v : ℕ) (mem : ℕ → ℕ) → b ≢ a → write_word a v mem b ≡ mem b
read_other {a} {b} v mem h = rw (ne→== b a h) refl

pub read_same : (a v : ℕ) (mem : ℕ → ℕ) → write_word a v mem a ≡ v
read_same a v mem = rw (eq→== a a refl) refl

pub frame-entry : (addr : ℕ) (user : Bool) → frame (entry addr user) ≡ pgrounddown addr
unfolding entry pgrounddown
frame-entry addr true = omega arith
frame-entry addr false = omega arith

pub entry_present : (addr : ℕ) (user : Bool) → entry addr user % 2 ≡ 1
unfolding entry pgrounddown
entry_present addr true = omega arith
entry_present addr false = omega arith

pub frame_aligned : (e : ℕ) → (frame e + kernbase) % pgsize ≡ 0
frame_aligned e = omega arith

-- A word outside a cleared page.
pub read_clear_other :
    (page a : ℕ) (mem : ℕ → ℕ) → (page ≤ a → page + pgsize ≤ a) → clear page pgsize mem a ≡ mem a
read_clear_other page a mem h = ground (arith, h)

pub read_clear :
    (page a : ℕ) (mem : ℕ → ℕ) → page ≤ a → a < page + pgsize → clear page pgsize mem a ≡ 0
read_clear page a mem h k = ground arith
