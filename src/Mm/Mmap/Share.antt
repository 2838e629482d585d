-- ===== src/Mm/Mmap/Share.antt =====
-- The directory of a new process (mm/mmap.c: umap_init): it shares the kernel's part of the address space.
use linda.Base.{
  ℕ, zero, suc, ◌+◌, ◌*◌, ◌%◌, ◌≤◌, ◌<◌, ◌≡◌, ◌≢◌, ◌⊎◌, refl, sym, ◌∙◌, List, arith, ℕ_discrete,
  Outcome, ok, panic, hang, overrun, ◌>>=◌,
}
use linda.Mach.{pgsize, kernbase, u32_mod, pdx, ptx}
use linda.Mach.Paging.{pdx-ptx_parts}
use linda.Mm.Vmmgr.{VmBlock, kvm_alloc_page}
use linda.Mm.Vmmgr.Alloc.{kvm_alloc_page_lem, available_count}
use linda.Mm.Kmalloc.{Kmem}
use linda.Mm.Mmap.{store, copy_entries, umap_init}
use linda.Mm.Mmap.Walk.{
  frame, walk, translate, IsDir, IsFresh, entry_apart, read_other, read_same, frame_aligned,
}
use linda.Mm.Mmap.Map.{NextFresh, translate-walk}

copy_entries_other :
    (kpgdir pgdir i rounds : ℕ) (s : Kmem) (a : ℕ)
    → i + rounds ≤ 1024
    → (a < pgdir) ⊎ (pgdir + pgsize ≤ a)
    → (copy_entries kpgdir pgdir i rounds s).mem a ≡ s.mem a
unfolding copy_entries
copy_entries_other kpgdir pgdir i zero s a h o = refl
copy_entries_other kpgdir pgdir i (suc rounds) s a h o =
    copy_entries_other kpgdir pgdir (suc i) rounds
      (store (pgdir + 4 * i) (s.mem (kpgdir + 4 * i)) s) a (omega arith) o
    ∙ read_other (s.mem (kpgdir + 4 * i)) s.mem (λ e. omega arith)

-- The entries below `i` stay.
copy_entries_below :
    (kpgdir pgdir i rounds j : ℕ) (s : Kmem)
    → j < i
    → (copy_entries kpgdir pgdir i rounds s).mem (pgdir + 4 * j) ≡ s.mem (pgdir + 4 * j)
unfolding copy_entries
copy_entries_below kpgdir pgdir i zero j s h = refl
copy_entries_below kpgdir pgdir i (suc rounds) j s h =
    copy_entries_below kpgdir pgdir (suc i) rounds j
      (store (pgdir + 4 * i) (s.mem (kpgdir + 4 * i)) s) (omega arith)
    ∙ read_other (s.mem (kpgdir + 4 * i)) s.mem (λ e. omega arith)

copy_entries_copies :
    (kpgdir pgdir i rounds j : ℕ) (s : Kmem)
    → kpgdir % pgsize ≡ 0
    → pgdir % pgsize ≡ 0
    → pgdir ≢ kpgdir
    → i + rounds ≤ 1024
    → i ≤ j
    → j < i + rounds
    → (copy_entries kpgdir pgdir i rounds s).mem (pgdir + 4 * j) ≡ s.mem (kpgdir + 4 * j)
unfolding copy_entries
copy_entries_copies kpgdir pgdir i zero j s a b n h l m = absurd (omega arith)
copy_entries_copies kpgdir pgdir i (suc rounds) j s a b n h l m = elim (ℕ_discrete j i) [
  | yes e ↦ rw e (
      copy_entries_below kpgdir pgdir (suc i) rounds i
        (store (pgdir + 4 * i) (s.mem (kpgdir + 4 * i)) s) (omega arith)
      ∙ read_same (pgdir + 4 * i) (s.mem (kpgdir + 4 * i)) s.mem)
  | no d ↦
      copy_entries_copies kpgdir pgdir (suc i) rounds j
        (store (pgdir + 4 * i) (s.mem (kpgdir + 4 * i)) s) a b n (omega arith) (omega arith)
        (omega arith)
      ∙ read_other (s.mem (kpgdir + 4 * i)) s.mem
          (λ e. n (sym (entry_apart kpgdir pgdir j i a b (omega arith) (omega arith) e).0))
]

module _ (kpgdir : ℕ) (s s' : Kmem) (pgdir : ℕ) (w : IsDir kpgdir s.mem)
    (f : IsFresh kpgdir s.mem pgdir)
    (kept : (a : ℕ) → (a < pgdir) ⊎ (pgdir + pgsize ≤ a) → s'.mem a ≡ s.mem a) where
  -- The words of another page stay.
  page_kept :
      (page k : ℕ)
      → page % pgsize ≡ 0
      → page ≢ pgdir
      → k < 1024
      → s'.mem (page + 4 * k) ≡ s.mem (page + 4 * k)
  page_kept page k a n h = let b = f.aligned in kept (page + 4 * k) (omega arith)

  table_kept :
      (d t : ℕ)
      → d < 1024
      → t < 1024
      → s'.mem (frame (s.mem (kpgdir + 4 * d)) + kernbase + 4 * t)
        ≡ s.mem (frame (s.mem (kpgdir + 4 * d)) + kernbase + 4 * t)
  table_kept d t h k =
      page_kept (frame (s.mem (kpgdir + 4 * d)) + kernbase) t
        (frame_aligned (s.mem (kpgdir + 4 * d))) (f.table d h) k

  walk_kept : (d t o : ℕ) → d < 1024 → t < 1024 → walk kpgdir d t o s'.mem ≡ walk kpgdir d t o s.mem
  unfolding walk
  walk_kept d t o h k =
      rw (page_kept kpgdir d w.aligned (λ e. f.dir (sym e)) h, table_kept d t h k) refl

  walk_shared :
      (d t o : ℕ)
      → d < 1024
      → t < 1024
      → s'.mem (pgdir + 4 * d) ≡ s.mem (kpgdir + 4 * d)
      → walk pgdir d t o s'.mem ≡ walk kpgdir d t o s.mem
  unfolding walk
  walk_shared d t o h k e = rw (e, table_kept d t h k) refl

kernel_part : (va : ℕ) → kernbase ≤ va → va < u32_mod → 768 ≤ pdx va
unfolding pdx
kernel_part va lo hi = omega arith

-- What umap_init may answer: a directory through which the processor translates the kernel's addresses as
-- through the kernel's own, which it translates as before; or the kernel has no page for it.
abbrev pub Shares : ℕ → Kmem → Outcome (ℕ × Kmem) → Type 0
Shares kpgdir s (ok (pgdir, s')) =
    (pgdir % pgsize ≡ 0)
    × (pgdir ≢ kpgdir)
    × ((va : ℕ)
        → kernbase ≤ va
        → va < u32_mod
        → translate pgdir va s'.mem ≡ translate kpgdir va s.mem)
    × ((va : ℕ) → va < u32_mod → translate kpgdir va s'.mem ≡ translate kpgdir va s.mem)
Shares kpgdir s panic = available_count s.kvmlist ≡ 0
Shares kpgdir s hang = ⊥
Shares kpgdir s overrun = ⊥

new-Shares :
    (kpgdir : ℕ) (s : Kmem) (r : Outcome (ℕ × List VmBlock))
    → IsDir kpgdir s.mem
    → NextFresh kpgdir s
    → kvm_alloc_page s.kvmlist ≡ r
    → Shares kpgdir s (
        r >>= λ (pgdir, kvmlist).
        ok (pgdir, copy_entries kpgdir pgdir 768 256 (record s { kvmlist = kvmlist })))
new-Shares kpgdir s (ok (pgdir, kvmlist)) w n e =
    let f = n pgdir kvmlist e in
    let t : Kmem = record s { kvmlist = kvmlist } in
    let s' = copy_entries kpgdir pgdir 768 256 t in
    let kept : (a : ℕ) → (a < pgdir) ⊎ (pgdir + pgsize ≤ a) → s'.mem a ≡ s.mem a =
      λ a o. copy_entries_other kpgdir pgdir 768 256 t a (omega arith) o in
    (
      f.aligned,
      f.dir,
      λ va lo hi.
          let (_, hc, hs) = pdx-ptx_parts va hi in
          translate-walk pgdir va s'.mem
          ∙ walk_shared kpgdir s s' pgdir w f kept (pdx va) (ptx va) (va % pgsize) hc hs (
              copy_entries_copies kpgdir pgdir 768 256 (pdx va) t w.aligned f.aligned f.dir
                (omega arith) (kernel_part va lo hi) hc)
          ∙ sym (translate-walk kpgdir va s.mem),
      λ va hi.
          let (_, hc, hs) = pdx-ptx_parts va hi in
          translate-walk kpgdir va s'.mem
          ∙ walk_kept kpgdir s s' pgdir w f kept (pdx va) (ptx va) (va % pgsize) hc hs
          ∙ sym (translate-walk kpgdir va s.mem),
    )
new-Shares kpgdir s panic w n e = rw e at (kvm_alloc_page_lem s.kvmlist)
new-Shares kpgdir s hang w n e = absurd (rw e at (kvm_alloc_page_lem s.kvmlist))
new-Shares kpgdir s overrun w n e = absurd (rw e at (kvm_alloc_page_lem s.kvmlist))

-- With the kernel's directory well formed and the page that kvm_alloc_page gives next not part of it,
-- umap_init gives a page-aligned directory, another than the kernel's, through which the processor
-- translates every address from KERNBASE on as through the kernel's, and leaves all translations through
-- the kernel's as they were. It panics only if no page of the kernel is free.
pub umap_init-Shares :
    (kpgdir : ℕ) (s : Kmem)
    → IsDir kpgdir s.mem
    → NextFresh kpgdir s
    → Shares kpgdir s (umap_init kpgdir s)
unfolding umap_init
umap_init-Shares kpgdir s w n = new-Shares kpgdir s (kvm_alloc_page s.kvmlist) w n refl
