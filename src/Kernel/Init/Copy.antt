-- ===== src/Kernel/Init/Copy.antt =====
-- The program of the first process (mm/mmap.c: uvm_init): where its bytes go.
use linda.Base.{
  ℕ, zero, suc, ◌+◌, ◌%◌, ◌*◌, ◌≤◌, ◌<◌, ◌≡◌, ◌⊎◌, inl, refl, sym, ap, ◌∙◌, Option, none, some,
  arith, false, ℕ_discrete, eq→==, ne→==, Outcome, ok, panic, hang, overrun,
}
use linda.Mach.{u32_mod, pgsize, pgrounddown, pdx}
use linda.Str.{write_byte}
use linda.Mm.Vmmgr.Alloc.{available_count}
use linda.Mm.Kmalloc.{Kmem}
use linda.Mm.Mmap.{map_page}
use linda.Mm.Mmap.Walk.{frame, translate, IsDir}
use linda.Mm.Mmap.Map.{NextFresh, MapsTo}
use linda.Mm.Mmap.Update.{Maps, map_page-Maps}
use linda.Kernel.Init.{copy_init}

-- The bytes `i` to `n` of `init` lie at `base`, and nothing else has changed.
abbrev pub Copied : ℕ → ℕ → ℕ → (ℕ → ℕ) → (ℕ → ℕ) → Option (ℕ → ℕ) → Type 0
Copied base i n init phys none = ⊥
Copied base i n init phys (some phys') =
    ((k : ℕ) → i ≤ k → k < n → phys' (base + k) ≡ init k)
    × ((a : ℕ) → (a < base + i) ⊎ (base + n ≤ a) → phys' a ≡ phys a)

Copied-suc :
    (base i n : ℕ) (init phys : ℕ → ℕ) (r : Option (ℕ → ℕ))
    → i < n
    → Copied base (suc i) n init (write_byte (base + i) (init i) phys) r
    → Copied base i n init phys r
Copied-suc base i n init phys none h c = c
Copied-suc base i n init phys (some phys') h (copied, kept) = (
  λ k lo hi. elim (ℕ_discrete i k) [
    | yes e ↦
        ap (λ (x : ℕ). phys' (base + x)) (sym e)
        ∙ kept (base + i) (inl (omega arith))
        ∙ rw (eq→== (base + i) (base + i) refl) (ap init e)
    | no d ↦ copied k (omega arith) hi
  ],
  λ a o. kept a (omega arith) ∙ rw (ne→== a (base + i) (omega arith)) refl,
)

copy_init-Copied :
    (kpgdir virt_mem base n count i : ℕ) (mem init phys : ℕ → ℕ)
    → n ≡ i + count
    → ((k : ℕ) → k < n → translate kpgdir (virt_mem + k) mem ≡ some (base + k))
    → Copied base i n init phys (copy_init kpgdir mem init virt_mem i count phys)
unfolding copy_init
copy_init-Copied kpgdir virt_mem base n zero i mem init phys e t =
    (λ k lo hi. absurd (omega arith), λ a o. refl)
copy_init-Copied kpgdir virt_mem base n (suc count) i mem init phys e t =
    rw (copy_init, t i (omega arith))
      (Copied-suc base i n init phys
        (copy_init kpgdir mem init virt_mem (suc i) count (write_byte (base + i) (init i) phys))
        (omega arith)
        (copy_init-Copied kpgdir virt_mem base n count (suc i) mem init
          (write_byte (base + i) (init i) phys) (omega arith) t))

-- The mapping of the page and the copy, as uvm_init makes them one after the other.
abbrev pub InPlace : ℕ → ℕ → ℕ → ℕ → (ℕ → ℕ) → (ℕ → ℕ) → Kmem → Outcome Kmem → Type 0
InPlace kpgdir virt_mem phy_mem sz init phys s (ok s') =
    Copied (pgrounddown phy_mem) 0 sz init phys (copy_init kpgdir s'.mem init virt_mem 0 sz phys)
InPlace kpgdir virt_mem phy_mem sz init phys s panic =
    (available_count s.kvmlist ≡ 0) × (frame (s.mem (kpgdir + 4 * pdx virt_mem)) ≡ 0)
InPlace kpgdir virt_mem phy_mem sz init phys s hang = ⊥
InPlace kpgdir virt_mem phy_mem sz init phys s overrun = ⊥

page_translate :
    (kpgdir virt_mem phy_mem k : ℕ) (mem mem' : ℕ → ℕ)
    → virt_mem % pgsize ≡ 0
    → virt_mem < u32_mod
    → k < pgsize
    → MapsTo kpgdir virt_mem (some phy_mem) mem mem'
    → translate kpgdir (virt_mem + k) mem' ≡ some (pgrounddown phy_mem + k)
unfolding pgrounddown
page_translate kpgdir virt_mem phy_mem k mem mem' a b h m =
    m (virt_mem + k) (omega arith)
    ∙ rw (eq→== (pgrounddown (virt_mem + k)) (pgrounddown virt_mem) (omega arith))
        (ap some (omega arith))

Maps-InPlace :
    (kpgdir virt_mem phy_mem sz : ℕ) (init phys : ℕ → ℕ) (s : Kmem) (r : Outcome Kmem)
    → virt_mem % pgsize ≡ 0
    → virt_mem < u32_mod
    → sz ≤ pgsize
    → Maps kpgdir virt_mem phy_mem s r
    → InPlace kpgdir virt_mem phy_mem sz init phys s r
Maps-InPlace kpgdir virt_mem phy_mem sz init phys s (ok s') a b h (_, m) =
    copy_init-Copied kpgdir virt_mem (pgrounddown phy_mem) sz sz 0 s'.mem init phys (omega arith)
      (λ k l. page_translate kpgdir virt_mem phy_mem k s.mem s'.mem a b (omega arith) m)
Maps-InPlace kpgdir virt_mem phy_mem sz init phys s panic a b h m = m
Maps-InPlace kpgdir virt_mem phy_mem sz init phys s hang a b h m = m
Maps-InPlace kpgdir virt_mem phy_mem sz init phys s overrun a b h m = m

-- With a well-formed directory, a page-aligned address and a program of at most a page, the copy through
-- the page that has just been mapped brings each byte of the program to its place in the physical page and
-- changes no other byte of the physical memory. The mapping panics only if it needs a page for a table
-- and none is free. The page that kvm_alloc_page gives next must not be part of the directory.
pub map_page-InPlace :
    (kpgdir virt_mem phy_mem sz : ℕ) (init phys : ℕ → ℕ) (s : Kmem)
    → virt_mem % pgsize ≡ 0
    → virt_mem < u32_mod
    → sz ≤ pgsize
    → IsDir kpgdir s.mem
    → NextFresh kpgdir s
    → InPlace kpgdir virt_mem phy_mem sz init phys s (map_page kpgdir virt_mem phy_mem false s)
map_page-InPlace kpgdir virt_mem phy_mem sz init phys s a b h w n =
    Maps-InPlace kpgdir virt_mem phy_mem sz init phys s (map_page kpgdir virt_mem phy_mem false s) a
      b h (map_page-Maps kpgdir virt_mem phy_mem false s b w n)
