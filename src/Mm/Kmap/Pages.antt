-- ===== src/Mm/Kmap/Pages.antt =====
-- What the first loop of kmap_init (mm/mmap.c) makes of the table of the kernel's virtual pages, and
-- what kvm_init (mm/vmmgr.c), which runs after it, leaves of that.
use linda.Base.{
  ℕ, zero, suc, ◌*◌, ◌≤◌, ◌<◌, ◌≡◌, ◌≢◌, lt→ltb, le→not_ltb, dec_lt, refl, sym, ap, ◌∙◌, List, [],
  ◌∷◌, some, arith, ◌&&◌, ltb, if◌then◌else◌, ℕ_discrete, length, get_elem?, set, length-set,
  get_elem?-set_self, get_elem?-set_ne, set-set, lt-length_of_some, ok, ◌>>=◌,
}
use linda.Mach.{pgsize, p2v}
use linda.Mm.Vmmgr.{VmBlock, nvmblocks, set_mapped, release_block, kvm_init}
use linda.Mm.Vmmgr.Table.{page_addr, IsNumbered, initial, kvm_init_lem}
use linda.Mm.Vmmgr.Alloc.{available}
use linda.Mm.Vmmgr.Free.{free_lem, map_lem, with_status}
use linda.Mm.Kmap.{mark_page}
use linda.Mm.Kmap.Directory.{nmapped}

-- Block `k` after its round.
abbrev pub opened : ℕ → VmBlock → VmBlock
opened k b = release_block k (with_status b (set_mapped b.status))

-- The blocks of the first `i` pages have had their rounds, and no other block has changed.
pub record Opened (i : ℕ) (bs bs' : List VmBlock) : Type 0 where
  pub same_length : length bs' ≡ length bs
  pub block :
      (k : ℕ) (b : VmBlock)
      → get_elem? bs k ≡ some b
      → get_elem? bs' k ≡ some (if ltb k i then opened k b else b)

round_none : (k : ℕ) (b : VmBlock) → b ≡ (if ltb k 0 then opened k b else b)
round_none k b = rw (le→not_ltb k 0 (omega arith)) refl

round_other :
    (k i : ℕ) (b : VmBlock)
    → i ≢ k
    → (if ltb k i then opened k b else b) ≡ (if ltb k (suc i) then opened k b else b)
round_other k i b n = elim (dec_lt k i) [
  | yes h ↦ rw (lt→ltb k i h, lt→ltb k (suc i) (omega arith)) refl
  | no h ↦ rw (le→not_ltb k i (omega arith), le→not_ltb k (suc i) (omega arith)) refl
]

pub Opened-zero : (bs : List VmBlock) → Opened 0 bs bs
Opened-zero bs = record { same_length = refl; block = λ k b e. e ∙ ap some (round_none k b) }

get_below : (bs : List VmBlock) (i : ℕ) → i < length bs → (b : VmBlock) × (get_elem? bs i ≡ some b)
get_below [] i h = absurd (omega arith)
get_below (b ∷ bs) zero h = (b, refl)
get_below (b ∷ bs) (suc i) h = get_below bs i (omega arith)

page_p2v : (i : ℕ) → i < nvmblocks → p2v (i * pgsize) ≡ page_addr i
unfolding p2v
page_p2v i h = omega arith

module _ (i : ℕ) (bs bs' : List VmBlock) (h : i < nmapped) (l : length bs ≡ nvmblocks)
    (o : Opened i bs bs') where
  at : (b : VmBlock) × (get_elem? bs i ≡ some b)
  at = get_below bs i (omega arith)

  now : get_elem? bs' i ≡ some at.0
  now = o.block i at.0 at.1 ∙ ground arith

  marks : mark_page (p2v (i * pgsize)) bs' ≡ ok (set bs' i (opened i at.0))
  marks =
      let k : i < nvmblocks = omega arith in
      rw
        (
          page_p2v i k,
          map_lem bs' i at.0 k now,
          ◌>>=◌,
          free_lem (set bs' i (with_status at.0 (set_mapped at.0.status))) i
              (with_status at.0 (set_mapped at.0.status)) k
              (get_elem?-set_self bs' i _ (lt-length_of_some bs' i at.0 now)),
          set-set,
        )
        refl

  grown :
      (k : ℕ) (b : VmBlock)
      → get_elem? bs k ≡ some b
      → get_elem? (set bs' i (opened i at.0)) k ≡ some (if ltb k (suc i) then opened k b else b)
  grown k b e = elim (ℕ_discrete i k) [
    | yes q ↦
        let same : at.0 ≡ b = cc (q, at.1, e) in
        rw
          (
            lt→ltb k (suc i) (omega arith),
            sym q,
            get_elem?-set_self bs' i (opened i at.0) (lt-length_of_some bs' i at.0 now),
            same,
          )
          refl
    | no n ↦ get_elem?-set_ne bs' (opened i at.0) n ∙ o.block k b e ∙ ap some (round_other k i b n)
  ]

  pub Opened-suc :
      (bs'' : List VmBlock) × (mark_page (p2v (i * pgsize)) bs' ≡ ok bs'') × Opened (suc i) bs bs''
  Opened-suc = (
    set bs' i (opened i at.0),
    marks,
    record { same_length = length-set bs' i (opened i at.0) ∙ o.same_length; block = grown },
  )

-- The table as the loader clears it.
abbrev pub no_block : VmBlock
no_block = record { address = 0; status = 0 }

abbrev pub IsCleared : List VmBlock → Type 0
IsCleared bs = (length bs ≡ nvmblocks) × ((k : ℕ) → k < nvmblocks → get_elem? bs k ≡ some no_block)

-- The block of page `k` after kvm_init.
abbrev pub booted : ℕ → ℕ → VmBlock
booted kernaddr k = initial kernaddr k (if ltb k nmapped then opened k no_block else no_block)

available-booted :
    (kernaddr k : ℕ) → available (booted kernaddr k) ≡ (ltb k nmapped && ltb kernaddr (page_addr k))
unfolding release_block
available-booted kernaddr k = ground arith

-- The pages that kvm_alloc_page may hand out once the table is set up: those above the kernel's end and
-- below MEM_NORMAL.
pub Opened-kvm_init :
    (kernaddr : ℕ) (bs bs' : List VmBlock)
    → IsCleared bs
    → Opened nmapped bs bs'
    → IsNumbered 0 (kvm_init kernaddr bs')
      × ((k : ℕ)
          → k < nvmblocks
          → (get_elem? (kvm_init kernaddr bs') k ≡ some (booted kernaddr k))
            × (available (booted kernaddr k) ≡ (ltb k nmapped && ltb kernaddr (page_addr k))))
Opened-kvm_init kernaddr bs bs' (l, c) o =
    let le : length bs' ≤ nvmblocks = omega (arith, o.same_length, l) in
    let here : (k : ℕ)
        → k < nvmblocks
        → get_elem? bs' k ≡ some (if ltb k nmapped then opened k no_block else no_block) =
      λ k h. o.block k no_block (c k h) in
    (
      (kvm_init_lem kernaddr bs' 0 _ le (here 0 (omega arith))).0,
      λ k h. ((kvm_init_lem kernaddr bs' k _ le (here k h)).1, available-booted kernaddr k),
    )
