-- ===== src/Mm/Mmap/Update.antt =====
-- Mapping and unmapping a page (mm/mmap.c: the part of mmap_do_map and of mmap_do_unmap on the directory)
-- against the processor's walk.
use linda.Base.{
  ℕ, ◌+◌, ◌*◌, ◌%◌, ◌<◌, ◌≡◌, ◌≢◌, refl, sym, ap, ◌∙◌, subst, Bool, List, Option, none, some, arith,
  ◌==◌, if◌then◌else◌, eq→==, ne→==, ℕ_discrete, Outcome, ok, panic, hang, overrun, ◌>>=◌,
}
use linda.Mach.{pgsize, kernbase, u32_mod, v2p, p2v, pdx, ptx, pgrounddown}
use linda.Mach.Paging.{pdx-ptx_parts}
use linda.Mm.Vmmgr.{VmBlock, kvm_alloc_page}
use linda.Mm.Kmalloc.{Kmem, clear}
use linda.Mm.Mmap.{write_word, store, entry, table_of, get_table, map_page, unmap_page}
use linda.Mm.Mmap.Walk.{frame, translate, IsDir, IsFresh, frame-entry, entry_present}
use linda.Mm.Mmap.Entry.{leaf, put_entry-IsDir}
use linda.Mm.Mmap.NewTable.{with_table_same, with_table-IsDir, frame_page, with_table-walk}
use linda.Mm.Mmap.Map.{NextFresh, MapsTo, put-MapsTo, translate-walk, p2v_frame}
use linda.Mm.Vmmgr.Alloc.{kvm_alloc_page_lem, available_count}

-- What get_table gives: a table in the directory's entry for `va`, and no walk changes.
pub record HasTable (mmap va : ℕ) (mem : ℕ → ℕ) (pgtbl : ℕ) (mem' : ℕ → ℕ) : Type 0 where
  pub dir : IsDir mmap mem'
  pub there : frame (mem' (mmap + 4 * pdx va)) ≢ 0
  pub address : pgtbl ≡ frame (mem' (mmap + 4 * pdx va)) + kernbase
  pub walks : (wa : ℕ) → wa < u32_mod → translate mmap wa mem' ≡ translate mmap wa mem

abbrev pub GetsTable : ℕ → ℕ → Kmem → Outcome (ℕ × Kmem) → Type 0
GetsTable mmap va s (ok (pgtbl, s')) = HasTable mmap va s.mem pgtbl s'.mem
GetsTable mmap va s panic =
    (kvm_alloc_page s.kvmlist ≡ panic) × (frame (s.mem (mmap + 4 * pdx va)) ≡ 0)
GetsTable mmap va s hang = ⊥
GetsTable mmap va s overrun = ⊥

new_table :
    (mmap va : ℕ) (user : Bool) (s : Kmem) (page : ℕ) (kvmlist : List VmBlock)
    → va < u32_mod
    → IsDir mmap s.mem
    → IsFresh mmap s.mem page
    → frame (s.mem (mmap + 4 * pdx va)) ≡ 0
    → HasTable mmap va s.mem page
        (store
          (mmap + 4 * pdx va)
          (entry (v2p page) user)
          (record s { kvmlist = kvmlist; mem = clear page pgsize s.mem })).mem
new_table mmap va user s page kvmlist h w f z =
    let (_, hc, _) = pdx-ptx_parts va h in
    let same = with_table_same mmap s.mem w page f (pdx va) hc user in
    let at =
      ap (λ (e : ℕ). frame e + kernbase) same ∙ frame_page mmap s.mem w page f (pdx va) hc user in
    record {
      dir = with_table-IsDir mmap s.mem w page f (pdx va) hc user;
      there = λ e. omega (arith, at, e, f.above);
      address = sym at;
      walks = λ wa k.
          let (_, kc, ks) = pdx-ptx_parts wa k in
          translate-walk mmap wa _
          ∙ with_table-walk mmap s.mem w page f (pdx va) hc user (pdx wa) (ptx wa) (wa % pgsize) kc
              ks z
          ∙ sym (translate-walk mmap wa s.mem);
    }

table_of-frame :
    (mmap va : ℕ) (mem : ℕ → ℕ) → table_of mmap va mem ≡ frame (mem (mmap + 4 * pdx va))
unfolding table_of pgrounddown pdx
table_of-frame mmap va mem = refl

-- get_table where the directory has no table, from the outcome of kvm_alloc_page on.
new-GetsTable :
    (mmap va : ℕ) (user : Bool) (s : Kmem) (r : Outcome (ℕ × List VmBlock))
    → va < u32_mod
    → IsDir mmap s.mem
    → NextFresh mmap s
    → frame (s.mem (mmap + 4 * pdx va)) ≡ 0
    → kvm_alloc_page s.kvmlist ≡ r
    → GetsTable mmap va s (
        r >>= λ (pgtbl, kvmlist). ok (
          pgtbl,
          store
              (mmap + 4 * pdx va)
              (entry (v2p pgtbl) user)
              (record s { kvmlist = kvmlist; mem = clear pgtbl pgsize s.mem }),
        ))
new-GetsTable mmap va user s (ok (page, kvmlist)) h w f z e =
    new_table mmap va user s page kvmlist h w (f page kvmlist e) z
new-GetsTable mmap va user s panic h w f z e = (e, z)
new-GetsTable mmap va user s hang h w f z e = absurd (rw e at (kvm_alloc_page_lem s.kvmlist))
new-GetsTable mmap va user s overrun h w f z e = absurd (rw e at (kvm_alloc_page_lem s.kvmlist))

get_table-GetsTable :
    (mmap va : ℕ) (user : Bool) (s : Kmem)
    → va < u32_mod
    → IsDir mmap s.mem
    → NextFresh mmap s
    → GetsTable mmap va s (get_table mmap va user s)
unfolding get_table
get_table-GetsTable mmap va user s h w f =
    let (_, hc, _) = pdx-ptx_parts va h in
    let same = table_of-frame mmap va s.mem in
    elim (ℕ_discrete (table_of mmap va s.mem) 0) [
      | yes z ↦
          rw (eq→== (table_of mmap va s.mem) 0 z)
            (new-GetsTable mmap va user s (kvm_alloc_page s.kvmlist) h w f (sym same ∙ z) refl)
      | no n ↦ rw (ne→== (table_of mmap va s.mem) 0 n) (record {
        dir = w;
        there = λ e. n (same ∙ e);
        address = ap p2v same ∙ p2v_frame _ (w.low (pdx va) hc);
        walks = λ wa k. refl;
      })
    ]

-- The walk of every address goes as before.
MapsTo-walks :
    (mmap va : ℕ) (target : Option ℕ) (mem mem' mem'' : ℕ → ℕ)
    → ((wa : ℕ) → wa < u32_mod → translate mmap wa mem' ≡ translate mmap wa mem)
    → MapsTo mmap va target mem' mem''
    → MapsTo mmap va target mem mem''
MapsTo-walks mmap va target mem mem' mem'' e m wa h =
    m wa h
    ∙ ap
        (λ (o : Option ℕ).
          if pgrounddown wa == pgrounddown va
          then elim target as (λ _. Option ℕ) [
            | none ↦ none
            | some pa ↦ some (pgrounddown pa + wa % pgsize)
          ]
          else o)
        (e wa h)

leaf-entry : (pa : ℕ) (user : Bool) (o : ℕ) → leaf (entry pa user) o ≡ some (pgrounddown pa + o)
leaf-entry pa user o =
    rw (ne→== (entry pa user % 2) 0 (omega (arith, entry_present pa user)))
      (ap (λ (x : ℕ). some (x + o)) (frame-entry pa user))

-- What map_page comes to: the page of `va` is mapped to the frame of `pa`, and nothing else changes; or
-- the directory has no table for `va` and the kernel has no page for one.
abbrev pub Maps : ℕ → ℕ → ℕ → Kmem → Outcome Kmem → Type 0
Maps mmap va pa s (ok s') = IsDir mmap s'.mem × MapsTo mmap va (some pa) s.mem s'.mem
Maps mmap va pa s panic = (available_count s.kvmlist ≡ 0) × (frame (s.mem (mmap + 4 * pdx va)) ≡ 0)
Maps mmap va pa s hang = ⊥
Maps mmap va pa s overrun = ⊥

-- map_page from the table on.
put-Maps :
    (mmap va pa : ℕ) (user : Bool) (s : Kmem) (r : Outcome (ℕ × Kmem))
    → va < u32_mod
    → GetsTable mmap va s r
    → Maps mmap va pa s (r >>= λ (pgtbl, s'). ok (store (pgtbl + 4 * ptx va) (entry pa user) s'))
put-Maps mmap va pa user s (ok (pgtbl, s')) h t =
    let (_, hc, hs) = pdx-ptx_parts va h in
    let at : ℕ → ℕ → ℕ = λ x. write_word (x + 4 * ptx va) (entry pa user) s'.mem in
    (
      subst (λ (x : ℕ). IsDir mmap (at x)) (sym t.address)
          (put_entry-IsDir mmap s'.mem t.dir (pdx va) (ptx va) (entry pa user) hc hs),
      subst (λ (x : ℕ). MapsTo mmap va (some pa) s.mem (at x)) (sym t.address)
          (MapsTo-walks mmap va (some pa) s.mem s'.mem _ t.walks (
            put-MapsTo mmap va (entry pa user) (some pa) s'.mem t.dir h t.there
              (leaf-entry pa user))),
    )
put-Maps mmap va pa user s panic h (e, z) = (rw e at (kvm_alloc_page_lem s.kvmlist), z)
put-Maps mmap va pa user s hang h t = t
put-Maps mmap va pa user s overrun h t = t

-- mmap_do_map's part on a well-formed directory maps the page of `va` to the frame of `pa`: the processor
-- translates each address of that page to the same offset in that frame and every other address as
-- before, and the directory stays well-formed. It panics only if the directory has no table for `va` and
-- no page of the kernel is free. The page that kvm_alloc_page gives next must not be part of the
-- directory.
pub map_page-Maps :
    (mmap va pa : ℕ) (user : Bool) (s : Kmem)
    → va < u32_mod
    → IsDir mmap s.mem
    → NextFresh mmap s
    → Maps mmap va pa s (map_page mmap va pa user s)
unfolding map_page
map_page-Maps mmap va pa user s h w f =
    put-Maps mmap va pa user s (get_table mmap va user s) h
      (get_table-GetsTable mmap va user s h w f)

-- mmap_do_unmap's part on a well-formed directory that has a table for `va`: no address of the page of
-- `va` is translated any more, every other address as before, and the directory stays well-formed.
pub unmap_page_lem :
    (mmap va : ℕ) (s : Kmem)
    → va < u32_mod
    → IsDir mmap s.mem
    → table_of mmap va s.mem ≢ 0
    → IsDir mmap (unmap_page mmap va s).mem × MapsTo mmap va none s.mem (unmap_page mmap va s).mem
unfolding unmap_page
unmap_page_lem mmap va s h w nz =
    let (_, hc, hs) = pdx-ptx_parts va h in
    let same = table_of-frame mmap va s.mem in
    let address = ap p2v same ∙ p2v_frame _ (w.low (pdx va) hc) in
    let at : ℕ → ℕ → ℕ = λ x. write_word (x + 4 * ptx va) 0 s.mem in
    (
      subst (λ (x : ℕ). IsDir mmap (at x)) (sym address)
          (put_entry-IsDir mmap s.mem w (pdx va) (ptx va) 0 hc hs),
      subst (λ (x : ℕ). MapsTo mmap va none s.mem (at x)) (sym address)
          (put-MapsTo mmap va 0 none s.mem w h (λ e. nz (same ∙ e)) (λ o. refl)),
    )
