-- ===== src/Kernel/Scheduler/Invariant.antt =====
-- The scheduler (kernel/scheduler.c) in every reachable state: who runs, who holds the lock of the table,
-- and whose page directory and stack the processor has.
use linda.Base.{
  ℕ, ◌≡◌, ◌≢◌, sym, ap, ◌∙◌, subst, true, false, List, Option, none, some, ◌⊎◌, inl, inr,
  ℕ_discrete, Outcome, ok, get_elem?, set, get_elem?-set_self, get_elem?-set_ne, lt-length_of_some,
}
use linda.Mach.{v2p, add32, kstacksize}
use linda.Kernel.Process.{Pstate, Process, update}
use linda.Kernel.Scheduler.{Place, Sched, Linked, is_runable}

abbrev pub RunsOnly : (ℕ → Type 0) → List Process → Type 0
RunsOnly P ps = (j : ℕ) (p : Process) → get_elem? ps j ≡ some p → p.state ≡ Pstate.running → P j

-- A process that can be chosen has a kernel stack and a page directory.
abbrev pub HasSpace : List Process → Type 0
HasSpace ps =
    (j : ℕ) (p : Process)
    → get_elem? ps j ≡ some p
    → is_runable p.state ≡ true
    → (p.kstack ≢ 0) × (p.pgdir ≢ 0)

-- The processor runs the scheduler: no process is running, and cr3 holds the kernel's directory.
pub record InKernel (l : Linked) (s : Sched) : Type 0 where
  pub nobody : RunsOnly (λ _. ⊥) s.table.process
  pub space : s.cr3 ≡ v2p l.kpgdir

-- The processor runs process `k`: it is the current process and the only one that is running, and the
-- processor has its page directory and its kernel stack.
pub record InProcess (k : ℕ) (p : Process) (s : Sched) : Type 0 where
  pub current : s.curprocess ≡ some k
  pub entry : get_elem? s.table.process k ≡ some p
  pub runs : p.state ≡ Pstate.running
  pub only : RunsOnly (λ j. j ≡ k) s.table.process
  pub pgdir : s.cr3 ≡ v2p p.pgdir
  pub stack : s.tss.esp0 ≡ add32 p.kstack kstacksize
  pub has : (p.kstack ≢ 0) × (p.pgdir ≢ 0)

abbrev pub Unlocked : Sched → Type 0
Unlocked s = (s.table.lock.locked ≡ 0) × (s.table.cpu.ncli ≡ 0)

abbrev pub Locked : Sched → Type 0
Locked s = (s.table.lock.locked ≡ 1) × (s.table.cpu.ncli ≡ 1) × (s.table.cpu.iflag ≡ false)

abbrev pub Placed : Linked → Sched → Place → Type 0
Placed l s Place.idle = Unlocked s × InKernel l s
Placed l s (Place.looking k) = Locked s × InKernel l s
Placed l s (Place.in_process k) = Unlocked s × (s.scheduler ≡ k) × ((p : Process) × InProcess k p s)

abbrev pub IsSched : Linked → Sched → Type 0
IsSched l s = HasSpace s.table.process × Placed l s s.at

-- A step ends in a state with the invariant, and neither panics nor hangs.
abbrev pub Sound : Linked → Outcome Sched → Type 0
Sound l (ok s) = IsSched l s
Sound l _ = ⊥

update-some :
    (ps : List Process) (k : ℕ) (f : Process → Process) (p : Process)
    → get_elem? ps k ≡ some p
    → update k f ps ≡ set ps k (f p)
update-some ps k f p e =
    ap
      (λ (o : Option Process). elim o as (λ _. List Process) [
        | none ↦ ps
        | some q ↦ set ps k (f q)
      ])
      e

pub get_elem?-update :
    (ps : List Process) (k : ℕ) (f : Process → Process) (p : Process)
    → get_elem? ps k ≡ some p
    → get_elem? (update k f ps) k ≡ some (f p)
get_elem?-update ps k f p e =
    ap (λ (qs : List Process). get_elem? qs k) (update-some ps k f p e)
    ∙ get_elem?-set_self ps k (f p) (lt-length_of_some ps k p e)

-- An entry after an update is the updated one, or one from before.
update_cases :
    (ps : List Process) (k j : ℕ) (f : Process → Process) (p q : Process)
    → get_elem? ps k ≡ some p
    → get_elem? (update k f ps) j ≡ some q
    → ((j ≡ k) × (q ≡ f p)) ⊎ ((j ≢ k) × (get_elem? ps j ≡ some q))
update_cases ps k j f p q e h = elim (ℕ_discrete j k) [
  | yes same ↦ inl (same, cc (h, same, get_elem?-update ps k f p e))
  | no other ↦ inr (
    other,
    sym (get_elem?-set_ne ps (f p) (λ (g : k ≡ j). other (sym g)))
        ∙ ap (λ (qs : List Process). get_elem? qs j) (sym (update-some ps k f p e))
        ∙ h,
  )
]

-- The state of one process is set.
abbrev with_state : Pstate → Process → Process
with_state state p = record p { state = state }

pub RunsOnly-started :
    (ps : List Process) (k : ℕ) (p : Process)
    → get_elem? ps k ≡ some p
    → RunsOnly (λ _. ⊥) ps
    → RunsOnly (λ j. j ≡ k) (update k (with_state Pstate.running) ps)
RunsOnly-started ps k p e n j q h r =
    elim (update_cases ps k j (with_state Pstate.running) p q e h) [
      | inl (same, _) ↦ same
      | inr (_, old) ↦ absurd (n j q old r)
    ]

pub RunsOnly-stopped :
    (ps : List Process) (k : ℕ) (p : Process)
    → get_elem? ps k ≡ some p
    → RunsOnly (λ j. j ≡ k) ps
    → RunsOnly (λ _. ⊥) (update k (with_state Pstate.runable) ps)
RunsOnly-stopped ps k p e n j q h r =
    elim (update_cases ps k j (with_state Pstate.runable) p q e h) [
      | inl (_, new) ↦ cc (new, r)
      | inr (other, old) ↦ other (n j q old r)
    ]

pub HasSpace-update :
    (ps : List Process) (k : ℕ) (state : Pstate) (p : Process)
    → get_elem? ps k ≡ some p
    → (p.kstack ≢ 0) × (p.pgdir ≢ 0)
    → HasSpace ps
    → HasSpace (update k (with_state state) ps)
HasSpace-update ps k state p e has n j q h r =
    elim (update_cases ps k j (with_state state) p q e h) [
      | inl (_, new) ↦ subst (λ (x : Process). (x.kstack ≢ 0) × (x.pgdir ≢ 0)) (sym new) has
      | inr (_, old) ↦ n j q old r
    ]
