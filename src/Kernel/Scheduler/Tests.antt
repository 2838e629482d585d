-- ===== src/Kernel/Scheduler/Tests.antt =====
-- The scheduler on small tables.
use linda.Base.{
  ℕ, zero, suc, ◌+◌, ◌*◌, ◌≡◌, ◌≢◌, refl, sym, subst, true, false, List, [], ◌∷◌, Option, none,
  some, arith, Outcome, ok, ◌>>=◌, get_elem?,
}
use linda.Mach.{v2p}
use linda.Kernel.Spinlock.{Cpu}
use linda.Kernel.Process.{Pstate, Process, Ptable}
use linda.Kernel.Scheduler.{
  Place, Saved, Sched, Linked, Step, Reach, scheduler_step, timer_interrupt, tss_segment,
}
use linda.Kernel.Scheduler.Invariant.{IsSched, Sound, HasSpace}
use linda.Kernel.Scheduler.Safety.{Reach-Sound}
use linda.Kernel.Scheduler.Progress.{run}
use linda.Kernel.Scheduler.RoundRobin.{Dispatched, clock-Dispatched}

abbrev entry_of : Pstate → ℕ → Process
entry_of state n = record {
  size = 4096;
  pid = n;
  context = 0;
  kstack = 0xC0000000 + 4096 * n;
  pgdir = 0xC0100000 + 4096 * n;
  state = state;
  parent = none;
  tf = 0;
  killed = 0;
}

abbrev linked : Linked
linked = record { kpgdir = 0xC0108000; tss = 0xC0109000 }

-- Three processes: the first is unused, the second has state `a`, the third is runable.
abbrev table_of : Pstate → ℕ → Cpu → Ptable
table_of a locked cpu = record {
  lock = record { locked = locked };
  cpu = cpu;
  process = entry_of Pstate.unused 0 ∷ entry_of a 1 ∷ entry_of Pstate.runable 2 ∷ [];
  nextpid = 3;
  kvmlist = [];
  mem = λ _. 0;
}

abbrev booted : Sched
booted = record {
  table = table_of Pstate.runable 0 (record { ncli = 0; intena = false; iflag = true });
  curprocess = none;
  context = λ _. Saved.in_forkret;
  scheduler = 0;
  tss = record { ss0 = 0; esp0 = 0; iomb = 0 };
  gdt_tss = tss_segment 0;
  cr3 = 0x108000;
  at = Place.idle;
}

-- Process 1 has the processor.
abbrev busy : Sched
busy = record booted {
  table = table_of Pstate.running 0 (record { ncli = 0; intena = true; iflag = true });
  curprocess = some 1;
  scheduler = 1;
  tss = record { ss0 = 16; esp0 = 0xC0002000; iomb = 0xFFFF };
  gdt_tss = tss_segment 0xC0109000;
  cr3 = 0x101000;
  at = Place.in_process 1;
}

-- The scheduler starts process 1 in three steps, and after the clock process 2 in one more.
abbrev place : Outcome Sched → Option Place
place (ok s) = some s.at
place _ = none

boot_runs : place (run 3 linked booted) ≡ some (Place.in_process 1)
unfolding run scheduler_step
boot_runs = refl

clock_yields : place (timer_interrupt linked busy >>= run 1 linked) ≡ some (Place.in_process 2)
unfolding run scheduler_step timer_interrupt
clock_yields = refl

-- What holds of each entry of a list holds of the one at an index.
abbrev Each : (ℕ → Process → Type 0) → ℕ → List Process → Type 0
Each P n [] = Unit
Each P n (p ∷ ps) = P n p × Each P (suc n) ps

each_entry :
    (P : ℕ → Process → Type 0) (n : ℕ) (ps : List Process)
    → Each P n ps
    → (j : ℕ) (p : Process) → get_elem? ps j ≡ some p
    → P (n + j) p
each_entry P n [] a j p e = cc
each_entry P n (x ∷ ps) (a, rest) zero p e =
    let at : n + 0 ≡ n = omega arith in
    let same : p ≡ x = cc e in subst (λ (m : ℕ). P m p) (sym at) (subst (P n) (sym same) a)
each_entry P n (x ∷ ps) (a, rest) (suc j) p e =
    let at : suc n + j ≡ n + suc j = omega arith in
    subst (λ (m : ℕ). P m p) at (each_entry P (suc n) ps rest j p e)

abbrev HasSpaceAt : ℕ → Process → Type 0
HasSpaceAt j p = (p.kstack ≢ 0) × (p.pgdir ≢ 0)

booted-HasSpace : HasSpace booted.table.process
booted-HasSpace j p e r =
    each_entry HasSpaceAt 0 booted.table.process
      ((omega arith, omega arith), ((omega arith, omega arith), ((omega arith, omega arith), tt))) j
      p e

booted-IsSched : IsSched linked booted
unfolding v2p
booted-IsSched = (
  booted-HasSpace,
  (
    (refl, refl),
    record {
      nobody =
          each_entry (λ j p. p.state ≢ Pstate.running) 0 booted.table.process
            ((λ e. cc), ((λ e. cc), ((λ e. cc), tt)));
      space = refl;
    },
  ),
)

busy-IsSched : IsSched linked busy
unfolding v2p
busy-IsSched = (
  λ j p e r.
      each_entry HasSpaceAt 0 busy.table.process
        ((omega arith, omega arith), ((omega arith, omega arith), ((omega arith, omega arith), tt)))
        j p e,
  (
    (refl, refl),
    refl,
    (
      entry_of Pstate.running 1,
      record {
        current = refl;
        entry = refl;
        runs = refl;
        only = λ j p e r.
            let at : 0 + j ≡ 1 =
              each_entry (λ i q. q.state ≡ Pstate.running → i ≡ 1) 0 busy.table.process
                ((λ x. cc), ((λ x. refl), ((λ x. cc), tt))) j p e r in
            omega (arith, at);
        pgdir = refl;
        stack = refl;
        has = (omega arith, omega arith);
      },
    ),
  ),
)

Reach-Sound_example : Sound linked (scheduler_step linked booted)
Reach-Sound_example =
    Reach-Sound {l = linked} {s = booted} {r = scheduler_step linked booted} booted-IsSched
      (Reach.later Reach.here Step.schedules)

clock-Dispatched_example :
    (t : Sched) × (timer_interrupt linked busy ≡ ok t)
    × ((p : Process) × (get_elem? t.table.process 1 ≡ some p) × (p.state ≡ Pstate.runable))
    × Dispatched linked 2 t
clock-Dispatched_example = clock-Dispatched linked busy 1 busy-IsSched refl refl
