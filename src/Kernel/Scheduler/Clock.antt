-- ===== src/Kernel/Scheduler/Clock.antt =====
-- An interrupt of the clock (drivers/timer.c) keeps the invariant of the scheduler.
use linda.Base.{
  ℕ, ◌≡◌, ◌≢◌, refl, sym, ap, ◌∙◌, subst, Bool, true, false, Option, none, some, Outcome, ok, ◌>>=◌,
  if◌then◌else◌, get_elem?,
}
use linda.Kernel.Spinlock.{Cpu, Spinlock, cli}
use linda.Kernel.Process.{Pstate, Process}
use linda.Kernel.Scheduler.{
  Place, Sched, Linked, handle, handle_process, timer_interrupt, with_lock, is_running, yield_cpu,
  iret,
}
use linda.Kernel.Scheduler.Invariant.{
  RunsOnly, HasSpace, InProcess, Unlocked, Placed, IsSched, Sound,
}
use linda.Kernel.Scheduler.Steps.{stopped, yield_cpu_lem, stopped-IsSched}

-- The place has no lock held.
abbrev NotLooking : Place → Type 0
NotLooking (Place.looking k) = ⊥
NotLooking _ = Unit

InProcess-with_lock :
    {k : ℕ} {p : Process} {s : Sched} (c : Spinlock × Cpu)
    → InProcess k p s
    → InProcess k p (with_lock c s)
InProcess-with_lock c i = record {
  current = i.current;
  entry = i.entry;
  runs = i.runs;
  only = i.only;
  pgdir = i.pgdir;
  stack = i.stack;
  has = i.has;
}

reflag :
    (l : Linked) (s : Sched) (at : Place) (c : Cpu)
    → NotLooking at
    → c.ncli ≡ s.table.cpu.ncli
    → Placed l s at
    → Placed l (with_lock (s.table.lock, c) s) at
reflag l s Place.idle c n g ((a, u), i) =
    ((a, g ∙ u), record { nobody = i.nobody; space = i.space })
reflag l s (Place.looking k) c n g pl = absurd n
reflag l s (Place.in_process k) c n g ((a, u), e, (p, i)) =
    ((a, g ∙ u), e, (p, InProcess-with_lock (s.table.lock, c) i))

-- What a process executes in the kernel changes `intena` only.
pub calls-IsSched :
    (l : Linked) (s : Sched) (k : ℕ) (b : Bool)
    → s.at ≡ Place.in_process k
    → IsSched l s
    → IsSched l (with_lock (s.table.lock, record s.table.cpu { intena = b }) s)
calls-IsSched l s k b e (sp, pl) =
    (sp, reflag l s s.at (record s.table.cpu { intena = b }) (subst NotLooking (sym e) tt) refl pl)

not_running : (state : Pstate) → state ≢ Pstate.running → is_running state ≡ false
not_running Pstate.unused n = refl
not_running Pstate.embryo n = refl
not_running Pstate.runable n = refl
not_running Pstate.running n = absurd (n refl)
not_running Pstate.sleeping n = refl
not_running Pstate.zombie n = refl

handle_process-idle :
    (l : Linked) (k : ℕ) (s : Sched) (o : Option Process)
    → get_elem? s.table.process k ≡ o
    → RunsOnly (λ _. ⊥) s.table.process
    → handle_process l k s o ≡ ok s
unfolding handle_process
handle_process-idle l k s none e n = refl
handle_process-idle l k s (some p) e n = rw (not_running p.state (n k p e)) refl

-- The clock finds the scheduler between two rounds: nobody is running, and its handler returns.
handle-idle :
    (l : Linked) (s : Sched) (o : Option ℕ)
    → RunsOnly (λ _. ⊥) s.table.process
    → handle l s o ≡ ok s
unfolding handle
handle-idle l s none n = refl
handle-idle l s (some k) n = handle_process-idle l k s (get_elem? s.table.process k) refl n

-- The state in the handler of an interrupt.
abbrev pub interrupted : Sched → Sched
interrupted s = with_lock (s.table.lock, cli s.table.cpu) s

timer_interrupt-idle :
    (l : Linked) (s : Sched)
    → RunsOnly (λ _. ⊥) s.table.process
    → timer_interrupt l s ≡ ok (iret (interrupted s) s.at)
unfolding timer_interrupt
timer_interrupt-idle l s n =
    ap (λ (o : Outcome Sched). o >>= λ s'. ok (iret s' s'.at))
      (handle-idle l (interrupted s) s.curprocess n)

handle_process-runs :
    (l : Linked) (k : ℕ) (s : Sched) (p : Process)
    → p.state ≡ Pstate.running
    → handle_process l k s (some p) ≡ yield_cpu l k p s
unfolding handle_process
handle_process-runs l k s p r =
    ap (λ (st : Pstate). if is_running st then yield_cpu l k p s else ok s) r

handle-InProcess :
    (l : Linked) (s : Sched) (k : ℕ) (p : Process)
    → Unlocked s
    → s.table.cpu.iflag ≡ false
    → InProcess k p s
    → handle l s s.curprocess ≡ ok (stopped l k s)
unfolding handle
handle-InProcess l s k p u f i =
    ap (handle l s) i.current
    ∙ ap (handle_process l k s) i.entry
    ∙ handle_process-runs l k s p i.runs
    ∙ yield_cpu_lem l k p s u f

-- The clock takes the processor from the process that runs.
pub timer_interrupt-InProcess :
    (l : Linked) (s : Sched) (k : ℕ) (p : Process)
    → Unlocked s
    → InProcess k p s
    → timer_interrupt l s ≡ ok (stopped l k (interrupted s))
unfolding timer_interrupt
timer_interrupt-InProcess l s k p u i =
    ap (λ (o : Outcome Sched). o >>= λ t. ok (iret t t.at))
      (handle-InProcess l (interrupted s) k p u refl (InProcess-with_lock _ i))

timer_at-Sound :
    (l : Linked) (s : Sched) (at : Place)
    → s.at ≡ at
    → s.table.cpu.iflag ≡ true
    → HasSpace s.table.process
    → Placed l s at
    → Sound l (timer_interrupt l s)
unfolding iret
timer_at-Sound l s Place.idle e c sp (u, i) =
    let back : Cpu = record s.table.cpu { iflag = true } in
    let resumed : IsSched l (with_lock (s.table.lock, back) s) = (
      sp,
      subst (Placed l (with_lock (s.table.lock, back) s)) (sym e)
          (reflag l s Place.idle back tt refl (u, i)),
    ) in
    subst (Sound l)
      (sym (timer_interrupt-idle l s i.nobody ∙ ap (λ (a : Place). ok (iret (interrupted s) a)) e))
      resumed
timer_at-Sound l s (Place.looking k) e c sp ((_, _, f), i) = cc
timer_at-Sound l s (Place.in_process k) e c sp (u, _, (p, i)) =
    subst (Sound l) (sym (timer_interrupt-InProcess l s k p u i))
      (stopped-IsSched l k p (interrupted s) sp (InProcess-with_lock _ i))

pub timer_interrupt-Sound :
    (l : Linked) (s : Sched)
    → s.table.cpu.iflag ≡ true
    → IsSched l s
    → Sound l (timer_interrupt l s)
timer_interrupt-Sound l s c (sp, pl) = timer_at-Sound l s s.at refl c sp pl
