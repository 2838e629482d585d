-- ===== src/Kernel/Scheduler/RoundRobin.antt =====
-- The order in which the processes get the processor (kernel/scheduler.c, drivers/timer.c).
use linda.Base.{
  ℕ, zero, suc, ◌+◌, ◌≡◌, refl, ap, ◌∙◌, subst, true, false, List, some, arith, Outcome, ok, panic,
  hang, overrun, ◌>>=◌, get_elem?, length, lt-length_of_some, ◌⊎◌, inl, inr,
}
use linda.Kernel.Process.{Pstate, Process}
use linda.Kernel.Scheduler.{
  Place, Sched, Linked, scheduler_step, scheduler_at, is_runable, with_lock,
}
use linda.Kernel.Scheduler.Invariant.{IsSched, Sound, Placed}
use linda.Kernel.Scheduler.Steps.{acquire_free}
use linda.Kernel.Scheduler.{timer_interrupt}
use linda.Kernel.Scheduler.Invariant.{get_elem?-update}
use linda.Kernel.Scheduler.Steps.{stopped}
use linda.Kernel.Scheduler.Clock.{timer_interrupt-InProcess, timer_interrupt-Sound, interrupted}
use linda.Kernel.Scheduler.Progress.{run, NoneRunable, First, Sweep, sweep, run_first, Sound-step}

run_plus : (n m : ℕ) (l : Linked) (s : Sched) → run (n + m) l s ≡ (run n l s >>= run m l)
unfolding run
run_plus zero m l s = ap (λ (i : ℕ). run i l s) (omega arith)
run_plus (suc n) m l s =
    let at : suc n + m ≡ suc (n + m) = omega arith in
    ap (λ (i : ℕ). run i l s) at
    ∙ elim (scheduler_step l s)
        as (λ (o : Outcome Sched). (o >>= run (n + m) l) ≡ ((o >>= run n l) >>= run m l)) [
          | ok t ↦ run_plus n m l t
          | panic ↦ refl
          | hang ↦ refl
          | overrun ↦ refl
        ]

run_then :
    (n m : ℕ) (l : Linked) (s t : Sched) (r : Outcome Sched)
    → run n l s ≡ ok t
    → run m l t ≡ r
    → run (n + m) l s ≡ r
run_then n m l s t r e g = run_plus n m l s ∙ ap (λ (o : Outcome Sched). o >>= run m l) e ∙ g

-- The process of entry `j` is the first that can be chosen, going round the table from entry `k` on.
abbrev pub Chosen : ℕ → ℕ → List Process → Type 0
Chosen k j ps = First k j ps ⊎ (NoneRunable k (length ps) ps × First 0 j ps)

-- The scheduler has given the processor to the process of entry `j`.
abbrev pub Dispatched : Linked → ℕ → Sched → Type 0
Dispatched l k s =
    (n : ℕ) × ((t : Sched) × (run n l s ≡ ok t)
      × IsSched l t
      × ((j : ℕ) × Chosen k j s.table.process × (t.at ≡ Place.in_process j)))

-- The scheduler takes the lock for another round.
next_round : Sched → Sched
next_round s =
    record (with_lock
      (record { locked = 1 }, record { ncli = 1; intena = s.table.cpu.iflag; iflag = false }) s) {
        at = Place.looking 0;
      }

idle_step :
    (l : Linked) (s : Sched)
    → IsSched l s
    → s.at ≡ Place.idle
    → scheduler_step l s ≡ ok (next_round s)
unfolding scheduler_step next_round
idle_step l s (_, pl) e =
    let ((a, n), _) : Placed l s Place.idle = subst (Placed l s) e pl in
    ap (scheduler_at l s) e ∙ rw (acquire_free s.table.lock s.table.cpu a n) refl

dispatch :
    (l : Linked) (k : ℕ) (s : Sched) (i : ℕ) (p : Process)
    → IsSched l s
    → s.at ≡ Place.looking k
    → get_elem? s.table.process i ≡ some p
    → is_runable p.state ≡ true
    → Dispatched l k s
unfolding run next_round
dispatch l k s i p inv e g r = first (sweep l (length s.table.process) k s (omega arith) inv e)
  where
    second :
        (n : ℕ) (t : Sched)
        → run n l s ≡ ok t
        → t.table.process ≡ s.table.process
        → NoneRunable k (length s.table.process) s.table.process
        → Sweep l 0 t
        → Dispatched l k s
    second n t e' same none_after (m, (u, f, inv', inl (j, w, at))) = (
      n + m,
      (
        u,
        run_then n m l s t (ok u) e' f,
        inv',
        (j, inr (none_after, subst (First 0 j) same w), at),
      ),
    )
    second n t e' same none_after (m, (u, f, inv', inr (_, _, nobody))) =
        let none_at_all =
          subst (λ (ps : List Process). NoneRunable 0 (length ps) ps) same nobody i p (omega arith)
            (lt-length_of_some s.table.process i p g) g in
        absurd (cc (none_at_all, r))

    first : Sweep l k s → Dispatched l k s
    first (n, (t, e', inv', inl (j, w, at))) = (n, (t, e', inv', (j, inl w, at)))
    first (n, (t, e', inv', inr (at, same, none_after))) =
        let step = idle_step l t inv' at in
        second (n + 1) (next_round t) (run_then n 1 l s t _ e' (run_first l 0 t _ step)) same
          none_after
          (sweep l (length t.table.process) 0 (next_round t) (omega arith)
            (Sound-step l t _ inv' step) refl)

-- When the clock interrupts a process, the process is RUNABLE again, and after some number of steps of
-- the scheduler the processor executes a process again: the first one that is RUNABLE, going round the
-- table from the entry behind the interrupted process, which itself comes last. It holds in every state
-- with the invariant in which a process has the processor and interrupts are on.
pub clock-Dispatched :
    (l : Linked) (s : Sched) (k : ℕ)
    → IsSched l s
    → s.at ≡ Place.in_process k
    → s.table.cpu.iflag ≡ true
    → (t : Sched) × (timer_interrupt l s ≡ ok t)
      × ((p : Process) × (get_elem? t.table.process k ≡ some p) × (p.state ≡ Pstate.runable))
      × Dispatched l (suc k) t
clock-Dispatched l s k inv e c =
    let (u, same, (p, i)) : Placed l s (Place.in_process k) = subst (Placed l s) e inv.1 in
    let t = stopped l k (interrupted s) in
    let yields = timer_interrupt-InProcess l s k p u i in
    let entry =
      get_elem?-update s.table.process k (λ q. record q { state = Pstate.runable }) p i.entry in
    (
      t,
      yields,
      (record p { state = Pstate.runable }, entry, refl),
      dispatch l (suc k) t k (record p { state = Pstate.runable })
          (subst (Sound l) yields (timer_interrupt-Sound l s c inv))
          (ap (λ (i' : ℕ). Place.looking (suc i')) same) entry refl,
    )
