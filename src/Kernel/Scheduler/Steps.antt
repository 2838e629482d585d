-- ===== src/Kernel/Scheduler/Steps.antt =====
-- One step of the scheduler, of the clock and of a process (kernel/scheduler.c, drivers/timer.c) keeps the
-- invariant.
use linda.Base.{
  ℕ, suc, ◌≡◌, ◌≢◌, refl, sym, subst, Bool, true, false, Option, none, some, arith, ok, ◌==◌,
  if◌then◌else◌, get_elem?, ne→==, Bool-cases, inl, inr,
}
use linda.Mach.{v2p}
use linda.Kernel.Spinlock.{Cpu, Spinlock, pushcli, popcli, acquire, release}
use linda.Kernel.Process.{Pstate, Process}
use linda.Kernel.Scheduler.{
  Place, Saved, Sched, Linked, visit, scheduler_at, scheduler_step, with_lock, set_state,
  is_runable, switch_to_uvm, enter_uvm, switch_context, goto_scheduler, yield_cpu, saved_intena,
}
use linda.Kernel.Scheduler.Invariant.{
  HasSpace, InKernel, InProcess, Unlocked, Locked, Placed, IsSched, Sound, get_elem?-update,
  RunsOnly-started, RunsOnly-stopped, HasSpace-update,
}

pub acquire_free :
    (lock : Spinlock) (c : Cpu)
    → lock.locked ≡ 0
    → c.ncli ≡ 0
    → acquire (lock, c)
      ≡ ok (record { locked = 1 }, record { ncli = 1; intena = c.iflag; iflag = false })
unfolding acquire
acquire_free lock c e n = ground arith

pub release_held :
    (lock : Spinlock) (c : Cpu)
    → lock.locked ≡ 1
    → c.ncli ≡ 1
    → c.iflag ≡ false
    → release (lock, c)
      ≡ ok (record { locked = 0 }, record { ncli = 0; intena = c.intena; iflag = c.intena })
unfolding release
release_held lock c e n f = ground arith

nested :
    (c : Cpu)
    → c.ncli ≡ 1
    → c.iflag ≡ false
    → popcli (pushcli c) ≡ ok (record { ncli = 1; intena = c.intena; iflag = false })
unfolding popcli pushcli
nested c n f = ground arith

-- The state after switch_to_uvm of the process `p`.
unfoldable pub entered : Linked → Process → Sched → Sched
unfolding enter_uvm
entered l p s =
    enter_uvm l p
      (with_lock (s.table.lock, record { ncli = 1; intena = s.table.cpu.intena; iflag = false }) s)

switch_to_uvm_lem :
    (l : Linked) (p : Process) (s : Sched)
    → Locked s
    → (p.kstack ≢ 0) × (p.pgdir ≢ 0)
    → switch_to_uvm l (some p) s ≡ ok (entered l p s)
unfolding switch_to_uvm entered
switch_to_uvm_lem l p s (_, n, f) (a, b) =
    rw (ne→== p.kstack 0 a, ne→== p.pgdir 0 b, nested s.table.cpu n f) refl

-- The state in which the processor has gone on to the process `k`.
abbrev pub resumed : ℕ → Bool → Sched → Sched
resumed k b s =
    record (with_lock (record { locked = 0 }, record { ncli = 0; intena = b; iflag = true }) s) {
      at = Place.in_process k;
    }

switch_context_lem :
    (k : ℕ) (s : Sched) → Locked s → (b : Bool) × (switch_context k s ≡ ok (resumed k b s))
unfolding switch_context
switch_context_lem k s (e, n, f) =
    let b = saved_intena (s.context k) s.table.cpu.intena in
    (b, rw (release_held s.table.lock (record s.table.cpu { intena = b }) e n f) refl)

-- The state in which the scheduler has started the process `p` of entry `k`.
unfoldable pub started : Linked → ℕ → Process → Bool → Sched → Sched
unfolding entered
started l k p b s =
    resumed k b
      (entered l p (set_state k Pstate.running (record s { curprocess = some k; scheduler = k })))

pub visit_lem :
    (l : Linked) (k : ℕ) (s : Sched) (p : Process)
    → Locked s
    → is_runable p.state ≡ true
    → (p.kstack ≢ 0) × (p.pgdir ≢ 0)
    → (b : Bool) × (visit l k s (some p) ≡ ok (started l k p b s))
unfolding visit started
visit_lem l k s p lk r has =
    let s' = set_state k Pstate.running (record s { curprocess = some k; scheduler = k }) in
    let (b, e) = switch_context_lem k (entered l p s') (lk.0, refl, refl) in
    (b, rw (r, switch_to_uvm_lem l p s' lk has) e)

started-IsSched :
    (l : Linked) (k : ℕ) (p : Process) (b : Bool) (s : Sched)
    → HasSpace s.table.process
    → InKernel l s
    → get_elem? s.table.process k ≡ some p
    → is_runable p.state ≡ true
    → IsSched l (started l k p b s)
unfolding started
started-IsSched l k p b s sp i e r =
    let has = sp k p e r in
    let ps = s.table.process in
    (
      HasSpace-update ps k Pstate.running p e has sp,
      (
        (refl, refl),
        refl,
        (
          record p { state = Pstate.running },
          record {
            current = refl;
            entry = get_elem?-update ps k (λ q. record q { state = Pstate.running }) p e;
            runs = refl;
            only = RunsOnly-started ps k p e i.nobody;
            pgdir = refl;
            stack = refl;
            has = has;
          },
        ),
      ),
    )

pub visit_skip :
    (l : Linked) (k : ℕ) (s : Sched) (p : Process)
    → is_runable p.state ≡ false
    → visit l k s (some p) ≡ ok (record s { at = Place.looking (suc k) })
unfolding visit
visit_skip l k s p r = rw (r) refl

visit-Sound :
    (l : Linked) (k : ℕ) (s : Sched) (o : Option Process)
    → get_elem? s.table.process k ≡ o
    → HasSpace s.table.process
    → Locked s
    → InKernel l s
    → Sound l (visit l k s o)
unfolding visit
visit-Sound l k s none e sp (a, n, f) i =
    rw (release_held s.table.lock s.table.cpu a n f)
      (sp, ((refl, refl), record { nobody = i.nobody; space = i.space }))
visit-Sound l k s (some p) e sp lk i = elim (Bool-cases (is_runable p.state)) [
  | inl r ↦
      let (b, g) = visit_lem l k s p lk r (sp k p e r) in
      subst (Sound l) (sym g) (started-IsSched l k p b s sp i e r)
  | inr r ↦
      subst (Sound l) (sym (visit_skip l k s p r))
        (sp, (lk, record { nobody = i.nobody; space = i.space }))
]

scheduler_at-Sound :
    (l : Linked) (s : Sched) (at : Place)
    → HasSpace s.table.process
    → Placed l s at
    → s.at ≡ at
    → Sound l (scheduler_at l s at)
unfolding scheduler_at
scheduler_at-Sound l s Place.idle sp ((a, n), i) e =
    rw (acquire_free s.table.lock s.table.cpu a n)
      (sp, ((refl, refl, refl), record { nobody = i.nobody; space = i.space }))
scheduler_at-Sound l s (Place.looking k) sp (lk, i) e =
    visit-Sound l k s (get_elem? s.table.process k) refl sp lk i
scheduler_at-Sound l s (Place.in_process k) sp pl e = (sp, subst (Placed l s) (sym e) pl)

-- The state in which the process of entry `k` has given up the processor.
abbrev pub stopped : Linked → ℕ → Sched → Sched
stopped l k s =
    let s' =
      set_state k Pstate.runable
        (with_lock (record { locked = 1 }, record { ncli = 1; intena = false; iflag = false }) s) in
    record s' {
      context = λ j. if j == k then Saved.in_goto_scheduler false else s.context j;
      at = Place.looking (suc s.scheduler);
      cr3 = v2p l.kpgdir;
    }

pub yield_cpu_lem :
    (l : Linked) (k : ℕ) (p : Process) (s : Sched)
    → Unlocked s
    → s.table.cpu.iflag ≡ false
    → yield_cpu l k p s ≡ ok (stopped l k s)
unfolding yield_cpu goto_scheduler
yield_cpu_lem l k p s (a, n) f = rw (acquire_free s.table.lock s.table.cpu a n, f) refl

pub stopped-IsSched :
    (l : Linked) (k : ℕ) (p : Process) (s : Sched)
    → HasSpace s.table.process
    → InProcess k p s
    → IsSched l (stopped l k s)
stopped-IsSched l k p s sp i = (
  HasSpace-update s.table.process k Pstate.runable p i.entry i.has sp,
  (
    (refl, refl, refl),
    record { nobody = RunsOnly-stopped s.table.process k p i.entry i.only; space = refl },
  ),
)

pub scheduler_step-Sound : (l : Linked) (s : Sched) → IsSched l s → Sound l (scheduler_step l s)
unfolding scheduler_step
scheduler_step-Sound l s (sp, pl) = scheduler_at-Sound l s s.at sp pl refl
