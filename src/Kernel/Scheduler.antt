-- ===== src/Kernel/Scheduler.antt =====
-- kernel/scheduler.c, drivers/timer.c and the switches of mm/mmap.c: the scheduler, the processes that it
-- switches to, and the clock that takes the processor from them. There is one processor. Its state says
-- which code it executes; a stack that is not executed is kept as the place at which it goes on. What a
-- process computes is not part of the state.
pub mod Invariant
pub mod Steps
pub mod Clock
pub mod Safety
pub mod Progress
pub mod RoundRobin
mod Tests
use linda.Base.{
  ℕ, zero, suc, ◌+◌, ◌-◌, ◌*◌, Bool, true, false, List, [], ◌∷◌, Option, none, some, Outcome, ok,
  panic, hang, ◌>>=◌, ◌==◌, if◌then◌else◌, get_elem?, ◌≡◌,
}
use linda.Mach.{SegDesc, seg16, kstacksize, v2p, add32}
use linda.Kernel.Spinlock.{Cpu, Spinlock, holding, pushcli, popcli, acquire, release, cli, sti}
use linda.Kernel.Process.{Pstate, Process, Ptable, update}

-- Which code the processor executes: the scheduler without the lock, between two rounds; its loop at
-- an entry of the table, with the lock; or the process of an entry.
pub data Place : Type 0 where
  idle : Place
  looking : ℕ → Place
  in_process : ℕ → Place

-- `context` of a process: it has not run and goes on in forkret, or it goes on in goto_scheduler with
-- the local variable `intena`.
pub data Saved : Type 0 where
  in_forkret : Saved
  in_goto_scheduler : Bool → Saved

-- The fields of `struct taskstate` that switch_to_uvm writes.
pub record Taskstate : Type 0 where
  pub ss0 : ℕ
  pub esp0 : ℕ
  pub iomb : ℕ

-- `curcpu` (its `ncli` and `intena` are in `table.cpu`), `ptable`, the register cr3 and the contexts.
-- `scheduler` is the entry at which the scheduler's loop switched to a process.
pub record Sched : Type 0 where
  pub table : Ptable
  pub curprocess : Option ℕ
  pub context : ℕ → Saved
  pub scheduler : ℕ
  pub tss : Taskstate
  pub gdt_tss : SegDesc
  pub cr3 : ℕ
  pub at : Place

-- Addresses that the linker chooses: kpgdir, and the task state of the processor.
pub record Linked : Type 0 where
  pub kpgdir : ℕ
  pub tss : ℕ

abbrev pub is_runable : Pstate → Bool
is_runable Pstate.runable = true
is_runable _ = false

abbrev pub is_running : Pstate → Bool
is_running Pstate.running = true
is_running _ = false

abbrev pub set_state : ℕ → Pstate → Sched → Sched
set_state k state s = record s {
  table = record s.table { process = update k (λ p. record p { state = state }) s.table.process };
}

abbrev pub with_lock : Spinlock × Cpu → Sched → Sched
with_lock (lock, cpu) s = record s { table = record s.table { lock = lock; cpu = cpu } }

-- SEG16(STS_T32A, &tss, sizeof(struct taskstate)-1, 0), as a system segment
abbrev pub tss_segment : ℕ → SegDesc
tss_segment tss = record (seg16 9 tss 103 0) { s = 0 }

unfoldable pub switch_to_kvm : Linked → Sched → Sched
switch_to_kvm l s = record s { cr3 = v2p l.kpgdir }

-- switch_to_uvm between pushcli and popcli
unfoldable pub enter_uvm : Linked → Process → Sched → Sched
enter_uvm l p s = record s {
  gdt_tss = tss_segment l.tss;
  tss = record { ss0 = 2 * 8; esp0 = add32 p.kstack kstacksize; iomb = 0xFFFF };
  cr3 = v2p p.pgdir;
}

unfoldable pub switch_to_uvm : Linked → Option Process → Sched → Outcome Sched
unfolding enter_uvm pushcli popcli
switch_to_uvm l none s = panic
switch_to_uvm l (some p) s =
    if p.kstack == 0
    then panic
    else if p.pgdir == 0
    then panic
    else popcli (pushcli s.table.cpu) >>= λ cpu.
        ok (enter_uvm l p (with_lock (s.table.lock, cpu) s))

-- `intena` when a process goes on in forkret or in goto_scheduler.
unfoldable pub saved_intena : Saved → Bool → Bool
saved_intena Saved.in_forkret intena = intena
saved_intena (Saved.in_goto_scheduler saved) intena = saved

-- What a process executes when it is switched to, up to the return to the code that it was in: forkret
-- and trapret, or the rest of goto_scheduler, of yield_cpu and of the interrupt. In both cases `iret`
-- sets the interrupt flag: a new process has FL_IF in its frame, and the clock interrupted the other.
unfoldable pub switch_context : ℕ → Sched → Outcome Sched
unfolding release saved_intena
switch_context k s =
    release
      (s.table.lock, record s.table.cpu { intena = saved_intena (s.context k) s.table.cpu.intena })
    >>= λ c. ok (record (with_lock (c.0, sti c.1) s) { at = Place.in_process k })

-- The body of the scheduler's loop at the entry `k`, or the release behind the last one.
unfoldable pub visit : Linked → ℕ → Sched → Option Process → Outcome Sched
unfolding release switch_to_uvm switch_context
visit l k s none =
    release (s.table.lock, s.table.cpu) >>= λ c. ok (record (with_lock c s) { at = Place.idle })
visit l k s (some p) =
    if is_runable p.state
    then (switch_to_uvm l (some p)
          (set_state k Pstate.running (record s { curprocess = some k; scheduler = k }))
        >>= switch_context k)
    else ok (record s { at = Place.looking (suc k) })

unfoldable pub scheduler_at : Linked → Sched → Place → Outcome Sched
unfolding acquire visit
scheduler_at l s Place.idle = acquire (s.table.lock, s.table.cpu) >>= λ c.
    ok (record (with_lock c s) { at = Place.looking 0 })
scheduler_at l s (Place.looking k) = visit l k s (get_elem? s.table.process k)
scheduler_at l s (Place.in_process k) = ok s

-- scheduler: one round of its loop over the table, or the acquire or release around the rounds.
unfoldable pub scheduler_step : Linked → Sched → Outcome Sched
unfolding scheduler_at
scheduler_step l s = scheduler_at l s s.at

-- goto_scheduler up to switch_context, and what the scheduler does from there to its next round.
unfoldable pub goto_scheduler : Linked → ℕ → Process → Sched → Outcome Sched
unfolding switch_to_kvm holding
goto_scheduler l k p s =
    if holding s.table.lock
    then (if s.table.cpu.ncli == 1
        then (if s.table.cpu.iflag
            then panic
            else if is_running p.state
            then panic
            else ok (
                switch_to_kvm l (record s {
                  context = λ j.
                      if j == k then Saved.in_goto_scheduler s.table.cpu.intena else s.context j;
                  at = Place.looking (suc s.scheduler);
                })))
        else panic)
    else panic

unfoldable pub yield_cpu : Linked → ℕ → Process → Sched → Outcome Sched
unfolding acquire goto_scheduler
yield_cpu l k p s = acquire (s.table.lock, s.table.cpu) >>= λ c.
    goto_scheduler l k (record p { state = Pstate.runable })
      (set_state k Pstate.runable (with_lock c s))

-- A pointer to a process is an index of the table.
unfoldable pub handle_process : Linked → ℕ → Sched → Option Process → Outcome Sched
unfolding yield_cpu
handle_process l k s none = ok s
handle_process l k s (some p) = if is_running p.state then yield_cpu l k p s else ok s

unfoldable pub handle : Linked → Sched → Option ℕ → Outcome Sched
unfolding handle_process
handle l s none = ok s
handle l s (some k) = handle_process l k s (get_elem? s.table.process k)

unfoldable pub timer_handler : Linked → Sched → Outcome Sched
unfolding handle
timer_handler l s = handle l s s.curprocess

-- The return from the interrupt, if its handler has not switched to the scheduler.
unfoldable pub iret : Sched → Place → Sched
iret s (Place.looking k) = s
iret s _ = with_lock (s.table.lock, sti s.table.cpu) s

-- An interrupt of the clock: the gate clears the interrupt flag.
unfoldable pub timer_interrupt : Linked → Sched → Outcome Sched
unfolding timer_handler iret
timer_interrupt l s =
    timer_handler l (with_lock (s.table.lock, cli s.table.cpu) s) >>= λ s'. ok (iret s' s'.at)

-- What may happen next. The code that a process executes in the kernel opens and closes its critical
-- sections: at its end only `intena` may be another.
pub data Step (l : Linked) (s : Sched) : Outcome Sched → Type 0 where
  schedules : Step l s (scheduler_step l s)
  clock : s.table.cpu.iflag ≡ true → Step l s (timer_interrupt l s)
  calls :
      (k : ℕ) (b : Bool)
      → s.at ≡ Place.in_process k
      → Step l s (ok (with_lock (s.table.lock, record s.table.cpu { intena = b }) s))

pub data Reach (l : Linked) (s : Sched) : Outcome Sched → Type 0 where
  here : Reach l s (ok s)
  later : {t : Sched} {r : Outcome Sched} → Reach l s (ok t) → Step l t r → Reach l s r
