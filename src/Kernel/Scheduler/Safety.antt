-- ===== src/Kernel/Scheduler/Safety.antt =====
-- What holds of the scheduler (kernel/scheduler.c) in every reachable state.
use linda.Base.{Outcome}
use linda.Kernel.Scheduler.{Sched, Linked, Step, Reach}
use linda.Kernel.Scheduler.Invariant.{IsSched, Sound}
use linda.Kernel.Scheduler.Steps.{scheduler_step-Sound}
use linda.Kernel.Scheduler.Clock.{timer_interrupt-Sound, calls-IsSched}

Step-Sound : {l : Linked} {s : Sched} {r : Outcome Sched} → IsSched l s → Step l s r → Sound l r
Step-Sound {l} {s} i Step.schedules = scheduler_step-Sound l s i
Step-Sound {l} {s} i (Step.clock c) = timer_interrupt-Sound l s c i
Step-Sound {l} {s} i (Step.calls k b e) = calls-IsSched l s k b e i

-- In whatever order the scheduler, the clock and the processes make their steps, none of them panics or
-- hangs, and the invariant holds: the lock of the table is held exactly while the scheduler looks at the
-- table, with one pushcli open and interrupts off; then no process is RUNNING and cr3 holds the kernel's
-- directory. While a process has the processor it is the current process and the only one that is
-- RUNNING, and cr3 and esp0 are its page directory and the end of its kernel stack. It holds from a state
-- with the invariant on, in which every RUNABLE process has a kernel stack and a page directory.
pub Reach-Sound :
    {l : Linked} {s : Sched} {r : Outcome Sched} → IsSched l s → Reach l s r → Sound l r
Reach-Sound i Reach.here = i
Reach-Sound i (Reach.later r step) = Step-Sound (Reach-Sound i r) step
