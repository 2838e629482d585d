-- ===== src/Kernel/Spinlock.antt =====
-- kernel/spinlock.c, with the part of `struct cpu` (include/kernel/scheduler.h) that it uses.
-- There is one processor. Its interrupt flag is the bit FL_IF of `eflags`; a lock's name is
-- used by messages only, and left out.
pub mod Sections
mod Tests
use linda.Base.{ℕ, zero, suc, ◌+◌, ◌-◌, Bool, true, false, Outcome, ok, panic, hang, ◌>>=◌}
use linda.Base.{◌==◌, if◌then◌else◌}

pub record Cpu : Type 0 where
  pub ncli : ℕ
  pub intena : Bool
  pub iflag : Bool

pub record Spinlock : Type 0 where
  pub locked : ℕ

unfoldable pub initlock : Spinlock → Spinlock
initlock lock = record lock { locked = 0 }

unfoldable pub holding : Spinlock → Bool
holding lock = if lock.locked == 0 then false else true

-- generic.h: cli, sti
abbrev pub cli : Cpu → Cpu
cli c = record c { iflag = false }

abbrev pub sti : Cpu → Cpu
sti c = record c { iflag = true }

unfoldable pub pushcli : Cpu → Cpu
pushcli c =
    let c' = cli c in
    let c'' = if c.ncli == 0 then record c' { intena = c.iflag } else c' in
    record c'' { ncli = c''.ncli + 1 }

-- `--ncli < 0` holds exactly when `ncli` was 0.
unfoldable pub popcli : Cpu → Outcome Cpu
popcli c =
    if c.iflag
    then panic
    else if c.ncli == 0
    then panic
    else let c' = record c { ncli = c.ncli - 1 } in
      if c'.ncli == 0 then (if c'.intena then ok (sti c') else ok c') else ok c'

-- generic.h: xchg, the old value and the lock with the new one
unfoldable pub xchg : Spinlock → ℕ → ℕ × Spinlock
xchg lock v = (lock.locked, record lock { locked = v })

-- `while (xchg(&lock->locked, 1) != 0);` on fuel
unfoldable pub spin : ℕ → Spinlock → Outcome Spinlock
spin zero lock = hang
spin (suc fuel) lock =
    let again = spin fuel (xchg lock 1).1 in
    if (xchg lock 1).0 == 0 then ok (xchg lock 1).1 else again

-- Interrupts are off and the lock was seen free, so one exchange is enough.
unfoldable pub acquire : Spinlock × Cpu → Outcome (Spinlock × Cpu)
unfolding holding pushcli spin xchg
acquire (lock, c) =
    let c' = pushcli c in if holding lock then panic else spin 1 lock >>= λ lock'. ok (lock', c')

unfoldable pub release : Spinlock × Cpu → Outcome (Spinlock × Cpu)
unfolding holding popcli
release (lock, c) =
    if holding lock then (popcli c >>= λ c'. ok (record lock { locked = 0 }, c')) else panic
