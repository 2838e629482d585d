-- ===== src/Kernel/Spinlock/Sections.antt =====
-- Critical sections (kernel/spinlock.c): what pushcli and popcli, acquire and release do in pairs.
use linda.Base.{
  ℕ, zero, suc, ◌+◌, ◌≡◌, ◌≢◌, refl, true, false, arith, Outcome, ok, panic, hang, ◌>>=◌, ◌==◌,
  if◌then◌else◌,
}
use linda.Kernel.Spinlock.{Cpu, Spinlock, holding, pushcli, popcli, acquire, release}

-- Interrupts are off while some pushcli is open.
pub record IsMasked (c : Cpu) : Type 0 where
  pub masked : c.ncli ≢ 0 → c.iflag ≡ false

-- `n` calls in a row.
unfoldable pub push_times : ℕ → Cpu → Cpu
push_times zero c = c
push_times (suc n) c = push_times n (pushcli c)

unfoldable pub pop_times : ℕ → Cpu → Outcome Cpu
pop_times zero c = ok c
pop_times (suc n) c = popcli c >>= pop_times n

pub pushcli-IsMasked : (c : Cpu) → IsMasked (pushcli c) × ((pushcli c).ncli ≡ c.ncli + 1)
unfolding pushcli
pushcli-IsMasked c = (record { masked = λ h. ground arith }, ground arith)

-- acquire of a free lock takes it with interrupts off; acquire of a held lock panics, and it never
-- spins for ever.
pub acquire_lem :
    (lock : Spinlock) (c : Cpu)
    → (acquire (lock, c)
        ≡ (if lock.locked == 0 then ok (record { locked = 1 }, pushcli c) else panic))
      × (acquire (lock, c) ≢ hang)
unfolding acquire
acquire_lem lock c = (ground arith, λ h. ground arith)

-- A critical section is neutral: if the lock is free, and interrupts are off while some pushcli is open,
-- acquire then release gives back a free lock, the same count and the same interrupt flag, with
-- interrupts off and the lock held in between.
pub release-acquire :
    (lock : Spinlock) (c : Cpu)
    → IsMasked c
    → lock.locked ≡ 0
    → (acquire (lock, c) ≡ ok (record { locked = 1 }, pushcli c))
      × ((pushcli c).iflag ≡ false)
      × (holding (record { locked = 1 }) ≡ true)
      × (release (record { locked = 1 }, pushcli c)
          ≡ ok (lock, record c { intena = if c.ncli == 0 then c.iflag else c.intena }))
unfolding acquire release pushcli holding
release-acquire lock c m free = (ground arith, ground arith, refl, ground (arith, m.masked))
