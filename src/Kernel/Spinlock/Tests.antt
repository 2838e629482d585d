-- ===== src/Kernel/Spinlock/Tests.antt =====
-- Runs of the lock operations, and their theorems on a processor with interrupts on.
use linda.Base.{◌≡◌, refl, true, false, ok, panic, ◌>>=◌}
use linda.Kernel.Spinlock.{Cpu, Spinlock, holding, pushcli, acquire, release}
use linda.Kernel.Spinlock.Sections.{IsMasked, release-acquire}

abbrev running : Cpu
running = record { ncli = 0; intena = false; iflag = true }

abbrev free_lock : Spinlock
free_lock = record { locked = 0 }

running-IsMasked : IsMasked running
running-IsMasked = record { masked = λ h. absurd (h refl) }

acquire_twice : (acquire (free_lock, running) >>= acquire) ≡ panic
unfolding acquire
acquire_twice = refl

release-acquire_example :
    (acquire (free_lock, running) ≡ ok (record { locked = 1 }, pushcli running))
    × ((pushcli running).iflag ≡ false)
    × (holding (record { locked = 1 }) ≡ true)
    × (release (record { locked = 1 }, pushcli running)
        ≡ ok (free_lock, record running { intena = true }))
release-acquire_example = release-acquire free_lock running running-IsMasked refl
