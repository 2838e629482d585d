-- ===== src/Kernel.antt =====
-- kernel/: locks, processes, the scheduler, system calls and interrupts.
pub mod Spinlock
pub mod Process
pub mod Scheduler
pub mod Syscall
pub mod Trap
pub mod Init
