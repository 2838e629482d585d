-- ===== src/Kernel/Trap/Boot.antt =====
-- The handlers that the boot code registers (init/bootstrap.c): the calls of register_trap_handler in
-- mm/mmap.c, drivers/kbd.c, drivers/timer.c, kernel/syscall.c and drivers/ide.c, in their order.
use linda.Base.{
  ℕ, ◌/◌, ◌%◌, ◌^◌, ◌*◌, ◌-◌, ◌<◌, ◌≡◌, refl, ◌∷◌, Option, none, some, Outcome, ok, ◌>>=◌, ◌==◌,
  if◌then◌else◌, arith,
}
use linda.Mach.{u32_mod}
use linda.Mach.Registers.{table_address}
use linda.Kernel.Trap.{Traps, outb, trap_init, register_trap_handler, irq_syscall, nidt}
use linda.Kernel.Trap.Dispatch.{trap_init_lem}

-- The handlers by their names.
pub data Handler : Type 0 where
  page_fault_handler : Handler
  kbd_trap_handler : Handler
  timer_handler : Handler
  syscall_handler : Handler
  ide_handler : Handler

unfoldable pub kbd_init : Traps Handler → Outcome (Traps Handler)
kbd_init s = register_trap_handler 33 Handler.kbd_trap_handler s

unfoldable pub timer_setup : Traps Handler → Outcome (Traps Handler)
timer_setup s =
    let divisor = 1193180 / 1000 in
    register_trap_handler 32 Handler.timer_handler
      (outb 0x40 (divisor / 2 ^ 8 % 256) (outb 0x40 (divisor % 256) (outb 0x43 0x36 s)))

unfoldable pub syscall_init : Traps Handler → Outcome (Traps Handler)
syscall_init s = register_trap_handler irq_syscall Handler.syscall_handler s

-- kern_bootstrap, as far as the tables of interrupts go.
unfoldable pub boot_traps : ℕ → (ℕ → ℕ) → Traps Handler → Outcome (Traps Handler)
unfolding kbd_init timer_setup syscall_init
boot_traps address table s =
    register_trap_handler 14 Handler.page_fault_handler (trap_init address table s)
    >>= kbd_init
    >>= timer_setup
    >>= syscall_init
    >>= register_trap_handler 46 Handler.ide_handler

abbrev pub handler_of : ℕ → Option Handler
handler_of n =
    if n == 14
    then some Handler.page_fault_handler
    else if n == 32
    then some Handler.timer_handler
    else if n == 33
    then some Handler.kbd_trap_handler
    else if n == 46
    then some Handler.ide_handler
    else if n == 64
    then some Handler.syscall_handler
    else none

-- The boot code sets up the interrupts without a panic: afterwards the page fault, the clock, the
-- keyboard, the disk and the system call have each its own handler and no other number has one, the
-- gates are those of trap_init, the processor has been given the address and the last byte of the table,
-- and the divisor that the clock's port got in two bytes is 1193.
boot_traps_lem :
    (address : ℕ) (table : ℕ → ℕ) (s : Traps Handler)
    → address < u32_mod
    → (t : Traps Handler) × (boot_traps address table s ≡ ok t)
      × ((n : ℕ) → n < nidt → t.trap_handlers n ≡ handler_of n)
      × (t.idt ≡ (trap_init address table s).idt)
      × (table_address t.idtr ≡ address)
      × (t.idtr.size ≡ nidt * 8 - 1)
      × (t.outs
          ≡ (0x40, 1193 / 256)
            ∷ (0x40, 1193 % 256)
            ∷ (0x43, 0x36)
            ∷ (trap_init address table s).outs)
unfolding boot_traps register_trap_handler trap_init
boot_traps_lem address table s h = (
  _,
  refl,
  λ n l. ground (arith, (trap_init_lem address table s n l).1),
  refl,
  omega arith,
  refl,
  refl,
)
