-- ===== src/Kernel/Trap/Tests.antt =====
-- Runs of the dispatcher. A handler is a number.
use linda.Base.{ℕ, ◌≡◌, refl, List, [], ◌∷◌, some, none, ok, ◌==◌, if◌then◌else◌}
use linda.Kernel.Trap.{Traps, no_gate, put, register_trap_handler, interrupt_handler_dispatcher}

abbrev traps : Traps ℕ
traps = record {
  idt = λ _. no_gate;
  trap_handlers = λ n. if n == 14 then some 7 else none;
  idtr = record { size = 0; low = 0; high = 0 };
  outs = [];
}

abbrev with_clock : Traps ℕ
with_clock = record traps { trap_handlers = put 32 (some 9) traps.trap_handlers }

register_run : register_trap_handler 32 9 traps ≡ ok with_clock
unfolding register_trap_handler
register_run = refl

clock_run :
    interrupt_handler_dispatcher 32 with_clock
    ≡ ok (some 9, record with_clock { outs = (0x20, 0x20) ∷ [] })
unfolding interrupt_handler_dispatcher
clock_run = refl

abbrev acknowledged : List (ℕ × ℕ)
acknowledged = (0x20, 0x20) ∷ []
