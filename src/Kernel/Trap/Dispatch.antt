-- ===== src/Kernel/Trap/Dispatch.antt =====
-- trap_init, register_trap_handler and interrupt_handler_dispatcher (arch/x86/trap.c): which gates
-- the table holds, which numbers may be registered, and which handler is called.
use linda.Base.{
  ℕ, zero, suc, ◌≤◌, ◌<◌, ◌≡◌, ◌≢◌, ◌↔◌, ◌⊎◌, inl, inr, refl, sym, ◌∙◌, true, false, ◌∷◌, Option,
  none, some, Outcome, ok, panic, ◌>>=◌, Bool-cases, leb, ◌==◌, if◌then◌else◌, arith, eq→==, ne→==,
  ℕ_discrete,
}
use linda.Mach.{GateDesc, setgate}
use linda.Kernel.Trap.{
  irq7, irq_syscall, nidt, allowed_traps, Traps, put, fill_gates, no_gate, trap_init, is_in,
  register_trap_handler, interrupt_handler_dispatcher,
}

fill_gates_lem :
    (table : ℕ → ℕ) (n : ℕ) (idt : ℕ → GateDesc) (i : ℕ)
    → i < n
    → fill_gates table n idt i ≡ setgate false 8 (table i) 0
unfolding fill_gates
fill_gates_lem table zero idt i h = absurd (omega arith)
fill_gates_lem table (suc n) idt i h = elim (ℕ_discrete i n) [
  | yes e ↦ rw (eq→== _ _ e, e) refl
  | no d ↦ rw (ne→== _ _ d) (fill_gates_lem table n idt i (omega arith))
]

-- After trap_init each of the 256 gates leads to its entry of the generated table in the kernel's
-- code segment: that of the system call is a trap gate that user programs may call, and every other one
-- an interrupt gate for the kernel only. No handler is registered.
pub trap_init_lem {ℓ} :
    {H : Type ℓ} (address : ℕ) (table : ℕ → ℕ) (s : Traps H) (i : ℕ)
    → i < nidt
    → ((trap_init address table s).idt i
        ≡ (if i == irq_syscall then setgate true 8 (table i) 3 else setgate false 8 (table i) 0))
      × ((trap_init address table s).trap_handlers i ≡ none)
unfolding trap_init
trap_init_lem address table s i h = elim (ℕ_discrete i irq_syscall) [
  | yes e ↦ rw e (refl, refl)
  | no d ↦ rw (ne→== _ _ d) (fill_gates_lem table nidt (λ _. no_gate) i h, refl)
]

-- The exceptions 0..19, the interrupts of the two controllers and the system call.
abbrev pub IsAllowed : ℕ → Type 0
IsAllowed n = (n < 20) ⊎ ((32 ≤ n) × (n < 48)) ⊎ (n ≡ irq_syscall)

is_in-IsAllowed : (n : ℕ) → (is_in n allowed_traps ≡ true) ↔ IsAllowed n
is_in-IsAllowed n = ground arith

true-false : true ≢ false
true-false = λ e. cc

-- A handler may be registered exactly for the exceptions 0..19, the interrupts 32..47 and the system
-- call, and for any other number the kernel panics.
register-IsAllowed {ℓ} :
    {H : Type ℓ} (n : ℕ) (h : H) (s : Traps H) → (register_trap_handler n h s ≢ panic) ↔ IsAllowed n
unfolding register_trap_handler
register-IsAllowed n h s =
    let (to, from) = is_in-IsAllowed n in
    elim (Bool-cases (is_in n allowed_traps)) [
      | inl y ↦ rw y (λ _. to y, λ _ e. cc)
      | inr d ↦ rw d (λ f. absurd (f refl), λ a. absurd (true-false (sym (from a) ∙ d)))
    ]

-- The handler that a run of the dispatcher calls.
abbrev pub called {ℓ} : {H : Type ℓ} → Outcome (Option H × Traps H) → Outcome (Option H)
called r = r >>= λ (h, _). ok h

-- What the dispatcher does, in terms of the handlers that it finds.
called-dispatcher {ℓ} :
    {H : Type ℓ} (m : ℕ) (s : Traps H)
    → called (interrupt_handler_dispatcher m s) ≡ (
        if m == irq7
        then ok none
        else elim (s.trap_handlers m) [ none ↦ panic | some h ↦ ok (some h) ])
unfolding interrupt_handler_dispatcher
called-dispatcher m s = ground arith

register-handlers {ℓ} :
    {H : Type ℓ} (n : ℕ) (h : H) (s s' : Traps H)
    → register_trap_handler n h s ≡ ok s'
    → s'.trap_handlers ≡ put n (some h) s.trap_handlers
unfolding register_trap_handler
register-handlers n h s s' e = elim (Bool-cases (is_in n allowed_traps)) [ inl y ↦ cc | inr d ↦ cc ]

-- After a handler is registered for `n`, a trap with that number calls it, except that one with the
-- number of IRQ7 calls none, and a trap with another number does what it did before.
dispatcher-register {ℓ} :
    {H : Type ℓ} (n m : ℕ) (h : H) (s s' : Traps H)
    → register_trap_handler n h s ≡ ok s'
    → called (interrupt_handler_dispatcher m s') ≡ (
        if m == irq7
        then ok none
        else if m == n
        then ok (some h)
        else called (interrupt_handler_dispatcher m s))
unfolding register_trap_handler
dispatcher-register {H} n m h s s' e =
    rw (called-dispatcher m s, called-dispatcher m s', register-handlers n h s s' e) (ground arith)

-- A dispatch that does not panic writes the end-of-interrupt command to the second controller, if
-- the number is 40 or more, and then to the first one, whatever the cause of the trap, and leaves the
-- two tables and the register of the first.
dispatcher_acknowledges {ℓ} :
    {H : Type ℓ} (m : ℕ) (s s' : Traps H) (r : Option H)
    → interrupt_handler_dispatcher m s ≡ ok (r, s')
    → (s'.outs ≡ (0x20, 0x20) ∷ (if leb 40 m then (0xA0, 0x20) ∷ s.outs else s.outs))
      × (s'.trap_handlers ≡ s.trap_handlers)
      × (s'.idt ≡ s.idt)
      × (s'.idtr ≡ s.idtr)
unfolding interrupt_handler_dispatcher
dispatcher_acknowledges m s s' r e = ground arith
