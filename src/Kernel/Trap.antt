-- ===== src/Kernel/Trap.antt =====
-- arch/x86/trap.c, include/arch/x86/trap.h and drivers/pic.c: the interrupt table, the table of
-- handlers and the dispatcher. `H` is the type of the addresses of handlers, `trap_handlers_table` is
-- the table that vectors.py generates, `address` is that of `idt`, `idtr` the three words that lidt passes
-- to the processor, and the writes to ports are kept in order, the last one first.
-- The frames come from the stubs of that table, so that `trapno` is below 256.
pub mod Dispatch
pub mod Boot
mod Tests
use linda.Base.{
  ℕ, zero, suc, ◌*◌, Bool, true, false, List, [], ◌∷◌, Option, none, some, Outcome, ok, panic, leb,
  ◌==◌, if◌then◌else◌,
}
use linda.Mach.{GateDesc, setgate}
use linda.Mach.Registers.{PseudoDesc, lidt}

abbrev pub irq7 : ℕ
irq7 = 39

abbrev pub irq_syscall : ℕ
irq_syscall = 64

abbrev pub nidt : ℕ
nidt = 256

abbrev pub allowed_traps : List ℕ
allowed_traps =
    0 ∷ 1 ∷ 2 ∷ 3 ∷ 4 ∷ 5 ∷ 6 ∷ 7 ∷ 8 ∷ 9 ∷ 10 ∷ 11 ∷ 12 ∷ 13 ∷ 14 ∷ 15 ∷ 16 ∷ 17 ∷ 18 ∷ 19 ∷ 32
    ∷ 33 ∷ 34 ∷ 35 ∷ 36 ∷ 37 ∷ 38 ∷ 39 ∷ 40 ∷ 41 ∷ 42 ∷ 43 ∷ 44 ∷ 45 ∷ 46 ∷ 47 ∷ 64 ∷ []

pub record Traps {ℓ} (H : Type ℓ) : Type ℓ where
  pub idt : ℕ → GateDesc
  pub trap_handlers : ℕ → Option H
  pub idtr : PseudoDesc
  pub outs : List (ℕ × ℕ)

abbrev pub outb {ℓ} : {H : Type ℓ} → ℕ → ℕ → Traps H → Traps H
outb port v s = record s { outs = (port, v) ∷ s.outs }

abbrev pub pic_remap {ℓ} : {H : Type ℓ} → ℕ → ℕ → Traps H → Traps H
pic_remap master_offset slave_offset s = outb 0xA1 1 (
    outb 0x21 1 (
      outb 0xA1 2 (
        outb 0x21 4
          (outb 0xA1 slave_offset (outb 0x21 master_offset (outb 0xA0 0x11 (outb 0x20 0x11 s)))))))

abbrev pub put {ℓ} : {A : Type ℓ} → ℕ → A → (ℕ → A) → ℕ → A
put i v f j = if j == i then v else f j

-- The first `n` rounds of the loop of trap_init.
unfoldable pub fill_gates : (ℕ → ℕ) → ℕ → (ℕ → GateDesc) → ℕ → GateDesc
fill_gates trap_handlers_table zero idt = idt
fill_gates trap_handlers_table (suc n) idt =
    put n (setgate false 8 (trap_handlers_table n) 0) (fill_gates trap_handlers_table n idt)

-- A descriptor that memset has cleared.
abbrev pub no_gate : GateDesc
no_gate = record {
  off_15_0 = 0;
  cs = 0;
  args = 0;
  rsv1 = 0;
  type = 0;
  s = 0;
  dpl = 0;
  p = 0;
  off_31_16 = 0;
}

unfoldable pub trap_init {ℓ} : {H : Type ℓ} → ℕ → (ℕ → ℕ) → Traps H → Traps H
unfolding lidt
trap_init address trap_handlers_table s =
    let cleared : Traps _ = record s { idt = λ _. no_gate; trap_handlers = λ _. none } in
    let remapped = pic_remap 0x20 0x28 cleared in
    record remapped {
      idt =
          put irq_syscall (setgate true 8 (trap_handlers_table irq_syscall) 3)
            (fill_gates trap_handlers_table nidt remapped.idt);
      idtr = lidt address (nidt * 8);
    }

abbrev pub is_in : ℕ → List ℕ → Bool
is_in n [] = false
is_in n (m ∷ ms) = if m == n then true else is_in n ms

-- The search goes over the list from its end; it only tells whether the number is there.
unfoldable pub register_trap_handler {ℓ} : {H : Type ℓ} → ℕ → H → Traps H → Outcome (Traps H)
register_trap_handler trapno handler s =
    if is_in trapno allowed_traps
    then ok (record s { trap_handlers = put trapno (some handler) s.trap_handlers })
    else panic

-- The two end-of-interrupt commands that the dispatcher sends.
abbrev pub end_of_interrupt {ℓ} : {H : Type ℓ} → ℕ → Traps H → Traps H
end_of_interrupt trapno s = outb 0x20 0x20 (if leb 40 trapno then outb 0xA0 0x20 s else s)

-- The handler that the dispatcher calls, or none if it returns at once.
unfoldable pub interrupt_handler_dispatcher {ℓ} :
    {H : Type ℓ} → ℕ → Traps H → Outcome (Option H × Traps H)
interrupt_handler_dispatcher trapno s =
    let s₁ = end_of_interrupt trapno s in
    if trapno == irq7
    then ok (none, s₁)
    else elim (s₁.trap_handlers trapno) [ none ↦ panic | some handler ↦ ok (some handler, s₁) ]
