-- ===== src/Kernel/Process/Alloc.antt =====
-- alloc_process (kernel/process.c): which entry it takes, and the stack that it lays out.
use linda.Base.{
  ℕ, suc, ◌+◌, ◌-◌, ◌≤◌, ◌≡◌, refl, true, false, List, [], ◌∷◌, Option, none, some, inl, inr, arith,
  Outcome, ok, panic, hang, overrun, ◌>>=◌, ◌==◌, if◌then◌else◌, get_elem?, set, get_elem?-set_self,
  set-set, lt-length_of_some, Bool-cases, length, sym,
}
use linda.Mach.{u32_mod, add32, sub32, kernbase, kstacksize, pgsize}
use linda.Mm.Vmmgr.{VmBlock, kvm_alloc_page, nvmblocks}
use linda.Mm.Vmmgr.Table.{IsNumbered, page_addr}
use linda.Mm.Vmmgr.Alloc.{
  Allocated, AllocSpec, available_count, kvm_alloc_page_lem, Allocated-page, Allocated-in,
}
use linda.Kernel.Spinlock.{Cpu, Spinlock, release, pushcli}
use linda.Kernel.Spinlock.Sections.{IsMasked, release-acquire}
use linda.Kernel.Process.{
  embryo, is_unused, Process, Ptable, trapframe_size, context_size, find_unused, update, lay_out,
  start, alloc_from, alloc_process,
}

-- No entry of a list is UNUSED.
abbrev pub NoneUnused : List Process → Type 0
NoneUnused [] = Unit
NoneUnused (p ∷ ps) = (is_unused p.state ≡ false) × NoneUnused ps

-- What find_unused may answer from entry `i` on.
abbrev Found : ℕ → List Process → Option ℕ → Type 0
Found i ps none = NoneUnused ps
Found i ps (some k) =
    (i ≤ k) × (p : Process) × (get_elem? ps (k - i) ≡ some p) × (is_unused p.state ≡ true)

Found-cons :
    (i : ℕ) (p : Process) (ps : List Process) (r : Option ℕ)
    → is_unused p.state ≡ false
    → Found (suc i) ps r
    → Found i (p ∷ ps) r
Found-cons i p ps none u f = (u, f)
Found-cons i p ps (some k) u (le, q, e, v) =
    let at : k - i ≡ suc (k - suc i) = omega arith in (omega arith, q, rw at e, v)

Found-here :
    (i : ℕ) (p : Process) (ps : List Process) → is_unused p.state ≡ true → Found i (p ∷ ps) (some i)
Found-here i p ps y = let at : i - i ≡ 0 = omega arith in (omega arith, p, rw at refl, y)

find_unused-Found : (i : ℕ) (ps : List Process) → Found i ps (find_unused i ps)
unfolding find_unused
find_unused-Found i [] = tt
find_unused-Found i (p ∷ ps) = elim (Bool-cases (is_unused p.state)) [
  | inl y ↦ rw y (Found-here i p ps y)
  | inr n ↦ rw n (Found-cons i p ps (find_unused (suc i) ps) n (find_unused-Found (suc i) ps))
]

-- The entry of a process that alloc_process has set up on the stack at `kstack`.
abbrev pub set_up : ℕ → ℕ → Process → Process
set_up pid kstack p = record p {
  state = embryo;
  pid = pid;
  kstack = kstack;
  tf = kstack + kstacksize - trapframe_size;
  context = kstack + kstacksize - trapframe_size - 4 - context_size;
}

stack_top :
    (kstack : ℕ)
    → kernbase ≤ kstack
    → kstack + pgsize ≤ u32_mod
    → sub32 (add32 kstack kstacksize) trapframe_size ≡ kstack + kstacksize - trapframe_size
stack_top kstack lo hi = omega arith

stack_context :
    (kstack : ℕ)
    → kernbase ≤ kstack
    → kstack + pgsize ≤ u32_mod
    → sub32 (sub32 (kstack + kstacksize - trapframe_size) 4) context_size
      ≡ kstack + kstacksize - trapframe_size - 4 - context_size
stack_context kstack lo hi = omega arith

pub update_lem :
    (ps : List Process) (i : ℕ) (p : Process) (f : Process → Process)
    → get_elem? ps i ≡ some p
    → update i f ps ≡ set ps i (f p)
update_lem ps i p f e = rw (e, update)

lay_out_lem :
    (forkret trapret i kstack : ℕ) (p : Process) (s : Ptable)
    → get_elem? s.process i ≡ some p
    → kernbase ≤ kstack
    → kstack + pgsize ≤ u32_mod
    → (lay_out forkret trapret i kstack (start i s)).process
      ≡ set s.process i (set_up s.nextpid kstack p)
unfolding lay_out start
lay_out_lem forkret trapret i kstack p s e lo hi = rw (
  update_lem s.process i p _ e,
  update_lem (set s.process i _) i _ _
      (get_elem?-set_self s.process i _ (lt-length_of_some s.process i p e)),
  set-set,
  stack_top kstack lo hi,
  stack_context kstack lo hi,
)

-- The stack of a new process at `kstack`: the trap frame fills its top; below it lies the address of
-- trapret, and below that a context that is all zero but for `eip`, which is forkret.
pub record Stack (forkret trapret kstack : ℕ) (mem : ℕ → ℕ) : Type 0 where
  pub ret : mem (kstack + 4096 - 80) ≡ trapret
  pub eip : mem (kstack + 4096 - 84) ≡ forkret
  pub ebp : mem (kstack + 4096 - 88) ≡ 0
  pub ebx : mem (kstack + 4096 - 92) ≡ 0
  pub esi : mem (kstack + 4096 - 96) ≡ 0
  pub edi : mem (kstack + 4096 - 100) ≡ 0

lay_out-Stack :
    (forkret trapret i kstack : ℕ) (s : Ptable)
    → kernbase ≤ kstack
    → kstack + pgsize ≤ u32_mod
    → Stack forkret trapret kstack (lay_out forkret trapret i kstack s).mem
unfolding lay_out
lay_out-Stack forkret trapret i kstack s lo hi = record {
  ret = ground arith;
  eip = ground arith;
  ebp = ground arith;
  ebx = ground arith;
  esi = ground arith;
  edi = ground arith;
}

-- What alloc_process may answer.
abbrev pub Started : ℕ → ℕ → Ptable → Outcome (Option ℕ × Ptable) → Type 0
Started forkret trapret s (ok (none, s')) =
    NoneUnused s.process
    × (s'.process ≡ s.process)
    × (s'.nextpid ≡ s.nextpid)
    × (s'.kvmlist ≡ s.kvmlist)
    × (s'.lock ≡ s.lock)
    × (s'.cpu.iflag ≡ s.cpu.iflag)
Started forkret trapret s (ok (some i, s')) =
    (p : Process) × (kstack : ℕ) × (get_elem? s.process i ≡ some p)
    × (is_unused p.state ≡ true)
    × (s'.process ≡ set s.process i (set_up s.nextpid kstack p))
    × (s'.nextpid ≡ add32 s.nextpid 1)
    × Allocated s.kvmlist kstack s'.kvmlist
    × Stack forkret trapret kstack s'.mem
    × (s'.lock ≡ s.lock)
    × (s'.cpu.iflag ≡ s.cpu.iflag)
Started forkret trapret s panic = available_count s.kvmlist ≡ 0
Started forkret trapret s hang = ⊥
Started forkret trapret s overrun = ⊥

-- `s` with another lock, processor and table of pages.
abbrev around : Ptable → Spinlock → Cpu → List VmBlock → Ptable
around s lock cpu kvmlist = record s { lock = lock; cpu = cpu; kvmlist = kvmlist }

module _ (forkret trapret i : ℕ) (s : Ptable) (lock : Spinlock) (cpu : Cpu) (p : Process)
    (e : get_elem? s.process i ≡ some p) (u : is_unused p.state ≡ true) (lk : lock ≡ s.lock)
    (fl : cpu.iflag ≡ s.cpu.iflag) (n : IsNumbered 0 s.kvmlist)
    (b : length s.kvmlist ≤ nvmblocks) where
  -- What alloc_process does with the entry that it found, given the answer of kvm_alloc_page.
  started_lem :
      (r : Outcome (ℕ × List VmBlock))
      → AllocSpec s.kvmlist r
      → Started forkret trapret s (
          r >>= λ (kstack, kvmlist).
          ok (some i, lay_out forkret trapret i kstack (start i (around s lock cpu kvmlist))))
  unfolding lay_out start
  started_lem (ok (kstack, kvmlist)) a =
      let at : kstack ≡ page_addr a.index = Allocated-page a n in
      let lt = Allocated-in a in
      let lo : kernbase ≤ kstack = omega arith in
      let hi : kstack + pgsize ≤ u32_mod = omega arith in
      let t = around s lock cpu kvmlist in
      (
        p,
        kstack,
        e,
        u,
        lay_out_lem forkret trapret i kstack p t e lo hi,
        refl,
        a,
        lay_out-Stack forkret trapret i kstack (start i t) lo hi,
        lk,
        fl,
      )
  started_lem panic a = a
  started_lem hang a = a
  started_lem overrun a = a

module _ (forkret trapret : ℕ) (s : Ptable) (held : Spinlock) (inner : Cpu) (lock : Spinlock)
    (cpu : Cpu) (e : release (held, inner) ≡ ok (lock, cpu)) (lk : lock ≡ s.lock)
    (fl : cpu.iflag ≡ s.cpu.iflag) (n : IsNumbered 0 s.kvmlist)
    (b : length s.kvmlist ≤ nvmblocks) where
  alloc_from-Started :
      (r : Option ℕ)
      → Found 0 s.process r
      → Started forkret trapret s
          (alloc_from forkret trapret (record s { lock = held; cpu = inner }) r)
  unfolding alloc_from start
  alloc_from-Started none f = rw (e, ◌>>=◌) (f, refl, refl, refl, lk, fl)
  alloc_from-Started (some i) (_, p, at, u) =
      let here : i - 0 ≡ i = omega arith in
      rw (e, ◌>>=◌)
        (started_lem forkret trapret i s lock cpu p (rw (sym here) at) u lk fl n b
          (kvm_alloc_page s.kvmlist) (kvm_alloc_page_lem s.kvmlist))

-- With the lock of the table free, with interrupts off while some pushcli is open, and with the pages of
-- the kernel at their addresses, at most as many as there are blocks, alloc_process never hangs. It takes
-- an entry that was UNUSED and sets it up as an EMBRYO with the next number and a stack of its own: the
-- first page that was mapped and not used, which is now used and the only page to change. It leaves every
-- other entry, and advances the counter; if no entry is UNUSED it answers NULL and leaves both tables; it
-- panics only if no page is available. The lock and the interrupt flag are then as they were.
pub alloc_process-Started :
    (forkret trapret : ℕ) (s : Ptable)
    → IsMasked s.cpu
    → s.lock.locked ≡ 0
    → IsNumbered 0 s.kvmlist
    → length s.kvmlist ≤ nvmblocks
    → Started forkret trapret s (alloc_process forkret trapret s)
unfolding alloc_process
alloc_process-Started forkret trapret s m free n b =
    let (a, _, _, r) = release-acquire s.lock s.cpu m free in
    rw (a, ◌>>=◌)
      (alloc_from-Started forkret trapret s (record { locked = 1 }) (pushcli s.cpu) s.lock
        (record s.cpu { intena = if s.cpu.ncli == 0 then s.cpu.iflag else s.cpu.intena }) r refl
        refl n b (find_unused 0 s.process) (find_unused-Found 0 s.process))
