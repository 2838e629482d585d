-- ===== src/Kernel/Process.antt =====
-- kernel/process.c and include/kernel/process.h: the table of processes and alloc_process.
-- `process` is the array of the table, a pointer to an entry is its index, and `mem` is the kernel's
-- memory, word by word, in which alloc_process lays out the first stack of a process. The symbols
-- `forkret` and `trapret` are addresses that the linker chooses.
pub mod Alloc
mod Tests
use linda.Base.{
  ℕ, zero, suc, ◌+◌, ◌-◌, ◌%◌, Bool, true, false, List, [], ◌∷◌, Option, none, some, Outcome, ok,
  panic, ◌>>=◌, ◌==◌, if◌then◌else◌, get_elem?, set,
}
use linda.Mach.{kstacksize, add32, sub32}
use linda.Mm.Vmmgr.{VmBlock, kvm_alloc_page}
use linda.Kernel.Spinlock.{Cpu, Spinlock, acquire, release, initlock}

abbrev pub nproc : ℕ
nproc = 64

pub data Pstate : Type 0 where
  unused : Pstate
  embryo : Pstate
  runable : Pstate
  running : Pstate
  sleeping : Pstate
  zombie : Pstate

abbrev pub is_unused : Pstate → Bool
is_unused unused = true
is_unused _ = false

-- `name` is used by messages only, and left out.
pub record Process : Type 0 where
  pub size : ℕ
  pub pid : ℕ
  pub context : ℕ
  pub kstack : ℕ
  pub pgdir : ℕ
  pub state : Pstate
  pub parent : Option ℕ
  pub tf : ℕ
  pub killed : ℕ

pub record Ptable : Type 0 where
  pub lock : Spinlock
  pub cpu : Cpu
  pub process : List Process
  pub nextpid : ℕ
  pub kvmlist : List VmBlock
  pub mem : ℕ → ℕ

-- sizeof(struct trapframe) and sizeof(struct context)
abbrev pub trapframe_size : ℕ
trapframe_size = 76

abbrev pub context_size : ℕ
context_size = 20

-- The offset of `eip` in `struct context`.
abbrev pub context_eip : ℕ
context_eip = 16

unfoldable pub process_init : Ptable → Ptable
unfolding initlock
process_init s = record s { lock = initlock s.lock }

abbrev pub write_word : ℕ → ℕ → (ℕ → ℕ) → ℕ → ℕ
write_word addr v mem a = if a == addr then v else mem a

-- `memset(p->context, 0, sizeof(struct context))`, of an aligned address
abbrev pub clear_context : ℕ → (ℕ → ℕ) → ℕ → ℕ
clear_context addr mem = write_word addr 0 (
    write_word (addr + 4) 0
      (write_word (addr + 8) 0 (write_word (addr + 12) 0 (write_word (addr + 16) 0 mem))))

-- The index of the first entry that is UNUSED.
unfoldable pub find_unused : ℕ → List Process → Option ℕ
find_unused i [] = none
find_unused i (p ∷ ps) =
    let rest = find_unused (suc i) ps in if is_unused p.state then some i else rest

abbrev pub update : ℕ → (Process → Process) → List Process → List Process
update i f ps = elim (get_elem? ps i) [ none ↦ ps | some p ↦ set ps i (f p) ]

-- The stack of a process that has not run: the trap frame at its top, below it the address at which
-- forkret returns, and below that the context with which the process is first switched to.
unfoldable pub lay_out : ℕ → ℕ → ℕ → ℕ → Ptable → Ptable
lay_out forkret trapret i kstack s =
    let tf = sub32 (add32 kstack kstacksize) trapframe_size in
    let ret = sub32 tf 4 in
    let context = sub32 ret context_size in
    record s {
      process = update i (λ p. record p { kstack = kstack; tf = tf; context = context }) s.process;
      mem =
          write_word (context + context_eip) forkret
            (clear_context context (write_word ret trapret s.mem));
    }

-- `p->state = EMBRYO; p->pid = nextpid++;`
unfoldable pub start : ℕ → Ptable → Ptable
start i s = record s {
  process = update i (λ p. record p { state = embryo; pid = s.nextpid }) s.process;
  nextpid = add32 s.nextpid 1;
}

-- alloc_process from the entry that its search found, with the lock held: `found: ` and what follows
-- it, or the release and `return NULL`. (kvm_alloc_page panics rather than return NULL.)
unfoldable pub alloc_from : ℕ → ℕ → Ptable → Option ℕ → Outcome (Option ℕ × Ptable)
unfolding lay_out start
alloc_from forkret trapret s none =
    release (s.lock, s.cpu) >>= λ (lock, cpu). ok (none, record s { lock = lock; cpu = cpu })
alloc_from forkret trapret s (some i) = release (s.lock, s.cpu) >>= λ (lock, cpu).
    kvm_alloc_page s.kvmlist >>= λ (kstack, kvmlist). ok (
      some i,
      lay_out forkret trapret i kstack
          (record (start i s) { lock = lock; cpu = cpu; kvmlist = kvmlist }),
    )

-- The index of the new process, or NULL if the table is full.
unfoldable pub alloc_process : ℕ → ℕ → Ptable → Outcome (Option ℕ × Ptable)
unfolding find_unused alloc_from
alloc_process forkret trapret s = acquire (s.lock, s.cpu) >>= λ (lock, cpu).
    alloc_from forkret trapret (record s { lock = lock; cpu = cpu }) (find_unused 0 s.process)
