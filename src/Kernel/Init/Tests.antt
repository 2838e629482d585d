-- ===== src/Kernel/Init/Tests.antt =====
-- The first process in a table of one entry.
use linda.Base.{ℕ, ◌+◌, ◌<◌, ◌≤◌, ◌≡◌, ◌⊎◌, refl, [], ◌∷◌, some, none, ok, false, true, pos, set}
use linda.Mach.{pgsize}
use linda.Kernel.Process.{Pstate, Process}
use linda.Kernel.Init.{Setup, make_runable}
use linda.Kernel.Init.Frame.{IsUserFrame, make_runable-IsUserFrame}

abbrev first : Process
first = record {
  size = 0;
  pid = 1;
  context = 0xC000_4FA0;
  kstack = 0xC000_4000;
  pgdir = 0xC000_5000;
  state = Pstate.embryo;
  parent = none;
  tf = 0xC000_4FB4;
  killed = 0;
}

abbrev setup : Setup
setup = record {
  table = record {
    lock = record { locked = 0 };
    cpu = record { ncli = 0; intena = false; iflag = true };
    process = first ∷ [];
    nextpid = 2;
    kvmlist = [];
    mem = λ _. 0xFFFF_FFFF;
  };
  initproc = some 0;
  mem_map = record { free_list = λ _. 0; page_count = 0; header = pos 0 };
  kmem_list = [];
  mmaplist = 0;
  phys = λ _. 0;
}

make_runable-IsUserFrame_example :
    (s' : Setup) × (make_runable 0 first setup ≡ ok s')
    × (s'.table.process
        ≡ set (first ∷ []) 0 (record first { size = pgsize; state = Pstate.runable }))
    × IsUserFrame 0xC000_4FB4 s'.table.mem
    × ((a : ℕ) → (a < 0xC000_4FB4) ⊎ (0xC000_4FB4 + 76 ≤ a) → s'.table.mem a ≡ 0xFFFF_FFFF)
    × (s'.table.lock ≡ setup.table.lock)
    × (s'.table.cpu.iflag ≡ true)
make_runable-IsUserFrame_example =
    make_runable-IsUserFrame 0 first setup refl refl (record { masked = λ h. absurd (h refl) })
