-- ===== src/Kernel/Process/Tests.antt =====
-- Runs of the search for an entry, and alloc_process at a table of two processes.
use linda.Base.{◌≡◌, refl, [], ◌∷◌, some, none, arith, true, false}
use linda.Mm.Vmmgr.Table.{page_addr}
use linda.Kernel.Process.{Pstate, unused, running, Process, Ptable, find_unused, alloc_process}
use linda.Kernel.Process.Alloc.{Started, alloc_process-Started}

abbrev entry : Pstate → Process
entry state = record {
  size = 0;
  pid = 0;
  context = 0;
  kstack = 0;
  pgdir = 0;
  state = state;
  parent = none;
  tf = 0;
  killed = 0;
}

abbrev ptable : Ptable
ptable = record {
  lock = record { locked = 0 };
  cpu = record { ncli = 0; intena = false; iflag = true };
  process = entry running ∷ entry unused ∷ [];
  nextpid = 4;
  kvmlist =
      record { address = page_addr 0; status = 3 }
      ∷ record { address = page_addr 1; status = 2 }
      ∷ [];
  mem = λ _. 0;
}

find_unused_run : find_unused 0 ptable.process ≡ some 1
unfolding find_unused
find_unused_run = refl

alloc_process-Started_example :
    Started 0xC010_0010 0xC010_0020 ptable (alloc_process 0xC010_0010 0xC010_0020 ptable)
alloc_process-Started_example =
    alloc_process-Started 0xC010_0010 0xC010_0020 ptable (record { masked = λ h. absurd (h refl) })
      refl (refl, (refl, tt)) (omega arith)
