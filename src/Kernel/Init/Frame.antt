-- ===== src/Kernel/Init/Frame.antt =====
-- The state in which uinitproc_setup (kernel/process.c) leaves the first process.
use linda.Base.{
  ℕ, zero, suc, ◌+◌, ◌*◌, ◌≤◌, ◌<◌, ◌≡◌, ◌⊎◌, refl, ap, ◌∙◌, some, arith, ok, ◌>>=◌, ◌==◌, ne→==,
  if◌then◌else◌, get_elem?, set, set-set, get_elem?-set_self, lt-length_of_some,
}
use linda.Mach.{pgsize}
use linda.Kernel.Spinlock.Sections.{IsMasked, release-acquire}
use linda.Kernel.Process.{Pstate, Process, write_word}
use linda.Kernel.Process.Alloc.{update_lem}
use linda.Kernel.Init.{Setup, clear_words, init_frame, with_frame, with_runable, make_runable}

clear_words_other :
    (addr count : ℕ) (mem : ℕ → ℕ) (a : ℕ)
    → ((a < addr) ⊎ (addr + 4 * count ≤ a))
    → clear_words addr count mem a ≡ mem a
unfolding clear_words
clear_words_other addr zero mem a o = refl
clear_words_other addr (suc count) mem a o =
    clear_words_other (addr + 4) count (write_word addr 0 mem) a (omega arith)
    ∙ rw (ne→== a addr (omega arith)) refl

clear_words_zero :
    (addr count : ℕ) (mem : ℕ → ℕ) (k : ℕ)
    → k < count
    → clear_words addr count mem (addr + 4 * k) ≡ 0
unfolding clear_words
clear_words_zero addr zero mem k h = absurd (omega arith)
clear_words_zero addr (suc count) mem zero h =
    clear_words_other (addr + 4) count (write_word addr 0 mem) (addr + 4 * 0) (omega arith)
    ∙ ground arith
clear_words_zero addr (suc count) mem (suc k) h =
    ap (clear_words (addr + 4) count (write_word addr 0 mem)) (omega arith)
    ∙ clear_words_zero (addr + 4) count (write_word addr 0 mem) k (omega arith)

-- The frame with which a process enters its program at address 0: user segments, interrupts on, the stack
-- at the end of its page, and every other register 0.
pub record IsUserFrame (tf : ℕ) (mem : ℕ → ℕ) : Type 0 where
  pub eip : mem (tf + 56) ≡ 0
  pub cs : mem (tf + 60) ≡ 0x1B
  pub eflags : mem (tf + 64) ≡ 0x200
  pub esp : mem (tf + 68) ≡ pgsize
  pub ss : mem (tf + 72) ≡ 0x23
  pub ds : mem (tf + 44) ≡ 0x23
  pub es : mem (tf + 40) ≡ 0x23
  pub general : (k : ℕ) → k < 10 → mem (tf + 4 * k) ≡ 0
  pub trap : (mem (tf + 48) ≡ 0) × (mem (tf + 52) ≡ 0)

init_frame-IsUserFrame : (tf : ℕ) (mem : ℕ → ℕ) → IsUserFrame tf (init_frame tf mem)
unfolding init_frame clear_words
init_frame-IsUserFrame tf mem =
    let z : (k : ℕ) → k < 19 → clear_words tf 19 mem (tf + 4 * k) ≡ 0 =
      clear_words_zero tf 19 mem in
    record {
      eip = ground arith;
      cs = ground (arith, z 15 (omega arith));
      eflags = ground arith;
      esp = ground arith;
      ss = ground (arith, z 18 (omega arith));
      ds = ground (arith, z 11 (omega arith));
      es = ground (arith, z 10 (omega arith));
      general = λ k h. ground (arith, z k (omega arith));
      trap = (ground (arith, z 12 (omega arith)), ground (arith, z 13 (omega arith)));
    }

init_frame_other :
    (tf : ℕ) (mem : ℕ → ℕ) (a : ℕ) → (a < tf) ⊎ (tf + 76 ≤ a) → init_frame tf mem a ≡ mem a
unfolding init_frame
init_frame_other tf mem a o = ground (arith, clear_words_other tf 19 mem a (omega arith))

-- With the lock of the table free, and interrupts off while some pushcli is open, the end of
-- uinitproc_setup returns: the process `i` is RUNABLE and has one page, no other process has changed, its trap frame lets it enter address 0 as a user with interrupts
-- on and its stack at the end of that page, with all other registers 0; no word outside the frame has
-- changed, the lock is free again and the interrupt flag is as it was.
pub make_runable-IsUserFrame :
    (i : ℕ) (p : Process) (s : Setup)
    → get_elem? s.table.process i ≡ some p
    → s.table.lock.locked ≡ 0
    → IsMasked s.table.cpu
    → (s' : Setup) × (make_runable i p s ≡ ok s')
      × (s'.table.process
          ≡ set s.table.process i (record p { size = pgsize; state = Pstate.runable }))
      × IsUserFrame p.tf s'.table.mem
      × ((a : ℕ) → (a < p.tf) ⊎ (p.tf + 76 ≤ a) → s'.table.mem a ≡ s.table.mem a)
      × (s'.table.lock ≡ s.table.lock)
      × (s'.table.cpu.iflag ≡ s.table.cpu.iflag)
unfolding make_runable
make_runable-IsUserFrame i p s e z m =
    let (a, _, _, r) = release-acquire s.table.lock s.table.cpu m z in
    let sized = update_lem s.table.process i p (λ q. record q { size = pgsize }) e in
    (
      record s {
        table = record (with_runable i (with_frame i p s.table)) {
          lock = s.table.lock;
          cpu = record s.table.cpu {
            intena = if s.table.cpu.ncli == 0 then s.table.cpu.iflag else s.table.cpu.intena;
          };
        };
      },
      rw (a, ◌>>=◌, r) refl,
      rw
          (
            sized,
            update_lem (set s.table.process i _) i _ (λ q. record q { state = Pstate.runable })
                (get_elem?-set_self s.table.process i _ (lt-length_of_some s.table.process i p e)),
            set-set,
          )
          refl,
      init_frame-IsUserFrame p.tf s.table.mem,
      init_frame_other p.tf s.table.mem,
      refl,
      refl,
    )
