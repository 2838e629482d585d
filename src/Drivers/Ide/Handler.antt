-- ===== src/Drivers/Ide/Handler.antt =====
-- The interrupt of the disk and its setup (drivers/ide.c: ide_handler, ide_init). `lock` and `sector` are the lock and the data of
-- the buffer at an address, and `words` is what insl reads from the drive.
use linda.Base.{ℕ, ◌%◌, List, panic, Outcome, ok, ◌>>=◌, ◌==◌, if◌then◌else◌}
use linda.Kernel.Spinlock.{initlock, Spinlock, Cpu, acquire, release}
use linda.Fs.Buf.{b_dirty, modify, buf_get, buf_remove}
use linda.Kernel.Trap.{Traps, register_trap_handler}
use linda.Kernel.Trap.Boot.{Handler}
use linda.Drivers.Ide.{Ide, ide_wait}

pub record Disk : Type 0 where
  pub ide : Ide
  pub lock : ℕ → Spinlock
  pub sector : ℕ → List ℕ

abbrev pub put_at : {A : Type 0} → ℕ → A → (ℕ → A) → ℕ → A
put_at p v f q = if q == p then v else f q

-- `insl(0x1F0, (void*)(&buf->data), BLOCK_SIZE/4); buf->flags = B_DIRTY;`
unfoldable pub take_sector : List ℕ → ℕ → Disk → Disk
take_sector words p s = record s {
  ide = record s.ide {
    bufs = record s.ide.bufs { buf = modify p (λ b. record b { flags = b_dirty }) s.ide.bufs.buf };
  };
  sector = put_at p words s.sector;
}

-- The `if`: the drive is waited for only for a buffer with B_VALID.
unfoldable pub fetch : ℕ → (ℕ → ℕ) → List ℕ → ℕ → Disk → Outcome Disk
fetch wait_fuel status words p s =
    if (s.ide.bufs.buf p).flags % 2 == 1
    then (ide_wait wait_fuel status 0 >>= λ r. ok (if r.0 then take_sector words p s else s))
    else ok s

abbrev pub with_lock : ℕ → Spinlock × Cpu → Disk → Disk
with_lock p (lock, cpu) s = record s {
  ide = record s.ide { cpu = cpu };
  lock = put_at p lock s.lock;
}

-- `release(buf->lock); buf_remove(buf);`
unfoldable pub finish : ℕ → ℕ → Disk → Outcome Disk
finish fuel p s = release (s.lock p, s.ide.cpu) >>= λ c. buf_remove fuel p s.ide.bufs >>= λ bufs.
    ok (record (with_lock p c s) { ide = record (with_lock p c s).ide { bufs = bufs } })

unfoldable pub serve : ℕ → ℕ → (ℕ → ℕ) → List ℕ → ℕ → Disk → Outcome Disk
unfolding finish
serve fuel wait_fuel status words p s = acquire (s.lock p, s.ide.cpu) >>= λ c.
    fetch wait_fuel status words p (with_lock p c s) >>= finish fuel p

-- The frame is not used. With no request the buffer is at NULL.
unfoldable pub ide_handler : ℕ → ℕ → (ℕ → ℕ) → List ℕ → Disk → Outcome Disk
unfolding serve buf_get
ide_handler fuel wait_fuel status words s = serve fuel wait_fuel status words (buf_get s.ide.bufs) s

-- `lock` is what kmalloc gave. (initlock comes before the test for NULL, at which it writes too.)
unfoldable pub ide_init : ℕ → Ide → Traps Handler → Outcome (Ide × Traps Handler)
unfolding initlock
ide_init lock s traps =
    if lock == 0
    then panic
    else register_trap_handler 46 Handler.ide_handler traps >>= λ traps'.
        ok (record s { idelock = initlock s.idelock }, traps')
