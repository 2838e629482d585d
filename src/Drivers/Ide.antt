-- ===== src/Drivers/Ide.antt =====
-- drivers/ide.c: the disk. What the processor writes to the ports is kept in order, the last first; the
-- data of a buffer, which outsl writes as a whole, are one entry. `status` is what the status register
-- gives each time that it is read, and `idelock` is set up (ide_init takes it from the heap).
pub mod Command
pub mod Requests
pub mod Handler
pub mod Served
mod Tests
use linda.Base.{
  ℕ, zero, suc, ◌+◌, ◌*◌, ◌/◌, ◌%◌, ◌^◌, Bool, true, false, List, [], ◌∷◌, ◌++◌, Outcome, ok, panic,
  hang, ◌>>=◌, ◌==◌, if◌then◌else◌,
}
use Prim.Native.Nat.{bit_or}
use linda.Kernel.Spinlock.{Spinlock, Cpu, acquire}
use linda.Fs.Buf.{Buf, BufQueue, b_dirty, buf_get, put, read_request}

pub data Io : Type 0 where
  byte : ℕ → ℕ → Io
  data_of : ℕ → Io

pub record Ide : Type 0 where
  pub idelock : Spinlock
  pub cpu : Cpu
  pub bufs : BufQueue
  pub outs : List Io

abbrev pub outb : ℕ → ℕ → List Io → List Io
outb port v outs = Io.byte port (v % 256) ∷ outs

-- `while(((status = inb(0x01F7)) & (IDE_BSY | IDE_RDY)) != IDE_RDY);` on fuel, from read `i` on; whether
-- the drive reports no fault, and the next read.
unfoldable pub ide_wait : ℕ → (ℕ → ℕ) → ℕ → Outcome (Bool × ℕ)
ide_wait zero status i = hang
ide_wait (suc fuel) status i =
    let rest = ide_wait fuel status (suc i) in
    if status i / 64 % 4 == 1 then ok (status i / 32 % 2 == 0, suc i) else rest

-- `0xE0 | ((blockno >> 24) & 0x0F) | (dev << 4)`
unfoldable pub drive_head : ℕ → ℕ → ℕ
drive_head dev blockno = bit_or (bit_or 0xE0 (blockno / 2 ^ 24 % 16)) (dev * 16)

-- The command for the buffer at `p`.
unfoldable pub command : ℕ → Buf → List Io → List Io
command p b outs =
    let addressed = outb 0x1F6 (drive_head b.dev b.blockno) (
      outb 0x1F5 (b.blockno / 2 ^ 16 % 256) (
        outb 0x1F4 (b.blockno / 2 ^ 8 % 256)
          (outb 0x1F3 (b.blockno % 256) (outb 0x1F2 2 (outb 0x3F6 0 outs))))) in
    if b.flags / 2 % 2 == 1
    then Io.data_of p ∷ outb 0x1F7 0x30 addressed
    else outb 0x1F7 0x20 addressed

-- ide_execute behind its acquire. It does not release the lock, and what ide_wait returns is not used.
unfoldable pub issue : ℕ → (ℕ → ℕ) → Ide → Outcome Ide
unfolding buf_get
issue fuel status s =
    if buf_get s.bufs == 0
    then ok s
    else ide_wait fuel status 0 >>= λ _.
        ok (record s { outs = command (buf_get s.bufs) (s.bufs.buf (buf_get s.bufs)) s.outs })

unfoldable pub ide_execute : ℕ → (ℕ → ℕ) → Ide → Outcome Ide
ide_execute fuel status s =
    acquire (s.idelock, s.cpu) >>= λ c. issue fuel status (record s { idelock = c.0; cpu = c.1 })

-- fs/buf.c: buf_write. The queue is walked with `fuel`, the drive waited for with `wait_fuel`.
unfoldable pub buf_write : ℕ → ℕ → (ℕ → ℕ) → ℕ → Ide → Outcome Ide
buf_write fuel wait_fuel status p s =
    put fuel p s.bufs >>= λ bufs. ide_execute wait_fuel status (record s { bufs = bufs })

-- fs/buf.c: buf_read, with what kmalloc gave for the buffer and for its lock; it returns the buffer.
unfoldable pub buf_read : ℕ → ℕ → (ℕ → ℕ) → ℕ → ℕ → ℕ → ℕ → Ide → Outcome (ℕ × Ide)
buf_read fuel wait_fuel status p lock dev blockno s =
    if p == 0
    then ok (0, s)
    else if lock == 0
    then ok (0, s)
    else read_request fuel p dev blockno s.bufs >>= λ bufs.
        ide_execute wait_fuel status (record s { bufs = bufs }) >>= λ s'. ok (p, s')
