-- ===== src/Loader.antt =====
-- init/bootloader/loader.c: the loader's reads of the disk. `disk` is the disk, byte by byte, `status` is
-- what the status register gives at each read of it, and `reads` counts those reads. The drive gives the
-- sector that its registers name. An address is below 2 ^ 32.
pub mod Segment
mod Tests
use linda.Base.{
  ℕ, zero, suc, ◌+◌, ◌-◌, ◌*◌, ◌/◌, ◌%◌, ◌^◌, true, false, List, [], ◌∷◌, ◌&&◌, Outcome, ok, hang,
  ◌>>=◌, ◌==◌, ltb, leb, if◌then◌else◌,
}
use Prim.Native.Nat.{bit_or}
use linda.Mach.{add32, sub32}
use linda.Drivers.Ide.{Io, outb}
use linda.Drivers.Ide.Command.{lba}

abbrev pub sector_size : ℕ
sector_size = 512

pub record Boot : Type 0 where
  pub mem : ℕ → ℕ
  pub outs : List Io
  pub reads : ℕ

-- `while((inb(0x01F7) & 0xC0) != 0x40);` on fuel: the next read
unfoldable pub wait_disk : ℕ → (ℕ → ℕ) → ℕ → Outcome ℕ
wait_disk zero status reads = hang
wait_disk (suc fuel) status reads =
    let rest = wait_disk fuel status (suc reads) in
    if status reads / 64 % 4 == 1 then ok (suc reads) else rest

-- The ports for a read of `count` sectors from the sector `offset` on.
unfoldable pub select : ℕ → ℕ → List Io → List Io
select offset count outs = outb 0x1F7 0x20 (
    outb 0x1F6 (bit_or (offset / 2 ^ 24) 0xE0) (
      outb 0x1F5 (offset / 2 ^ 16 % 256)
        (outb 0x1F4 (offset / 2 ^ 8 % 256) (outb 0x1F3 (offset % 256) (outb 0x1F2 count outs)))))

-- `insl(0x01F0, dst, SECTOR_SIZE/4)`
abbrev pub take_sector : (ℕ → ℕ) → ℕ → ℕ → (ℕ → ℕ) → ℕ → ℕ
take_sector disk sector dst mem a =
    if leb dst a && ltb a (dst + sector_size)
    then disk (sector * sector_size + (a - dst))
    else mem a

-- Only one sector is taken, whatever `count` is.
unfoldable pub read_sectors : ℕ → (ℕ → ℕ) → (ℕ → ℕ) → ℕ → ℕ → ℕ → Boot → Outcome Boot
read_sectors fuel status disk dst offset count s = wait_disk fuel status s.reads >>= λ reads.
    wait_disk fuel status reads >>= λ reads'. ok (record {
      mem = take_sector disk (lba (select offset count s.outs)) dst s.mem;
      outs = select offset count s.outs;
      reads = reads';
    })

-- The loop of read_segment, on fuel; each wait for the drive has `wait_fuel`.
unfoldable pub read_from : ℕ → ℕ → (ℕ → ℕ) → (ℕ → ℕ) → ℕ → ℕ → ℕ → Boot → Outcome Boot
read_from zero wait_fuel status disk start_addr end_addr sectpos s = hang
read_from (suc fuel) wait_fuel status disk start_addr end_addr sectpos s =
    let rest = read_sectors wait_fuel status disk start_addr sectpos 1 s >>= λ s'.
    read_from fuel wait_fuel status disk (add32 start_addr sector_size) end_addr (add32 sectpos 1)
      s' in
    if ltb start_addr end_addr then rest else ok s

unfoldable pub read_segment : ℕ → ℕ → (ℕ → ℕ) → (ℕ → ℕ) → ℕ → ℕ → ℕ → Boot → Outcome Boot
unfolding read_from
read_segment fuel wait_fuel status disk dst length offset s =
    read_from fuel wait_fuel status disk (sub32 dst (offset % sector_size)) (add32 dst length)
      (offset / sector_size + 1) s

-- loader_start reads the first page of the kernel's file, and no more.
unfoldable pub loader_start : ℕ → ℕ → (ℕ → ℕ) → (ℕ → ℕ) → Boot → Outcome Boot
unfolding read_segment
loader_start fuel wait_fuel status disk s =
    read_segment fuel wait_fuel status disk 0x1_0000 4096 0 s
