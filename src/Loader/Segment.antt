-- ===== src/Loader/Segment.antt =====
-- The bytes that read_segment (init/bootloader/loader.c) brings into memory.
use linda.Base.{ℕ, ◌+◌, ◌-◌, ◌*◌, ◌/◌, ◌%◌, ◌<◌, ◌≡◌, Bool, ◌&&◌, ◌==◌, ltb, leb, if◌then◌else◌}
use Prim.Native.Nat.{bit_or}
use linda.Loader.{sector_size}

-- From every read on the drive becomes ready within `fuel` reads.
abbrev pub IsLive : ℕ → (ℕ → ℕ) → Type 0
IsLive fuel status = (n : ℕ) → (i : ℕ) × (i < fuel) × (status (n + i) / 64 % 4 ≡ 1)

-- The four parts of a sector number name that sector.
head_parts : ℕ → Bool
head_parts h = bit_or h 0xE0 % 256 % 16 == h

-- `n` sectors from `sectpos` on, at `start`.
abbrev pub loaded : (ℕ → ℕ) → ℕ → ℕ → ℕ → (ℕ → ℕ) → ℕ → ℕ
loaded disk n sectpos start mem a =
    if leb start a && ltb a (start + n * sector_size)
    then disk (sectpos * sector_size + (a - start))
    else mem a
