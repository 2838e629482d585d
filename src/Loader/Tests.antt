-- ===== src/Loader/Tests.antt =====
-- A segment that begins within a sector, on a drive that is always ready.
use linda.Base.{ℕ, ◌%◌, ◌≡◌, refl, [], Option, some, none, Outcome, ok}
use linda.Loader.{Boot, wait_disk, select, read_sectors, read_segment}
use linda.Drivers.Ide.Command.{port}

abbrev before : Boot
before = record { mem = λ _. 7; outs = []; reads = 0 }

abbrev ready : ℕ → ℕ
ready _ = 0x50

abbrev numbered : ℕ → ℕ
numbered at = at % 251

abbrev byte_at : ℕ → Outcome Boot → Option ℕ
byte_at a (ok s) = some (s.mem a)
byte_at a _ = none

read_segment_run :
    byte_at 5000 (read_segment 4 1 ready numbered 5000 600 100 before) ≡ some (612 % 251)
unfolding read_segment read_sectors wait_disk select port
read_segment_run = refl
