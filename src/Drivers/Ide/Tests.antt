-- ===== src/Drivers/Ide/Tests.antt =====
-- Commands to the drive, its interrupt, and the lock, with one request in the queue.
use linda.Base.{ok, ◌∷◌, ℕ, ◌/◌, ◌%◌, ◌≡◌, refl, [], arith, panic, ◌==◌, if◌then◌else◌, false, true}
use linda.Fs.Buf.{Buf}
use linda.Fs.Buf.Queue.{Holds}
use linda.Drivers.Ide.Requests.{buf_write-command}
use linda.Drivers.Ide.{buf_write, Ide, command, ide_execute}
use linda.Drivers.Ide.Handler.{Disk, ide_handler}
use linda.Drivers.Ide.Served.{Served, ide_handler-Served}
use linda.Drivers.Ide.Command.{lba, port, command-lba, ide_execute-command, ide_execute-again}

abbrev request : Buf
request = record { flags = 1; dev = 1; blockno = 0x0ABCDEF; prev = 0; next = 0 }

abbrev disk : Ide
disk = record {
  idelock = record { locked = 0 };
  cpu = record { ncli = 0; intena = false; iflag = true };
  bufs = record { queue = 100; count = 1; buf = λ _. request };
  outs = [];
}

-- The drive is busy for two reads.
abbrev busy_twice : ℕ → ℕ
busy_twice i = if i == 2 then 0x50 else 0x80

command-lba_example :
    (lba (command 100 request []) ≡ 0x0ABCDEF)
    × (port 0x1F6 (command 100 request []) / 16 % 2 ≡ 1)
    × (port 0x1F7 (command 100 request []) ≡ 0x20)
command-lba_example = command-lba 100 request [] (omega arith) (omega arith)

abbrev after : Ide
after = (ide_execute-command 2 3 busy_twice disk refl (omega arith) refl (omega arith)).0

ide_execute-again_example : ide_execute 9 busy_twice after ≡ panic
ide_execute-again_example =
    ide_execute-again 3 9 busy_twice busy_twice disk after
      (ide_execute-command 2 3 busy_twice disk refl (omega arith) refl (omega arith)).1

-- No request yet; the new one is at 100.
abbrev idle_disk : Ide
idle_disk = record disk { bufs = record { queue = 0; count = 0; buf = λ _. request } }

buf_write-command_example :
    (s' : Ide) × (buf_write 0 3 busy_twice 100 idle_disk ≡ ok s')
    × Holds s'.bufs (100 ∷ [])
    × (s'.outs ≡ command 100 (s'.bufs.buf 100) [])
    × (s'.idelock.locked ≡ 1)
buf_write-command_example =
    buf_write-command [] 100 0 2 3 busy_twice idle_disk
      (record { head = refl; linked = tt; distinct = tt; count = refl }) tt (omega arith) refl refl
      (omega arith) refl refl (omega arith)

abbrev reading : Disk
reading = record { ide = disk; lock = λ _. record { locked = 0 }; sector = λ _. [] }

ide_handler-Served_example :
    (s' : Disk) × (ide_handler 1 3 busy_twice (7 ∷ 8 ∷ []) reading ≡ ok s')
    × Served 100 [] true (7 ∷ 8 ∷ []) reading s'
ide_handler-Served_example =
    ide_handler-Served 100 [] 2 0 3 busy_twice (7 ∷ 8 ∷ []) reading
      (record {
        head = refl;
        linked = (omega arith, refl, refl, tt);
        distinct = (tt, tt);
        count = refl;
      })
      refl (record { masked = λ h. absurd (h refl) }) (λ j h e. ground arith) refl (omega arith)
