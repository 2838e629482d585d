-- ===== src/Drivers/Ide/Command.antt =====
-- What the drive is told (drivers/ide.c), and the lock that ide_execute keeps.
use linda.Base.{
  ℕ, zero, suc, ◌+◌, ◌*◌, ◌/◌, ◌%◌, ◌^◌, ◌<◌, ◌≡◌, ◌≢◌, refl, sym, ap, ◌∙◌, subst, Bool, true,
  false, List, [], ◌∷◌, arith, Outcome, ok, panic, hang, overrun, ◌>>=◌, ◌==◌, if◌then◌else◌,
  tabulate, tabulate-at, eq→==, ne→==, Bool-cases, ==_iff, ℕ_discrete, inl, inr,
}
use Prim.Native.Nat.{bit_or}
use linda.Kernel.Spinlock.{Spinlock, pushcli}
use linda.Kernel.Spinlock.Sections.{acquire_lem}
use linda.Fs.Buf.{Buf}
use linda.Drivers.Ide.{Io, Ide, command, drive_head, ide_wait, issue, ide_execute}

-- The byte that was written last to a port.
unfoldable pub port : ℕ → List Io → ℕ
port n [] = 0
port n (Io.data_of p ∷ outs) = port n outs
port n (Io.byte m v ∷ outs) = let rest = port n outs in if m == n then v else rest

-- The number of the sector group that the drive's registers hold, in its four parts.
abbrev pub lba : List Io → ℕ
lba outs =
    port 0x1F3 outs
    + port 0x1F4 outs * 2 ^ 8
    + port 0x1F5 outs * 2 ^ 16
    + port 0x1F6 outs % 16 * 2 ^ 24

abbrev sums : ℕ → ℕ → Bool
sums dev h = bit_or (bit_or 0xE0 h) (dev * 16) == 0xE0 + dev * 16 + h

sums_first : tabulate (sums 0) 16 ≡ true
unfolding tabulate
sums_first = refl

sums_second : tabulate (sums 1) 16 ≡ true
unfolding tabulate
sums_second = refl

-- For the two drives the or of the parts of the byte is their sum.
drive_head_lem :
    (dev blockno : ℕ) → dev < 2 → drive_head dev blockno ≡ 0xE0 + dev * 16 + blockno / 2 ^ 24 % 16
unfolding drive_head
drive_head_lem zero blockno h =
    (==_iff _ _).0 (tabulate-at (sums 0) (blockno / 2 ^ 24 % 16) (omega arith) sums_first)
drive_head_lem (suc zero) blockno h =
    (==_iff _ _).0 (tabulate-at (sums 1) (blockno / 2 ^ 24 % 16) (omega arith) sums_second)
drive_head_lem (suc (suc n)) blockno h = absurd (omega arith)

-- The registers after a command hold the number of the buffer's block and its drive, if the number is
-- below 2^28 and the drive one of the two, and the command is a write exactly for a dirty buffer.
pub command-lba :
    (p : ℕ) (b : Buf) (outs : List Io)
    → b.blockno < 2 ^ 28
    → b.dev < 2
    → (lba (command p b outs) ≡ b.blockno)
      × (port 0x1F6 (command p b outs) / 16 % 2 ≡ b.dev)
      × (port 0x1F7 (command p b outs) ≡ (if b.flags / 2 % 2 == 1 then 0x30 else 0x20))
unfolding command port
command-lba p b outs h k = elim (Bool-cases (b.flags / 2 % 2 == 1)) [
  | inl r ↦ rw r (
    omega (arith, h, drive_head_lem b.dev b.blockno k),
    omega (arith, k, drive_head_lem b.dev b.blockno k),
    refl,
  )
  | inr r ↦ rw r (
    omega (arith, h, drive_head_lem b.dev b.blockno k),
    omega (arith, k, drive_head_lem b.dev b.blockno k),
    refl,
  )
]

result_of : {A : Type 0} (r : Outcome A) (t s' : Ide) → (r >>= λ _. ok t) ≡ ok s' → t ≡ s'
result_of (ok a) t s' e = cc e
result_of panic t s' e = cc e
result_of hang t s' e = cc e
result_of overrun t s' e = cc e

-- The command leaves the lock as it was.
issue-idelock :
    (fuel : ℕ) (status : ℕ → ℕ) (s s' : Ide) → issue fuel status s ≡ ok s' → s'.idelock ≡ s.idelock
unfolding issue
issue-idelock fuel status s s' e = elim (Bool-cases (s.bufs.queue == 0)) [
  | inl r ↦ let same : s ≡ s' = cc (rw r at e) in ap (λ (x : Ide). x.idelock) (sym same)
  | inr r ↦ ap (λ (x : Ide). x.idelock) (sym (result_of (ide_wait fuel status 0) _ s' (rw r at e)))
]

execute_free :
    (fuel : ℕ) (status : ℕ → ℕ) (s : Ide)
    → s.idelock.locked ≡ 0
    → ide_execute fuel status s
      ≡ issue fuel status (record s { idelock = record { locked = 1 }; cpu = pushcli s.cpu })
unfolding ide_execute
execute_free fuel status s z =
    let (e, _) = acquire_lem s.idelock s.cpu in rw (e, eq→== s.idelock.locked 0 z) refl

execute_held :
    (fuel : ℕ) (status : ℕ → ℕ) (s : Ide) → s.idelock.locked ≢ 0 → ide_execute fuel status s ≡ panic
unfolding ide_execute
execute_held fuel status s z =
    let (e, _) = acquire_lem s.idelock s.cpu in rw (e, ne→== s.idelock.locked 0 z) refl

wait_ready :
    (fuel from : ℕ) (status : ℕ → ℕ)
    → (status from / 64 % 4 == 1) ≡ true
    → ide_wait (suc fuel) status from ≡ ok (status from / 32 % 2 == 0, suc from)
unfolding ide_wait
wait_ready fuel from status r = rw r refl

wait_busy :
    (fuel from : ℕ) (status : ℕ → ℕ)
    → (status from / 64 % 4 == 1) ≡ false
    → ide_wait (suc fuel) status from ≡ ide_wait fuel status (suc from)
unfolding ide_wait
wait_busy fuel from status r = rw r refl

-- The drive is ready `i` reads after `from`, so that the wait ends there or before.
ide_wait_ends :
    (i fuel from n : ℕ) (status : ℕ → ℕ)
    → n ≡ from + i
    → status n / 64 % 4 ≡ 1
    → i < fuel
    → (r : Bool × ℕ) × (ide_wait fuel status from ≡ ok r)
ide_wait_ends i zero from n status at h k = elim k [ ]
ide_wait_ends zero (suc fuel) from n status at h k =
    let same : n ≡ from = omega (arith, at) in
    (
      _,
      wait_ready fuel from status
          (eq→== (status from / 64 % 4) 1 (subst (λ (x : ℕ). status x / 64 % 4 ≡ 1) same h)),
    )
ide_wait_ends (suc i) (suc fuel) from n status at h k =
    let (r, e) =
      ide_wait_ends i fuel (suc from) n status (omega (arith, at)) h (omega (arith, k)) in
    elim (Bool-cases (status from / 64 % 4 == 1)) [
      | inl now ↦ (_, wait_ready fuel from status now)
      | inr busy ↦ (r, wait_busy fuel from status busy ∙ e)
    ]

-- With the lock free and a buffer at the head of the queue ide_execute gives the drive the command for
-- that buffer, if the drive is ready at some read within the fuel, and returns with the lock held.
pub ide_execute-command :
    (i fuel : ℕ) (status : ℕ → ℕ) (s : Ide)
    → s.idelock.locked ≡ 0
    → s.bufs.queue ≢ 0
    → status i / 64 % 4 ≡ 1
    → i < fuel
    → (s' : Ide) × (ide_execute fuel status s ≡ ok s')
      × (s'.bufs ≡ s.bufs)
      × (s'.outs ≡ command s.bufs.queue (s.bufs.buf s.bufs.queue) s.outs)
      × (s'.idelock.locked ≡ 1)
unfolding issue
ide_execute-command i fuel status s z n h k =
    let (r, e) = ide_wait_ends i fuel 0 i status (omega arith) h k in
    (
      record s {
        idelock = record { locked = 1 };
        cpu = pushcli s.cpu;
        outs = command s.bufs.queue (s.bufs.buf s.bufs.queue) s.outs;
      },
      execute_free fuel status s z ∙ rw (ne→== s.bufs.queue 0 n, e) refl,
      refl,
      refl,
      refl,
    )

-- Once ide_execute has returned it holds the lock, and the next call of it panics.
pub ide_execute-again :
    (fuel fuel' : ℕ) (status status' : ℕ → ℕ) (s s' : Ide)
    → ide_execute fuel status s ≡ ok s'
    → ide_execute fuel' status' s' ≡ panic
ide_execute-again fuel fuel' status status' s s' e = elim (ℕ_discrete s.idelock.locked 0) [
  | yes z ↦
      let kept = issue-idelock fuel status _ s' (sym (execute_free fuel status s z) ∙ e) in
      execute_held fuel' status' s'
        (λ f. absurd (omega (arith, f, ap (λ (x : Spinlock). x.locked) kept)))
  | no n ↦ absurd (cc (e, execute_held fuel status s n))
]
