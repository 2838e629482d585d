-- ===== src/Drivers/Ide/Served.antt =====
-- What the interrupt of the disk (drivers/ide.c: ide_handler) does with the first request.
use linda.Base.{
  ℕ, suc, ◌/◌, ◌%◌, ◌<◌, ◌≡◌, ◌≢◌, refl, sym, ap, ap₂, ◌∙◌, Bool, true, false, List, [], ◌∷◌,
  length, zero, ◌+◌, ◌≤◌, arith, ◌&&◌, ok, ◌>>=◌, ◌==◌, if◌then◌else◌, eq→==, ne→==, Bool-cases,
  inl, inr,
}
use linda.Mach.{u32_mod}
use linda.Kernel.Spinlock.{Spinlock, Cpu, acquire, release, pushcli}
use linda.Kernel.Spinlock.Sections.{IsMasked, release-acquire}
use linda.Fs.Buf.{Buf, BufQueue, b_dirty, modify, buf_get, buf_remove}
use linda.Fs.Buf.Queue.{first, Linked, Holds, modify_same}
use linda.Fs.Buf.Remove.{buf_remove-buf_get}
use linda.Drivers.Ide.{ide_wait}
use linda.Drivers.Ide.Handler.{
  Disk, put_at, take_sector, fetch, with_lock, finish, serve, ide_handler,
}

get : (s : BufQueue) → s.queue ≡ buf_get s
unfolding buf_get
get s = refl

-- The drive is ready at read `i` and not before.
ide_wait_first :
    (i wait_fuel from n : ℕ) (status : ℕ → ℕ)
    → n ≡ from + i
    → ((j : ℕ) → from ≤ j → j < n → status j / 64 % 4 ≢ 1)
    → status n / 64 % 4 ≡ 1
    → i < wait_fuel
    → ide_wait wait_fuel status from ≡ ok (status n / 32 % 2 == 0, suc n)
unfolding ide_wait
ide_wait_first i zero from n status e busy ready h = absurd (omega arith)
ide_wait_first zero (suc fuel) from n status e busy ready h =
    let same : from ≡ n = omega arith in rw (same, eq→== (status n / 64 % 4) 1 ready) refl
ide_wait_first (suc i) (suc fuel) from n status e busy ready h =
    rw (ne→== (status from / 64 % 4) 1 (busy from (omega arith) (omega arith))) (
      ide_wait_first i fuel (suc from) n status (omega arith) (λ j k l. busy j (omega arith) l)
        ready (omega arith))

abbrev mark : Buf → Buf
mark b = record b { flags = b_dirty }

mark_links :
    (p : ℕ) (buf : ℕ → Buf) (q : ℕ)
    → ((modify p mark buf q).prev ≡ (buf q).prev) × ((modify p mark buf q).next ≡ (buf q).next)
mark_links p buf q = elim (Bool-cases (q == p)) [
  | inl r ↦ rw r (refl, refl)
  | inr r ↦ rw r (refl, refl)
]

Linked-mark :
    (p : ℕ) (buf : ℕ → Buf) (prev : ℕ) (ps : List ℕ)
    → Linked buf prev ps
    → Linked (modify p mark buf) prev ps
Linked-mark p buf prev [] l = tt
Linked-mark p buf prev (q ∷ qs) (nz, a, b, l) =
    let (x, y) = mark_links p buf q in (nz, x ∙ a, y ∙ b, Linked-mark p buf q qs l)

Holds-mark :
    (p : ℕ) (ps : List ℕ) (s : BufQueue)
    → Holds s ps
    → Holds (record s { buf = modify p mark s.buf }) ps
Holds-mark p ps s h = record {
  head = h.head;
  linked = Linked-mark p s.buf 0 ps h.linked;
  distinct = h.distinct;
  count = h.count;
}

-- Whether the handler takes what the drive gives, with `status` what the drive answered when it was ready.
abbrev pub takes : Buf → ℕ → Bool
takes b status = (b.flags % 2 == 1) && (status / 32 % 2 == 0)

fetch_lem :
    (p i wait_fuel : ℕ) (status : ℕ → ℕ) (words : List ℕ) (s : Disk)
    → ((j : ℕ) → j < i → status j / 64 % 4 ≢ 1)
    → status i / 64 % 4 ≡ 1
    → i < wait_fuel
    → fetch wait_fuel status words p s
      ≡ ok (if takes (s.ide.bufs.buf p) (status i) then take_sector words p s else s)
unfolding fetch
fetch_lem p i wait_fuel status words s busy ready h =
    elim (Bool-cases ((s.ide.bufs.buf p).flags % 2 == 1)) [
      | inl r ↦
          rw (r, ide_wait_first i wait_fuel 0 i status (omega arith) (λ j _ l. busy j l) ready h)
            refl
      | inr r ↦ rw r refl
    ]

put_at_same : {A : Type 0} (p : ℕ) (v : A) (f : ℕ → A) → put_at p v f p ≡ v
put_at_same p v f = rw (eq→== p p refl) refl

-- What the handler leaves of the request at `p` in front of the requests `ps`.
pub record Served (p : ℕ) (ps : List ℕ) (taken : Bool) (words : List ℕ) (s s' : Disk) : Type 0 where
  pub next : s'.ide.bufs.queue ≡ first ps
  pub count : s'.ide.bufs.count ≡ length ps % u32_mod
  pub sector : s'.sector p ≡ (if taken then words else s.sector p)
  pub flags : (s'.ide.bufs.buf p).flags ≡ (if taken then b_dirty else (s.ide.bufs.buf p).flags)
  pub unlocked : s'.lock p ≡ s.lock p
  pub iflag : s'.ide.cpu.iflag ≡ s.ide.cpu.iflag

serve_lem :
    (p fuel wait_fuel : ℕ) (status : ℕ → ℕ) (words : List ℕ) (s : Disk) {c : Spinlock × Cpu}
    {t : Disk}
    → acquire (s.lock p, s.ide.cpu) ≡ ok c
    → fetch wait_fuel status words p (with_lock p c s) ≡ ok t
    → serve fuel wait_fuel status words p s ≡ finish fuel p t
unfolding serve
serve_lem p fuel wait_fuel status words s e f = rw (e, ◌>>=◌, f) refl

-- The end of the critical section, in a state `t` of it.
finish_lem :
    (p : ℕ) (ps : List ℕ) (fuel : ℕ) (lock : Spinlock) (cpu : Cpu) (t : Disk)
    → Holds t.ide.bufs (p ∷ ps)
    → lock.locked ≡ 0
    → IsMasked cpu
    → t.lock p ≡ record { locked = 1 }
    → t.ide.cpu ≡ pushcli cpu
    → (s' : Disk) × (finish (suc fuel) p t ≡ ok s')
      × (s'.ide.bufs.queue ≡ first ps)
      × (s'.ide.bufs.count ≡ length ps % u32_mod)
      × (s'.ide.bufs.buf ≡ t.ide.bufs.buf)
      × (s'.sector ≡ t.sector)
      × (s'.lock p ≡ lock)
      × (s'.ide.cpu.iflag ≡ cpu.iflag)
unfolding finish
finish_lem p ps fuel lock cpu t h z m held masked =
    let (_, _, _, r) = release-acquire lock cpu m z in
    let (bufs, e, next, count, same) = buf_remove-buf_get p ps fuel t.ide.bufs h in
    let cpu' : Cpu = record cpu { intena = if cpu.ncli == 0 then cpu.iflag else cpu.intena } in
    let released = ap₂ (λ (l : Spinlock) (c : Cpu). release (l, c)) held masked ∙ r in
    let removed : buf_remove (suc fuel) p t.ide.bufs ≡ ok bufs =
      ap (λ (q : ℕ). buf_remove (suc fuel) q t.ide.bufs) (sym h.head ∙ get t.ide.bufs) ∙ e in
    (
      record (with_lock p (lock, cpu') t) {
        ide = record (with_lock p (lock, cpu') t).ide { bufs = bufs };
      },
      rw (released, ◌>>=◌, removed) refl,
      next,
      count,
      same,
      refl,
      put_at_same p lock t.lock,
      refl,
    )

-- The state in the handler's critical section, whether or not the sector was taken.
module _ (p : ℕ) (ps : List ℕ) (words : List ℕ) (s : Disk) where
  abbrev held : Disk
  held = with_lock p (record { locked = 1 }, pushcli s.ide.cpu) s

  abbrev inside : Bool → Disk
  inside taken = if taken then take_sector words p held else held

  inside-finish :
      (taken : Bool) (fuel : ℕ)
      → Holds s.ide.bufs (p ∷ ps)
      → (s.lock p).locked ≡ 0
      → IsMasked s.ide.cpu
      → (s' : Disk) × (finish (suc fuel) p (inside taken) ≡ ok s') × Served p ps taken words s s'
  unfolding take_sector
  inside-finish true fuel h z m =
      let (s', e, next, count, buf, sector, lock, iflag) =
        finish_lem p ps fuel (s.lock p) s.ide.cpu (inside true) (Holds-mark p (p ∷ ps) s.ide.bufs h)
          z m (put_at_same p _ s.lock) refl in
      (
        s',
        e,
        record {
          next = next;
          count = count;
          sector = ap (λ (f : ℕ → List ℕ). f p) sector ∙ put_at_same p words s.sector;
          flags =
              ap (λ (f : ℕ → Buf). (f p).flags) buf
              ∙ ap (λ (b : Buf). b.flags) (modify_same p mark s.ide.bufs.buf);
          unlocked = lock;
          iflag = iflag;
        },
      )
  inside-finish false fuel h z m =
      let (s', e, next, count, buf, sector, lock, iflag) =
        finish_lem p ps fuel (s.lock p) s.ide.cpu held h z m (put_at_same p _ s.lock) refl in
      (
        s',
        e,
        record {
          next = next;
          count = count;
          sector = ap (λ (f : ℕ → List ℕ). f p) sector;
          flags = ap (λ (f : ℕ → Buf). (f p).flags) buf;
          unlocked = lock;
          iflag = iflag;
        },
      )

-- For the first of the requests in a well-formed queue, with its lock free, interrupts off while some
-- pushcli is open, and the drive ready at read `i` and not before, the handler returns within fuel above
-- `i` for the wait and one round for the queue: the next request is at the head, the count is the number
-- of the others modulo 2^32, the lock is free again and the interrupt flag is as it was. Exactly for a buffer with B_VALID, and if the drive reported no fault when it was ready, what the
-- drive gave is the buffer's data and its flags are B_DIRTY alone; otherwise both are as before.
pub ide_handler-Served :
    (p : ℕ) (ps : List ℕ) (i fuel wait_fuel : ℕ) (status : ℕ → ℕ) (words : List ℕ) (s : Disk)
    → Holds s.ide.bufs (p ∷ ps)
    → (s.lock p).locked ≡ 0
    → IsMasked s.ide.cpu
    → ((j : ℕ) → j < i → status j / 64 % 4 ≢ 1)
    → status i / 64 % 4 ≡ 1
    → i < wait_fuel
    → (s' : Disk) × (ide_handler (suc fuel) wait_fuel status words s ≡ ok s')
      × Served p ps (takes (s.ide.bufs.buf p) (status i)) words s s'
unfolding ide_handler
ide_handler-Served p ps i fuel wait_fuel status words s h z m busy ready k =
    let (a, _, _, _) = release-acquire (s.lock p) s.ide.cpu m z in
    let taken = takes (s.ide.bufs.buf p) (status i) in
    let (s', e, served) = inside-finish p ps words s taken fuel h z m in
    (
      s',
      ap (λ (q : ℕ). serve (suc fuel) wait_fuel status words q s) h.head
          ∙ serve_lem p (suc fuel) wait_fuel status words s a
              (fetch_lem p i wait_fuel status words (held p ps words s) busy ready k)
          ∙ e,
      served,
    )
