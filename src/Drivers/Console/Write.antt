-- ===== src/Drivers/Console/Write.antt =====
-- console_put and console_write (drivers/console.c) with the console lock.
use linda.Base.{
  ℕ, ◌≡◌, ◌≢◌, refl, List, [], ◌∷◌, arith, pos, Outcome, ok, panic, hang, overrun, ◌>>=◌, ◌∙◌,
}
use linda.Kernel.Spinlock.{pushcli}
use linda.Kernel.Spinlock.Sections.{IsMasked, release-acquire}
use linda.Drivers.Console.{Console, put_body, console_put, console_write}
use linda.Drivers.Console.Cursor.{IsCursor, put_body-IsCursor}

-- The console is free to be used: its lock is free, and interrupts are off while a pushcli is open.
pub record IsFree (s : Console) : Type 0 where
  pub unlocked : s.cons.locked ≡ 0
  pub masked : IsMasked s.cpu

-- After a call: the console is free again, its cursor is in place, and the processor has the
-- interrupt flag and the count that it had.
abbrev pub Written : Console → Outcome Console → Type 0
Written s (ok s') =
    IsFree s' × IsCursor s' × (s'.cpu.iflag ≡ s.cpu.iflag) × (s'.cpu.ncli ≡ s.cpu.ncli)
Written s _ = ⊥

put_body-lock :
    (cnt : ℕ) (s : Console) → ((put_body cnt s).cons ≡ s.cons) × ((put_body cnt s).cpu ≡ s.cpu)
unfolding put_body
put_body-lock cnt s = (ground arith, ground arith)

console_put-Written :
    (cnt : ℕ) (s : Console)
    → (cnt ≡ 8 → s.console_x ≢ pos 0)
    → IsFree s
    → IsCursor s
    → Written s (console_put cnt s)
unfolding console_put
console_put-Written cnt s b f c =
    let (a, _, _, r) = release-acquire s.cons s.cpu f.masked f.unlocked in
    let s' = record s { cons = record { locked = 1 }; cpu = pushcli s.cpu } in
    let (l, p) = put_body-lock cnt s' in
    let q = put_body-IsCursor cnt s' b (record { row = c.row; left = c.left; right = c.right }) in
    rw (a, l, p, r)
      (
        record { unlocked = f.unlocked; masked = record { masked = λ h. f.masked.masked h } },
        record { row = q.row; left = q.left; right = q.right },
        refl,
        refl,
      )

Written-trans :
    (s t : Console) (r : Outcome Console)
    → t.cpu.iflag ≡ s.cpu.iflag
    → t.cpu.ncli ≡ s.cpu.ncli
    → Written t r
    → Written s r
Written-trans s t (ok u) i n (f, c, a, b) = (f, c, a ∙ i, b ∙ n)
Written-trans s t panic i n w = w
Written-trans s t hang i n w = w
Written-trans s t overrun i n w = w

-- No character of a string is a backspace.
abbrev pub NoBackspace : List ℕ → Type 0
NoBackspace [] = Unit
NoBackspace (c ∷ cs) = (c ≢ 8) × NoBackspace cs

write_step :
    (cs : List ℕ) (s : Console) (r : Outcome Console)
    → Written s r
    → ((t : Console) → IsFree t → IsCursor t → Written t (console_write cs t))
    → Written s (r >>= console_write cs)
write_step cs s (ok t) (f, c, i, n) ih = Written-trans s t (console_write cs t) i n (ih t f c)
write_step cs s panic w ih = w
write_step cs s hang w ih = w
write_step cs s overrun w ih = w

-- With the console lock free, the cursor above the last row and in one of the columns 0 to 78, and
-- interrupts off while some pushcli is open, console_write of a string without backspaces neither panics
-- nor hangs: the lock is free again, the cursor is so again, and the processor has the interrupt flag and
-- the count that it had.
pub console_write-Written :
    (cnt : List ℕ) (s : Console)
    → NoBackspace cnt
    → IsFree s
    → IsCursor s
    → Written s (console_write cnt s)
unfolding console_write
console_write-Written [] s b f c = (f, c, refl, refl)
console_write-Written (x ∷ cnt) s b f c =
    write_step cnt s (console_put x s) (console_put-Written x s (λ e. absurd (b.0 e)) f c)
      (λ t f' c'. console_write-Written cnt t b.1 f' c')
